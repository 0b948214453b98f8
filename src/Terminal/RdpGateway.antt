-- ===== src/Terminal/RdpGateway.antt =====
-- backend/src/terminal/rdp.gateway.ts: the gateway to guacd. The parts of a socket are read through
-- its id; texts are lists of UTF-16 code units. A handler that awaits `authReady` is a step after
-- the one that settles it.
pub mod Frames
pub mod Events
pub mod Kept
pub mod Messages
pub mod Confirmation
pub mod Slots
use open_bastion.Base.{
  >>=-eq-ok, Bool, Bool-cases, Dict, HttpException, List, Memᴰ, Option, Option-cases, Result,
  Result-cases, String, [], all, any, any-mem, ap, arith, bad_request, conflict, delete_key, drop,
  empty_dict, eq_iff, eq_refl, err, false, forbidden, get_or, guard, guard-eq-ok, head_of, if_false,
  if_true, if◌then◌else◌, inl, inr, internal_server_error, is_some, is_white_space, leb, length,
  length-append, ltb, ltb→lt, lt→ltb, map, max, mem_cons_cases, mem_of_any, min, none, not,
  not_found, ok, ok-injective, or_throw, or_throw-eq-ok, refl, same_text, same_text_iff, set_key,
  some, str_eq, subst, suc, sym, take, true, unauthorized, zero, zero-cases, ℕ, ◌%◌, ◌&&◌, ◌*◌,
  ◌++◌, ◌+◌, ◌-◌, ◌/◌, ◌<◌, ◌==◌, ◌=s=◌, ◌>>=◌, ◌>>◌, ◌^◌, ◌||◌, ◌↔◌, ◌∙◌, ◌∷◌, ◌≡◌, ◌≢◌, ◌≤◌, ◌⊎◌,
}
use open_bastion.Database.{Database}
use open_bastion.Schema.{User, BlacklistedToken, operator}
use open_bastion.Auth.Jwt.{Jwt}
use open_bastion.Rbac.{Store, has_access}
use open_bastion.Terminal.SshGateway.{
  SocketUser, Session, Window, max_sessions_per_user, max_conn_attempts_per_min, attempts_now,
  authenticate_socket,
}
use open_bastion.Terminal.SshGateway.Traffic.{check_access, is_token_revoked}
use open_bastion.Terminal.Guac.{Instruction, encode_instruction, decimal}

-- A session, and whether guacd records it.
pub record Tunnel : Type 0 where
  pub session : Session
  pub recording : Bool

-- `open_recordings` holds the sessions that the recorder has registered and not finalised, `polls`
-- the clients whose `accessPoll` interval runs.
pub record RdpGateway : Type 0 where
  pub sockets : Dict SocketUser
  pub sessions : Dict Tunnel
  pub user_sessions : Dict ℕ
  pub connection_attempts : Dict Window
  pub open_recordings : Dict String
  pub polls : Dict ℕ

-- What a handler does besides: to the socket of the browser, to that of guacd, in the audit log.
pub data RdpEffect : Type 0 where
  disconnect destroy emit_settings emit_ready emit_closed : RdpEffect
  emit_error audit : String → RdpEffect
  emit_data write : List ℕ → RdpEffect

abbrev pub max_message_size : ℕ
max_message_size = 2 * 1024 * 1024

-- The end of `authenticateSocket`: `client.data.user` is set before the limit is tested.
unfoldable pub settle_socket : String → SocketUser → RdpGateway → RdpGateway × List RdpEffect
settle_socket client user g =
    let current = get_or (g.user_sessions user.sub) 0 in
    let g' : RdpGateway = record g { sockets = set_key client user g.sockets } in
    if leb max_sessions_per_user current
    then (g', disconnect ∷ [])
    else (record g' { user_sessions = set_key user.sub (current + 1) g.user_sessions }, [])

module _ (db : Database) (jwt : Jwt) where
  unfoldable pub authenticate :
      ℕ
      → String
      → String
      → Option jwt.Token
      → db.State BlacklistedToken
      → db.State User
      → RdpGateway
      → RdpGateway × List RdpEffect
  unfolding settle_socket
  authenticate now client ip cookie blacklist users g =
      let attempts = attempts_now now (g.connection_attempts ip) in
      let counted : RdpGateway = record g {
        connection_attempts =
            set_key ip (record attempts { count = attempts.count + 1 }) g.connection_attempts;
      } in
      if leb max_conn_attempts_per_min attempts.count
      then (g, disconnect ∷ [])
      else (elim (authenticate_socket db jwt now cookie blacklist users) [
        | none ↦ (counted, disconnect ∷ [])
        | some (user, rotating) ↦
            if rotating
            then (counted, emit_error "Password change required" ∷ disconnect ∷ [])
            else settle_socket client user counted
      ])

-- The session's part of `handleDisconnect`; `finalizeRdp` closes the recording.
unfoldable pub close_tunnel : String → RdpGateway → RdpGateway × List RdpEffect
close_tunnel client g = elim (g.sessions client) [
  | none ↦ (g, [])
  | some tunnel ↦ (
    record g {
      sessions = delete_key client g.sessions;
      polls = delete_key client g.polls;
      open_recordings =
          (if tunnel.recording
            then delete_key tunnel.session.session_id g.open_recordings
            else g.open_recordings);
    },
    audit "RDP: SESSION_CLOSED" ∷ destroy ∷ [],
  )
]

-- `userSessions.get(user.sub) || 1`, less one.
unfoldable pub free_slot : Option SocketUser → RdpGateway → RdpGateway
free_slot none g = g
free_slot (some user) g =
    let current = get_or (g.user_sessions user.sub) 1 in
    if leb current 1
    then record g { user_sessions = delete_key user.sub g.user_sessions }
    else record g { user_sessions = set_key user.sub (current - 1) g.user_sessions }

unfoldable pub disconnected : String → RdpGateway → RdpGateway × List RdpEffect
unfolding close_tunnel free_slot
disconnected client g =
    let (g', effects) = close_tunnel client g in (free_slot (g.sockets client) g', effects)

-- The message of `start-session`, with what the server meets while it handles it: the machine's
-- protocol, whether the secret is decrypted and the tunnel comes up with which bytes behind the
-- handshake, whether recordings are on, and whether the database registers this one.
pub record StartRdp : Type 0 where
  pub machine_id : String
  pub is_rdp : Bool
  pub connected : Bool
  pub leftover : List ℕ
  pub recording_enabled : Bool
  pub registered : Bool

abbrev pub connection_failed : RdpEffect
connection_failed = emit_error "Connection failed. Please contact your administrator."

-- `if (leftover)`
abbrev pub flushed : List ℕ → List RdpEffect
flushed [] = []
flushed (c ∷ cs) = emit_data (c ∷ cs) ∷ []

-- From the stream on. The interval runs before the recording is registered.
unfoldable pub open_tunnel :
    ℕ → String → SocketUser → StartRdp → RdpGateway → RdpGateway × List RdpEffect
open_tunnel now client user r g =
    let polled : RdpGateway = record g { polls = set_key client now g.polls } in
    if r.recording_enabled && not r.registered then (polled, connection_failed ∷ []) else (
      record polled {
        sessions =
            set_key client
              (record {
                session = record {
                  machine_id = r.machine_id;
                  session_id = client;
                  user_id = user.sub;
                  start_time = now;
                  access_cache = none;
                };
                recording = r.recording_enabled;
              })
              g.sessions;
        open_recordings =
            (if r.recording_enabled
              then set_key client user.sub g.open_recordings
              else g.open_recordings);
      },
      audit "RDP: SESSION_STARTED" ∷ emit_settings ∷ flushed r.leftover ++ emit_ready ∷ [],
    )

module _ (db : Database) where
  unfoldable pub start_tunnel :
      ℕ → String → StartRdp → Store db → RdpGateway → RdpGateway × List RdpEffect
  unfolding open_tunnel
  start_tunnel now client r store g = elim (g.sockets client) [
    | none ↦ (g, emit_error "Authentication required" ∷ [])
    | some user ↦
        if is_some (g.sessions client)
        then (g, emit_error "Session already active on this connection" ∷ [])
        else if not (has_access db user.sub r.machine_id operator store)
        then (g, emit_error "Permission denied" ∷ [])
        else if not (is_some (db.find r.machine_id store.machines))
        then (g, connection_failed ∷ [])
        else if not r.is_rdp
        then (g, emit_error "Machine protocol is not RDP. Use /terminal instead." ∷ [])
        else if not r.connected
        then (g, connection_failed ∷ [])
        else open_tunnel now client user r g
  ]

  -- A round of the interval, when the database answers; else the round changes nothing.
  unfoldable pub poll_tunnel : ℕ → String → Store db → RdpGateway → RdpGateway × List RdpEffect
  poll_tunnel now client store g = elim (g.sessions client) [
    | none ↦ (g, [])
    | some tunnel ↦ elim (g.sockets client) [
      | none ↦ (g, [])
      | some user ↦
          let revoked = is_token_revoked db user (db.find user.sub store.users) in
          let still_allowed =
            not revoked && has_access db user.sub tunnel.session.machine_id operator store in
          if still_allowed
          then (
            record g {
              sessions =
                  set_key client
                    (record tunnel {
                      session = record tunnel.session { access_cache = some (true, now) };
                    })
                    g.sessions;
            },
            [],
          )
          else (
            record g { sessions = delete_key client g.sessions },
            emit_error (if revoked then "Session revoked" else "Access revoked")
                ∷ destroy
                ∷ audit (
                    if revoked
                    then "RDP: SESSION_KILLED_TOKEN_REVOKE"
                    else "RDP: SESSION_KILLED_RBAC_REVOKE")
                ∷ disconnect
                ∷ [],
          )
    ]
  ]

  -- `handleData` below the test of the size.
  unfoldable pub forward_frame :
      ℕ → String → List ℕ → Bool → Store db → RdpGateway → RdpGateway × List RdpEffect
  forward_frame now client payload writable store g = elim (g.sessions client) [
    | none ↦ (g, [])
    | some tunnel ↦ elim (g.sockets client) [
      | none ↦ (g, [])
      | some user ↦
          let (allowed, cache) = check_access db now user.sub tunnel.session store in
          if not allowed
          then (
            record g { sessions = delete_key client g.sessions; polls = delete_key client g.polls },
            emit_error "Access revoked" ∷ destroy ∷ disconnect ∷ [],
          )
          else (
            record g {
              sessions =
                  set_key client
                    (record tunnel { session = record tunnel.session { access_cache = cache } })
                    g.sessions;
            },
            (if writable then write payload ∷ [] else []),
          )
    ]
  ]

  unfoldable pub handle_data :
      ℕ → String → List ℕ → Bool → Store db → RdpGateway → RdpGateway × List RdpEffect
  unfolding forward_frame
  handle_data now client payload writable store g =
      if ltb max_message_size (length payload)
      then (g, emit_error "Message too large" ∷ [])
      else forward_frame now client payload writable store g

-- `encodeInstruction('size', [width, height, '96'])`
abbrev pub size_instruction : ℕ → ℕ → Instruction
size_instruction width height = record {
  opcode = b's' ∷ b'i' ∷ b'z' ∷ b'e' ∷ [];
  args = decimal width ∷ decimal height ∷ (b'9' ∷ b'6' ∷ []) ∷ [];
}

unfoldable pub resize_tunnel : String → ℕ → ℕ → Bool → RdpGateway → RdpGateway × List RdpEffect
resize_tunnel client width height writable g = elim (g.sessions client) [
  | none ↦ (g, [])
  | some tunnel ↦ (
    g,
    (if writable then write (encode_instruction (size_instruction width height)) ∷ [] else []),
  )
]

-- `socket.on('data')` and `socket.on('close')`
unfoldable pub frame_received : String → List ℕ → RdpGateway → RdpGateway × List RdpEffect
frame_received client chunk g =
    (g, if is_some (g.sessions client) then emit_data chunk ∷ [] else [])

abbrev pub stream_closed : RdpGateway → RdpGateway × List RdpEffect
stream_closed g = (g, emit_closed ∷ disconnect ∷ [])
