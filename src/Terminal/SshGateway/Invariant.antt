-- ===== src/Terminal/SshGateway/Invariant.antt =====
-- What holds of the maps of backend/src/terminal/ssh.gateway.ts after any events.
use open_bastion.Base.{
  set_key, Bool-cases, Option, Option-cases, String, arith, get_or, inl, inr, leb, none, set_key, ℕ,
  ◌+◌, ◌-◌, ◌≡◌,
}
use open_bastion.Database.{Database}
use open_bastion.Schema.{User, BlacklistedToken}
use open_bastion.Auth.Jwt.{Jwt}
use open_bastion.Terminal.SshGateway.{
  attempts_now, authenticate_socket, SocketUser, Gateway, admit_socket, authenticate_socket,
  handle_connection, close_session, release_slot, handle_disconnect,
}
use open_bastion.Terminal.SshGateway.Events.{
  Step, Reach, idle_gateway, connects, disconnects, starts, inputs, resizes, polls, start, next,
}
use open_bastion.Terminal.SshGateway.Ownership.{
  Inv, AreOwned-delete, AreOwned-socket, AreBounded-set, AreBounded-delete,
}
use open_bastion.Terminal.SshGateway.Changes.{
  Change-Inv, handle_start_session-Change, handle_input-Change, handle_resize-Change,
  access_poll-Change,
}

pub admit_socket-Inv :
    (client : String) (user : SocketUser) (g : Gateway)
    → g.sockets client ≡ none
    → Inv g
    → Inv (admit_socket client user g).0
unfolding admit_socket
admit_socket-Inv client user g fresh v =
    let owned = AreOwned-socket g.sockets g.ssh_sessions client user fresh v.owned in
    elim (Bool-cases (leb 5 (get_or (g.user_sessions user.sub) 0))) [
      | inl full ↦ rw (full, admit_socket) (record { owned = owned; bounded = v.bounded })
      | inr room ↦
          rw (room, admit_socket)
            (record {
              owned = owned;
              bounded =
                  AreBounded-set g.user_sessions user.sub (get_or (g.user_sessions user.sub) 0 + 1)
                    (omega arith) (ground arith) v.bounded;
            })
    ]

pub release_slot-Inv : (client : String) (g : Gateway) → Inv g → Inv (release_slot client g)
unfolding release_slot
release_slot-Inv client g v = elim (Option-cases (g.sockets client)) [
  | inl e ↦ rw (e, release_slot) v
  | inr (u, e) ↦ elim (Bool-cases (leb (get_or (g.user_sessions u.sub) 1) 1)) [
    | inl last ↦
        rw (e, last, release_slot)
          (record { owned = v.owned; bounded = AreBounded-delete g.user_sessions u.sub v.bounded })
    | inr more ↦
        rw (e, more, release_slot)
          (record {
            owned = v.owned;
            bounded =
                AreBounded-set g.user_sessions u.sub (get_or (g.user_sessions u.sub) 1 - 1)
                  (ground arith)
                  (elim (Option-cases (g.user_sessions u.sub)) [
                    | inl alone ↦ ground arith
                    | inr (n, several) ↦ ground (arith, v.bounded u.sub n several)
                  ])
                  v.bounded;
          })
  ]
]

pub close_session-Inv : (client : String) (g : Gateway) → Inv g → Inv (close_session client g).0
unfolding close_session
close_session-Inv client g v = elim (Option-cases (g.ssh_sessions client)) [
  | inl e ↦ rw (e, close_session) v
  | inr (s, e) ↦
      rw (e, close_session)
        (record {
          owned = AreOwned-delete g.sockets g.ssh_sessions client v.owned;
          bounded = v.bounded;
        })
]

module _ (db : Database) (jwt : Jwt) where
  handle_connection-Inv :
      (now : ℕ) (client ip : String) (cookie : Option jwt.Token)
      (blacklist : db.State BlacklistedToken) (users : db.State User) (g : Gateway)
      → g.sockets client ≡ none
      → Inv g
      → Inv (handle_connection db jwt now client ip cookie blacklist users g).0
  unfolding handle_connection
  handle_connection-Inv now client ip cookie blacklist users g fresh v =
      let attempts = attempts_now now (g.connection_attempts ip) in
      let counted : Gateway = record g {
        connection_attempts =
            set_key ip (record attempts { count = attempts.count + 1 }) g.connection_attempts;
      } in
      let kept : Inv counted = record { owned = v.owned; bounded = v.bounded } in
      elim (Bool-cases (leb 15 attempts.count)) [
        | inl throttled ↦ rw (throttled, handle_connection) v
        | inr slow ↦ elim (Option-cases (authenticate_socket db jwt now cookie blacklist users)) [
          | inl nobody ↦ rw (slow, nobody, handle_connection) kept
          | inr ((user, rotating), someone) ↦ elim (Bool-cases rotating) [
            | inl e ↦ rw (slow, someone, handle_connection, e) kept
            | inr e ↦
                rw (slow, someone, handle_connection, e)
                  (admit_socket-Inv client user counted fresh kept)
          ]
        ]
      ]

  pub Step-Inv : {g h : Gateway} → Step db jwt g h → Inv g → Inv h
  unfolding handle_disconnect
  Step-Inv {g} (connects now client ip cookie blacklist users fresh) v =
      handle_connection-Inv now client ip cookie blacklist users g fresh v
  Step-Inv {g} (disconnects client) v =
      release_slot-Inv client (close_session client g).0 (close_session-Inv client g v)
  Step-Inv {g} (starts now client r store) v =
      Change-Inv (handle_start_session-Change db now client r store g) v
  Step-Inv {g} (inputs now client data_text size writable store) v =
      Change-Inv (handle_input-Change db now client data_text size writable store g) v
  Step-Inv {g} (resizes now client rows cols store) v =
      Change-Inv (handle_resize-Change db now client rows cols store g) v
  Step-Inv {g} (polls now client store) v = Change-Inv (access_poll-Change db now client store g) v

  -- After any events, every SSH session belongs to the user of its socket, and every session counter
  -- that there is is between 1 and 5.
  pub Reach-Inv : {g : Gateway} → Reach db jwt g → Inv g
  unfolding idle_gateway
  Reach-Inv start = record { owned = λ client s e. cc; bounded = λ user n e. cc }
  Reach-Inv (next r st) = Step-Inv st (Reach-Inv r)
