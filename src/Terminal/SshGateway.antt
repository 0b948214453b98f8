-- ===== src/Terminal/SshGateway.antt =====
-- backend/src/terminal/ssh.gateway.ts: the maps that the gateway keeps, and the handlers of a
-- connection's beginning and end. The parts of a socket are read through its id.
pub mod Traffic
pub mod Events
pub mod Ownership
pub mod Changes
pub mod Invariant
pub mod Keystrokes
pub mod Confirmation
pub mod Kills
use open_bastion.Base.{
  >>=-eq-ok, Bool, Bool-cases, Dict, HttpException, List, Memᴰ, Option, Option-cases, Result,
  String, [], all, any, any-mem, ap, arith, bad_request, conflict, delete_key, drop, empty_dict,
  eq_iff, eq_refl, err, false, forbidden, get_or, guard, guard-eq-ok, head_of, if◌then◌else◌, inl,
  inr, internal_server_error, is_some, leb, length, length-append, ltb, ltb→lt, lt→ltb, map, max,
  mem_of_any, min, none, not, not_found, ok, or_throw, or_throw-eq-ok, refl, same_text,
  same_text_iff, set_key, some, str_eq, subst, suc, sym, take, true, unauthorized, zero, zero-cases,
  ℕ, ◌%◌, ◌&&◌, ◌*◌, ◌++◌, ◌+◌, ◌-◌, ◌/◌, ◌<◌, ◌==◌, ◌=s=◌, ◌>>=◌, ◌>>◌, ◌^◌, ◌||◌, ◌↔◌, ◌∙◌, ◌∷◌,
  ◌≡◌, ◌≢◌, ◌≤◌, ◌⊎◌,
}
use open_bastion.Database.{Database}
use open_bastion.Schema.{User, BlacklistedToken, Role}
use open_bastion.Auth.Jwt.{Jwt, Claims}
use open_bastion.Auth.TokenBlacklist.{is_blacklisted}
use open_bastion.Auth.Guards.{find_subject, version_matches, admin_mode_of}

-- client.data.user
pub record SocketUser : Type 0 where
  pub sub : String
  pub role : Role
  pub is_admin_mode : Bool
  pub token_version : ℕ

-- `access_cache` is `allowed` and `lastChecked`.
pub record Session : Type 0 where
  pub machine_id : String
  pub session_id : String
  pub user_id : String
  pub start_time : ℕ
  pub access_cache : Option (Bool × ℕ)

-- A count and the time that it is counted from, or until.
pub record Window : Type 0 where
  pub count : ℕ
  pub mark : ℕ

-- `recording` holds the sessions that the recorder has open, `polls` the clients whose
-- `accessPoll` interval runs.
pub record Gateway : Type 0 where
  pub sockets : Dict SocketUser
  pub ssh_sessions : Dict Session
  pub input_rate_limiter : Dict Window
  pub user_sessions : Dict ℕ
  pub connection_attempts : Dict Window
  pub recording : Dict String
  pub polls : Dict ℕ

-- What a handler does besides: to the socket, to the SSH stream and in the audit log.
pub data Effect : Type 0 where
  disconnect end_stream : Effect
  emit_error : String → Effect
  write : String → Effect
  set_window : ℕ → ℕ → Effect
  audit : String → Effect
  emit_settings : Effect

abbrev pub max_sessions_per_user : ℕ
max_sessions_per_user = 5

abbrev pub max_conn_attempts_per_min : ℕ
max_conn_attempts_per_min = 15

-- The counter of the caller's address, set back after a minute.
unfoldable pub attempts_now : ℕ → Option Window → Window
attempts_now now none = record { count = 0; mark = now }
attempts_now now (some w) =
    if ltb 60_000 (now - w.mark) then record { count = 0; mark = now } else w

-- The last lines of `handleConnection`: `client.data.user` is set before the limit is tested.
unfoldable pub admit_socket : String → SocketUser → Gateway → Gateway × List Effect
admit_socket client user g =
    let current = get_or (g.user_sessions user.sub) 0 in
    let g' : Gateway = record g { sockets = set_key client user g.sockets } in
    if leb max_sessions_per_user current
    then (g', disconnect ∷ [])
    else (record g' { user_sessions = set_key user.sub (current + 1) g.user_sessions }, [])

module _ (db : Database) (jwt : Jwt) where
  -- The body of the `try`, up to the user that the socket is to carry.
  unfoldable pub authenticate_socket :
      ℕ → Option jwt.Token → db.State BlacklistedToken → db.State User → Option (SocketUser × Bool)
  authenticate_socket now cookie blacklist users = elim cookie [
    | none ↦ none
    | some token ↦
        if is_blacklisted db jwt now token blacklist then none else (elim (jwt.verify now token) [
          | none ↦ none
          | some payload ↦ elim (find_subject db payload users) [
            | none ↦ none
            | some found ↦
                if version_matches payload found.1
                then some (
                  record {
                    sub = found.0;
                    role = found.1.role;
                    is_admin_mode = admin_mode_of payload;
                    token_version = found.1.token_version;
                  },
                  found.1.requires_password_change,
                )
                else none
          ]
        ])
  ]

  unfoldable pub handle_connection :
      ℕ
      → String
      → String
      → Option jwt.Token
      → db.State BlacklistedToken
      → db.State User
      → Gateway
      → Gateway × List Effect
  unfolding attempts_now
  handle_connection now client ip cookie blacklist users g =
      let attempts = attempts_now now (g.connection_attempts ip) in
      let counted : Gateway = record g {
        connection_attempts =
            set_key ip (record attempts { count = attempts.count + 1 }) g.connection_attempts;
      } in
      if leb max_conn_attempts_per_min attempts.count
      then (g, disconnect ∷ [])
      else (elim (authenticate_socket now cookie blacklist users) [
        | none ↦ (counted, disconnect ∷ [])
        | some found ↦
            if found.1
            then (counted, emit_error "Password change required" ∷ disconnect ∷ [])
            else admit_socket client found.0 counted
      ])

-- The session's part of `handleDisconnect`; the recorder closes what it has open.
unfoldable pub close_session : String → Gateway → Gateway × List Effect
close_session client g = elim (g.ssh_sessions client) [
  | none ↦ (g, [])
  | some session ↦ (
    record g {
      ssh_sessions = delete_key client g.ssh_sessions;
      input_rate_limiter = delete_key client g.input_rate_limiter;
      recording = delete_key session.session_id g.recording;
      polls = delete_key client g.polls;
    },
    audit "SSH: SESSION_CLOSED" ∷ end_stream ∷ [],
  )
]

-- `userSessions.get(userId) || 1`, less one.
unfoldable pub release_slot : String → Gateway → Gateway
release_slot client g = elim (g.sockets client) [
  | none ↦ g
  | some user ↦
      let current = get_or (g.user_sessions user.sub) 1 in
      if leb current 1
      then record g { user_sessions = delete_key user.sub g.user_sessions }
      else record g { user_sessions = set_key user.sub (current - 1) g.user_sessions }
]

unfoldable pub handle_disconnect : String → Gateway → Gateway × List Effect
unfolding close_session release_slot
handle_disconnect client g =
    let (g', effects) = close_session client g in (release_slot client g', effects)
