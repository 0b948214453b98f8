-- ===== src/Terminal/SshGateway/Traffic.antt =====
-- backend/src/terminal/ssh.gateway.ts: the handlers `start-session`, `input` and `resize`, and the
-- interval `accessPoll`.
use open_bastion.Base.{
  Bool, List, Option, String, [], delete_key, if◌then◌else◌, is_some, leb, ltb, none, not, set_key,
  some, true, ℕ, ◌&&◌, ◌+◌, ◌-◌, ◌==◌, ◌∷◌,
}
use open_bastion.Database.{Database}
use open_bastion.Schema.{User, operator}
use open_bastion.Rbac.{Store, has_access}
use open_bastion.Terminal.SshGateway.{
  SocketUser, Session, Window, Gateway, Effect, disconnect, end_stream, emit_error, write,
  set_window, audit, emit_settings,
}

-- The message of `start-session`, with what the server draws and meets while it handles it: the
-- new session's id, and whether the secret is decrypted and the SSH connection comes up.
pub record StartRequest : Type 0 where
  pub machine_id : String
  pub fresh_id : String
  pub connected : Bool
  pub recording_enabled : Bool

-- What ends a session from the server's side; the handlers then call `client.disconnect()`.
unfoldable pub drop_session : String → Gateway → Gateway
drop_session client g = record g { ssh_sessions = delete_key client g.ssh_sessions }

unfoldable pub cache_access : String → Session → Bool → ℕ → Gateway → Gateway
cache_access client session allowed now g = record g {
  ssh_sessions =
      set_key client (record session { access_cache = some (allowed, now) }) g.ssh_sessions;
}

-- The limiter of `handleInput`, set back after its second.
unfoldable pub limiter_now : ℕ → Option Window → Window
limiter_now now none = record { count = 0; mark = now + 1000 }
limiter_now now (some w) = if ltb w.mark now then record { count = 0; mark = now + 1000 } else w

module _ (db : Database) where
  unfoldable pub open_session :
      ℕ → String → SocketUser → StartRequest → Gateway → Gateway × List Effect
  open_session now client user r g =
      let session : Session = record {
        machine_id = r.machine_id;
        session_id = r.fresh_id;
        user_id = user.sub;
        start_time = now;
        access_cache = none;
      } in
      (
        record g {
          ssh_sessions = set_key client session g.ssh_sessions;
          polls = set_key client now g.polls;
          recording =
              (if r.recording_enabled
                then set_key r.fresh_id user.sub g.recording
                else g.recording);
        },
        audit "SSH: SESSION_STARTED" ∷ emit_settings ∷ [],
      )

  unfoldable pub handle_start_session :
      ℕ → String → StartRequest → Store db → Gateway → Gateway × List Effect
  unfolding open_session
  handle_start_session now client r store g = elim (g.sockets client) [
    | none ↦ (g, emit_error "Authentication required" ∷ [])
    | some user ↦
        if is_some (g.ssh_sessions client)
        then (g, emit_error "Session already active on this connection" ∷ [])
        else (if not (has_access db user.sub r.machine_id operator store)
            then (g, audit "SSH: SESSION_DENIED" ∷ emit_error "Permission denied" ∷ [])
            else (if is_some (db.find r.machine_id store.machines) && r.connected
                then open_session now client user r g
                else (g, emit_error "Connection failed. Please contact your administrator." ∷ [])))
  ]

  -- `isAllowed` and the cache after it: five seconds old at most, or asked for now.
  unfoldable pub check_access : ℕ → String → Session → Store db → Bool × Option (Bool × ℕ)
  check_access now user session store = elim session.access_cache [
    | none ↦
        let asked = has_access db user session.machine_id operator store in
        (asked, some (asked, now))
    | some (allowed, last_checked) ↦
        if ltb 5_000 (now - last_checked)
        then (let asked = has_access db user session.machine_id operator store in
            (asked, some (asked, now)))
        else (allowed, some (allowed, last_checked))
  ]

  -- The part of `handleInput` below the limiter.
  unfoldable pub forward_input :
      ℕ → String → String → Bool → Store db → Gateway → Gateway × List Effect
  unfolding drop_session
  forward_input now client data_text writable store g = elim (g.ssh_sessions client) [
    | none ↦ (g, [])
    | some session ↦ elim (g.sockets client) [
      | none ↦ (g, [])
      | some user ↦
          let (allowed, cache) = check_access now user.sub session store in
          let g' : Gateway = record g {
            ssh_sessions = set_key client (record session { access_cache = cache }) g.ssh_sessions;
          } in
          if not allowed
          then (
            record (drop_session client g') { polls = delete_key client g.polls },
            emit_error "Access revoked" ∷ end_stream ∷ disconnect ∷ [],
          )
          else (if writable then (g', write data_text ∷ []) else (g', []))
    ]
  ]

  -- `size` is `data.length`; the stream may be no longer writable.
  unfoldable pub handle_input :
      ℕ → String → String → ℕ → Bool → Store db → Gateway → Gateway × List Effect
  unfolding limiter_now
  handle_input now client data_text size writable store g =
      if ltb 4096 size
      then (g, emit_error "Input too large" ∷ [])
      else (let limiter = limiter_now now (g.input_rate_limiter client) in
          if leb 100 limiter.count
          then (g, [])
          else forward_input now client data_text writable store (record g {
            input_rate_limiter =
                set_key client (record limiter { count = limiter.count + 1 }) g.input_rate_limiter;
          }))

  unfoldable pub handle_resize : ℕ → String → ℕ → ℕ → Store db → Gateway → Gateway × List Effect
  unfolding drop_session
  handle_resize now client rows cols store g = elim (g.ssh_sessions client) [
    | none ↦ (g, [])
    | some session ↦ elim (g.sockets client) [
      | none ↦ (g, [])
      | some user ↦
          let (allowed, cache) = check_access now user.sub session store in
          let g' : Gateway = record g {
            ssh_sessions = set_key client (record session { access_cache = cache }) g.ssh_sessions;
          } in
          if not allowed
          then (drop_session client g', emit_error "Access revoked" ∷ end_stream ∷ disconnect ∷ [])
          else (g', set_window rows cols ∷ [])
    ]
  ]

  -- `!dbUser || dbUser.tokenVersion !== client.data.user.tokenVersion`
  unfoldable pub is_token_revoked : SocketUser → Option User → Bool
  is_token_revoked user none = true
  is_token_revoked user (some found) = not (found.token_version == user.token_version)

  -- One round of the interval, when the database answers; else the round changes nothing.
  unfoldable pub access_poll : ℕ → String → Store db → Gateway → Gateway × List Effect
  unfolding is_token_revoked cache_access drop_session
  access_poll now client store g = elim (g.ssh_sessions client) [
    | none ↦ (g, [])
    | some session ↦ elim (g.sockets client) [
      | none ↦ (g, [])
      | some user ↦
          let revoked = is_token_revoked user (db.find user.sub store.users) in
          let still_allowed =
            not revoked && has_access db user.sub session.machine_id operator store in
          let g' = cache_access client session still_allowed now g in
          if still_allowed then (g', []) else (
            drop_session client g',
            emit_error (if revoked then "Session revoked" else "Access revoked")
                ∷ end_stream
                ∷ audit (
                    if revoked
                    then "SSH: SESSION_KILLED_TOKEN_REVOKE"
                    else "SSH: SESSION_KILLED_RBAC_REVOKE")
                ∷ disconnect
                ∷ [],
          )
    ]
  ]
