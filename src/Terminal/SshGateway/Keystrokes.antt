-- ===== src/Terminal/SshGateway/Keystrokes.antt =====
-- When backend/src/terminal/ssh.gateway.ts passes keystrokes on, and when it opens a session.
use open_bastion.Base.{
  Bool, Bool-cases, List, Option-cases, String, [], arith, eq_refl, false, inl, inr, leb, ltb, none,
  set_key, some, true, ℕ, ◌+◌, ◌-◌, ◌<◌, ◌∷◌, ◌≡◌, ◌≢◌, ◌≤◌, ◌⊎◌,
}
use open_bastion.Database.{Database}
use open_bastion.Schema.{operator}
use open_bastion.Rbac.{Store, has_access, group_of}
use open_bastion.Rbac.Spec.{IsAuthorized}
use open_bastion.Rbac.Access.{has_access_sound}
use open_bastion.Terminal.SshGateway.{
  SocketUser, Session, Gateway, Effect, disconnect, end_stream, emit_error, write,
}
use open_bastion.Terminal.SshGateway.Traffic.{
  StartRequest, handle_start_session, handle_input, forward_input, check_access, limiter_now,
  drop_session,
}

-- What goes to the machine.
abbrev pub written : List Effect → List String
written [] = []
written (write t ∷ es) = t ∷ written es
written (_ ∷ es) = written es

module _ (db : Database) where
  -- The user may operate the machine of the session now, or the cache says that they could at most
  -- five seconds ago.
  abbrev pub IsCached : ℕ → SocketUser → Session → Store db → Type 0
  IsCached now user s store =
      (has_access db user.sub s.machine_id operator store ≡ true)
      ⊎ ((t : ℕ) × (s.access_cache ≡ some (true, t)) × (now ≤ t + 5_000))

  pub check_access-IsCached :
      (now : ℕ) (u : SocketUser) (s : Session) (store : Store db)
      → (check_access db now u.sub s store).0 ≡ true
      → IsCached now u s store
  unfolding check_access
  check_access-IsCached now u s store h = elim (Option-cases s.access_cache) [
    | inl e ↦ inl (ground arith)
    | inr ((allowed, t), e) ↦ elim (Bool-cases (ltb 5_000 (now - t))) [
      | inl stale ↦ inl (ground arith)
      | inr recent ↦ inr (t, ground arith, ground arith)
    ]
  ]

  forward_input-writes :
      (now : ℕ) (client data_text : String) (writable : Bool) (store : Store db) (g : Gateway)
      → written (forward_input db now client data_text writable store g).1 ≢ []
      → (s : Session) × (u : SocketUser) × (g.ssh_sessions client ≡ some s)
        × (g.sockets client ≡ some u)
        × ((check_access db now u.sub s store).0 ≡ true)
        × (writable ≡ true)
        × (written (forward_input db now client data_text writable store g).1 ≡ data_text ∷ [])
  unfolding forward_input
  forward_input-writes now client data_text writable store g h =
      elim (Option-cases (g.ssh_sessions client)) [
        | inl e ↦ absurd (ground arith)
        | inr (s, e) ↦ elim (Option-cases (g.sockets client)) [
          | inl e' ↦ absurd (ground arith)
          | inr (u, e') ↦ (s, u, e, e', ground arith, ground arith, ground arith)
        ]
      ]

  -- What a handled message shows when something reaches the machine.
  pub handle_input-IsCached :
      (now : ℕ) (client data_text : String) (size : ℕ) (writable : Bool) (store : Store db)
      (g : Gateway)
      → written (handle_input db now client data_text size writable store g).1 ≢ []
      → (s : Session) × (u : SocketUser) × (g.ssh_sessions client ≡ some s)
        × (g.sockets client ≡ some u)
        × IsCached now u s store
        × (size ≤ 4096)
        × ((limiter_now now (g.input_rate_limiter client)).count < 100)
        × (written (handle_input db now client data_text size writable store g).1 ≡ data_text ∷ [])
  unfolding handle_input
  handle_input-IsCached now client data_text size writable store g h =
      let limiter = limiter_now now (g.input_rate_limiter client) in
      let g' : Gateway = record g {
        input_rate_limiter =
            set_key client (record limiter { count = limiter.count + 1 }) g.input_rate_limiter;
      } in
      elim (Bool-cases (ltb 4096 size)) [
        | inl large ↦ absurd (h (rw (large, handle_input)))
        | inr small ↦ elim (Bool-cases (leb 100 limiter.count)) [
          | inl fast ↦ absurd (h (rw (small, fast, handle_input)))
          | inr slow ↦
              let (s, u, found, known, allowed, _, sent) =
                forward_input-writes now client data_text writable store g'
                  (rw (small, slow, handle_input) at h) in
              (
                s,
                u,
                found,
                known,
                check_access-IsCached now u s store allowed,
                ground arith,
                ground arith,
                rw (small, slow, handle_input) sent,
              )
        ]
      ]

  -- Once access is lost and the cached answer is older than five seconds, the next keystrokes
  -- reach nothing: the session is gone, the stream is ended and the socket disconnected.
  pub forward_input-revoked :
      (now : ℕ) (client data_text : String) (writable : Bool) (store : Store db) (g : Gateway)
      (s : Session) (u : SocketUser)
      → g.ssh_sessions client ≡ some s
      → g.sockets client ≡ some u
      → ((allowed : Bool) (t : ℕ) → s.access_cache ≡ some (allowed, t) → t + 5_000 < now)
      → has_access db u.sub s.machine_id operator store ≡ false
      → let r = forward_input db now client data_text writable store g in
        (r.0.ssh_sessions client ≡ none)
        × (r.1 ≡ emit_error "Access revoked" ∷ end_stream ∷ disconnect ∷ [])
  unfolding forward_input check_access drop_session
  forward_input-revoked now client data_text writable store g s u e e' stale lost =
      elim (Option-cases s.access_cache) [
        | inl empty ↦ (ground (arith, eq_refl client), ground arith)
        | inr ((allowed, t), cached) ↦ (
          ground (arith, stale allowed t cached, eq_refl client),
          ground (arith, stale allowed t cached),
        )
      ]

  -- The session of a socket after a start is the one that it had, if it had one; else it is for the
  -- user of the socket, on a machine that this user is authorised to operate, if the machine
  -- is in a group, and nothing is cached of their access.
  pub handle_start_session-IsAuthorized :
      (now : ℕ) (client group : String) (r : StartRequest) (store : Store db) (g : Gateway)
      (s : Session)
      → group_of (db.find r.machine_id store.machines) ≡ some group
      → (handle_start_session db now client r store g).0.ssh_sessions client ≡ some s
      → (g.ssh_sessions client ≡ some s)
        ⊎ ((g.ssh_sessions client ≡ none)
            × (s.access_cache ≡ none)
            × ((u : SocketUser) × (g.sockets client ≡ some u)
                × (s.user_id ≡ u.sub)
                × (s.machine_id ≡ r.machine_id)
                × IsAuthorized db u.sub r.machine_id operator store))
  unfolding handle_start_session
  handle_start_session-IsAuthorized now client group r store g s grouped h =
      elim (Option-cases (g.sockets client)) [
        | inl e ↦ inl (ground arith)
        | inr (u, e) ↦ elim (Option-cases (g.ssh_sessions client)) [
          | inr (old, busy) ↦ inl (ground arith)
          | inl free ↦ elim (Bool-cases (has_access db u.sub r.machine_id operator store)) [
            | inr denied ↦ absurd (ground arith)
            | inl granted ↦ inr (
              free,
              ground (arith, eq_refl client),
              (
                u,
                e,
                ground (arith, eq_refl client),
                ground (arith, eq_refl client),
                has_access_sound db u.sub r.machine_id group operator store grouped granted,
              ),
            )
          ]
        ]
      ]
