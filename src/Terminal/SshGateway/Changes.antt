-- ===== src/Terminal/SshGateway/Changes.antt =====
-- What the handlers of backend/src/terminal/ssh.gateway.ts do to the session map.
use open_bastion.Base.{
  Bool, Bool-cases, Dict, Option, Option-cases, String, arith, delete_key, false, inl, inr, is_some,
  leb, ltb, none, not, refl, set_key, some, true, ℕ, ◌&&◌, ◌+◌, ◌-◌, ◌≡◌, ◌⊎◌,
}
use open_bastion.Database.{Database}
use open_bastion.Schema.{operator}
use open_bastion.Rbac.{Store, has_access}
use open_bastion.Terminal.SshGateway.{SocketUser, Session, Window, Gateway}
use open_bastion.Terminal.SshGateway.Traffic.{
  StartRequest, handle_start_session, handle_input, forward_input, handle_resize, access_poll,
  check_access, is_token_revoked, limiter_now,
}
use open_bastion.Terminal.SshGateway.Ownership.{Inv, AreOwned-set, AreOwned-delete}

-- What one event may do to the sockets, sessions and counters; a positive answer in the cache is
-- the one that was there, or comes from the database now.
pub data Change (db : Database) (now : ℕ) (store : Store db) (g h : Gateway) : Type 0 where
  same :
      h.sockets ≡ g.sockets
      → h.ssh_sessions ≡ g.ssh_sessions
      → h.user_sessions ≡ g.user_sessions
      → Change db now store g h
  touched :
      (client : String) (old : Session) (cache : Option (Bool × ℕ)) (u : SocketUser)
      → g.ssh_sessions client ≡ some old
      → g.sockets client ≡ some u
      → ((t : ℕ)
          → cache ≡ some (true, t)
          → (old.access_cache ≡ some (true, t))
            ⊎ ((t ≡ now) × (has_access db u.sub old.machine_id operator store ≡ true)))
      → h.sockets ≡ g.sockets
      → h.ssh_sessions ≡ set_key client (record old { access_cache = cache }) g.ssh_sessions
      → h.user_sessions ≡ g.user_sessions
      → Change db now store g h
  dropped :
      (client : String) (old : Session) (cache : Option (Bool × ℕ))
      → g.ssh_sessions client ≡ some old
      → h.sockets ≡ g.sockets
      → h.ssh_sessions
        ≡ delete_key client (set_key client (record old { access_cache = cache }) g.ssh_sessions)
      → h.user_sessions ≡ g.user_sessions
      → Change db now store g h
  opened :
      (client : String) (s : Session) (u : SocketUser)
      → g.sockets client ≡ some u
      → s.user_id ≡ u.sub
      → s.access_cache ≡ none
      → h.sockets ≡ g.sockets
      → h.ssh_sessions ≡ set_key client s g.ssh_sessions
      → h.user_sessions ≡ g.user_sessions
      → Change db now store g h

Change-limiter :
    {db : Database} {now : ℕ} {store : Store db} {h : Gateway} (g : Gateway) (limiter : Dict Window)
    → Change db now store (record g { input_rate_limiter = limiter }) h
    → Change db now store g h
Change-limiter g limiter (same a b c) = same a b c
Change-limiter g limiter (touched client old cache u e k w a b c) =
    touched client old cache u e k w a b c
Change-limiter g limiter (dropped client old cache e a b c) = dropped client old cache e a b c
Change-limiter g limiter (opened client s u known own blank a b c) =
    opened client s u known own blank a b c

pub Change-Inv :
    {db : Database} {now : ℕ} {store : Store db} {g h : Gateway}
    → Change db now store g h
    → Inv g
    → Inv h
Change-Inv {g} {h} (same a b c) v = record { owned = rw (a, b) v.owned; bounded = rw c v.bounded }
Change-Inv {g} {h} (touched client old cache _ e _ _ a b c) v =
    let (u, known, own) = v.owned client old e in
    record {
      owned =
          rw (a, b)
            (AreOwned-set g.sockets g.ssh_sessions client (record old { access_cache = cache }) u
              known own v.owned);
      bounded = rw c v.bounded;
    }
Change-Inv {g} {h} (dropped client old cache e a b c) v =
    let (u, known, own) = v.owned client old e in
    record {
      owned =
          rw (a, b)
            (AreOwned-delete g.sockets _ client (
              AreOwned-set g.sockets g.ssh_sessions client (record old { access_cache = cache }) u
                known own v.owned));
      bounded = rw c v.bounded;
    }
Change-Inv {g} {h} (opened client s u known own _ a b c) v = record {
  owned = rw (a, b) (AreOwned-set g.sockets g.ssh_sessions client s u known own v.owned);
  bounded = rw c v.bounded;
}

module _ (db : Database) where
  -- A positive answer after a check was in the cache, or is the database's.
  pub check_access-renewed :
      (now : ℕ) (user : String) (s : Session) (store : Store db) (t : ℕ)
      → (check_access db now user s store).1 ≡ some (true, t)
      → (s.access_cache ≡ some (true, t))
        ⊎ ((t ≡ now) × (has_access db user s.machine_id operator store ≡ true))
  unfolding check_access
  check_access-renewed now user s store t h = elim (Option-cases s.access_cache) [
    | inl e ↦ inr (ground arith, ground arith)
    | inr ((allowed, last), e) ↦ elim (Bool-cases (ltb 5_000 (now - last))) [
      | inl stale ↦ inr (ground arith, ground arith)
      | inr recent ↦ inl (ground arith)
    ]
  ]

  pub forward_input-Change :
      (now : ℕ) (client data_text : String) (writable : Bool) (store : Store db) (g : Gateway)
      → Change db now store g (forward_input db now client data_text writable store g).0
  unfolding forward_input
  forward_input-Change now client data_text writable store g =
      elim (Option-cases (g.ssh_sessions client)) [
        | inl e ↦ same (ground arith) (ground arith) (ground arith)
        | inr (s, e) ↦ elim (Option-cases (g.sockets client)) [
          | inl e' ↦ same (ground arith) (ground arith) (ground arith)
          | inr (u, e') ↦
              let r = check_access db now u.sub s store in
              elim (Bool-cases r.0) [
                | inl allowed ↦
                    touched client s r.1 u e e' (check_access-renewed now u.sub s store)
                      (ground arith) (ground arith) (ground arith)
                | inr denied ↦ dropped client s r.1 e (ground arith) (ground arith) (ground arith)
              ]
        ]
      ]

  pub handle_resize-Change :
      (now : ℕ) (client : String) (rows cols : ℕ) (store : Store db) (g : Gateway)
      → Change db now store g (handle_resize db now client rows cols store g).0
  unfolding handle_resize
  handle_resize-Change now client rows cols store g = elim (Option-cases (g.ssh_sessions client)) [
    | inl e ↦ same (ground arith) (ground arith) (ground arith)
    | inr (s, e) ↦ elim (Option-cases (g.sockets client)) [
      | inl e' ↦ same (ground arith) (ground arith) (ground arith)
      | inr (u, e') ↦
          let r = check_access db now u.sub s store in
          elim (Bool-cases r.0) [
            | inl allowed ↦
                touched client s r.1 u e e' (check_access-renewed now u.sub s store) (ground arith)
                  (ground arith) (ground arith)
            | inr denied ↦ dropped client s r.1 e (ground arith) (ground arith) (ground arith)
          ]
    ]
  ]

  pub access_poll-Change :
      (now : ℕ) (client : String) (store : Store db) (g : Gateway)
      → Change db now store g (access_poll db now client store g).0
  unfolding access_poll
  access_poll-Change now client store g = elim (Option-cases (g.ssh_sessions client)) [
    | inl e ↦ same (ground arith) (ground arith) (ground arith)
    | inr (s, e) ↦ elim (Option-cases (g.sockets client)) [
      | inl e' ↦ same (ground arith) (ground arith) (ground arith)
      | inr (u, e') ↦
          let ok_now =
            not (is_token_revoked db u (db.find u.sub store.users))
            && has_access db u.sub s.machine_id operator store in
          elim (Bool-cases ok_now) [
            | inl allowed ↦
                touched client s (some (true, now)) u e e' (λ t k. inr (ground arith, ground arith))
                  (ground arith) (ground arith) (ground arith)
            | inr denied ↦
                dropped client s (some (false, now)) e (ground arith) (ground arith) (ground arith)
          ]
    ]
  ]

  -- `handleInput` above its limiter leaves these maps alone.
  pub handle_input-Change :
      (now : ℕ) (client data_text : String) (size : ℕ) (writable : Bool) (store : Store db)
      (g : Gateway)
      → Change db now store g (handle_input db now client data_text size writable store g).0
  unfolding handle_input
  handle_input-Change now client data_text size writable store g =
      let limiter = limiter_now now (g.input_rate_limiter client) in
      let g' : Gateway = record g {
        input_rate_limiter =
            set_key client (record limiter { count = limiter.count + 1 }) g.input_rate_limiter;
      } in
      elim (Bool-cases (ltb 4096 size)) [
        | inl large ↦ rw (large, handle_input) (same refl refl refl)
        | inr small ↦ elim (Bool-cases (leb 100 limiter.count)) [
          | inl fast ↦ rw (small, fast, handle_input) (same refl refl refl)
          | inr slow ↦
              rw (small, slow, handle_input)
                (Change-limiter g g'.input_rate_limiter
                  (forward_input-Change now client data_text writable store g'))
        ]
      ]

  pub handle_start_session-Change :
      (now : ℕ) (client : String) (r : StartRequest) (store : Store db) (g : Gateway)
      → Change db now store g (handle_start_session db now client r store g).0
  unfolding handle_start_session
  handle_start_session-Change now client r store g = elim (Option-cases (g.sockets client)) [
    | inl e ↦ same (ground arith) (ground arith) (ground arith)
    | inr (u, e) ↦ elim (Bool-cases (is_some (g.ssh_sessions client))) [
      | inl busy ↦ same (ground arith) (ground arith) (ground arith)
      | inr free ↦ elim (Bool-cases (has_access db u.sub r.machine_id operator store)) [
        | inr denied ↦ same (ground arith) (ground arith) (ground arith)
        | inl granted ↦
            elim (Bool-cases (is_some (db.find r.machine_id store.machines) && r.connected)) [
              | inr failed ↦ same (ground arith) (ground arith) (ground arith)
              | inl up ↦
                  opened client
                    (record {
                      machine_id = r.machine_id;
                      session_id = r.fresh_id;
                      user_id = u.sub;
                      start_time = now;
                      access_cache = none;
                    })
                    u e refl refl (ground arith) (ground arith) (ground arith)
            ]
      ]
    ]
  ]
