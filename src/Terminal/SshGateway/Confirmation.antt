-- ===== src/Terminal/SshGateway/Confirmation.antt =====
-- What the cached answers of backend/src/terminal/ssh.gateway.ts come from.
use open_bastion.Base.{
  Bool, Bool-cases, Option, Option-cases, String, [], ap, arith, eq_iff, inl, inr, leb, none, refl,
  some, sym, true, ℕ, ◌+◌, ◌<◌, ◌=s=◌, ◌∙◌, ◌∷◌, ◌≡◌, ◌≢◌, ◌≤◌, ◌⊎◌,
}
use open_bastion.Database.{Database}
use open_bastion.Schema.{User, BlacklistedToken, operator}
use open_bastion.Auth.Jwt.{Jwt}
use open_bastion.Rbac.{Store, has_access}
use open_bastion.Terminal.SshGateway.{
  attempts_now, authenticate_socket, SocketUser, Session, Gateway, admit_socket, handle_connection,
  close_session, release_slot, handle_disconnect,
}
use open_bastion.Terminal.SshGateway.Traffic.{handle_input, limiter_now}
use open_bastion.Terminal.SshGateway.Events.{
  Step, Reach, idle_gateway, connects, disconnects, starts, inputs, resizes, polls, start, next,
}
use open_bastion.Terminal.SshGateway.Ownership.{AreOwned}
use open_bastion.Terminal.SshGateway.Changes.{
  Change, same, touched, dropped, opened, handle_start_session-Change, handle_input-Change,
  handle_resize-Change, access_poll-Change,
}
use open_bastion.Terminal.SshGateway.Invariant.{Reach-Inv}
use open_bastion.Terminal.SshGateway.Keystrokes.{written, handle_input-IsCached}

module _ (db : Database) (jwt : Jwt) where
  -- The time of a step, and the tables that it finds.
  abbrev pub asked_in : {g h : Gateway} → Step db jwt g h → Option (ℕ × Store db)
  asked_in (connects now client ip cookie blacklist users fresh) = none
  asked_in (disconnects client) = none
  asked_in (starts now client r store) = some (now, store)
  asked_in (inputs now client data_text size writable store) = some (now, store)
  asked_in (resizes now client rows cols store) = some (now, store)
  asked_in (polls now client store) = some (now, store)

  -- In the run, at the time, the tables gave the user operator access to the machine.
  abbrev pub WasGranted : {g : Gateway} → Reach db jwt g → String → String → ℕ → Type 0
  WasGranted start user machine t = ⊥
  WasGranted (next r st) user machine t =
      ((store : Store db) × (asked_in st ≡ some (t, store))
        × (has_access db user machine operator store ≡ true))
      ⊎ WasGranted r user machine t

  -- What a step makes of the positive answers in the caches.
  abbrev IsRenewed : Gateway → Gateway → Option (ℕ × Store db) → Type 0
  IsRenewed g h asked =
      (client : String) (s : Session) (t : ℕ)
      → h.ssh_sessions client ≡ some s
      → s.access_cache ≡ some (true, t)
      → ((old : Session) × (g.ssh_sessions client ≡ some old)
          × (old.access_cache ≡ some (true, t))
          × (old.user_id ≡ s.user_id)
          × (old.machine_id ≡ s.machine_id))
        ⊎ ((store : Store db) × (asked ≡ some (t, store))
            × (has_access db s.user_id s.machine_id operator store ≡ true))

  touched_renewed :
      (now : ℕ) (store : Store db) (g : Gateway) (client : String) (old s : Session)
      (cache : Option (Bool × ℕ)) (u : SocketUser) (t : ℕ)
      → AreOwned g.sockets g.ssh_sessions
      → g.ssh_sessions client ≡ some old
      → g.sockets client ≡ some u
      → ((n : ℕ)
          → cache ≡ some (true, n)
          → (old.access_cache ≡ some (true, n))
            ⊎ ((n ≡ now) × (has_access db u.sub old.machine_id operator store ≡ true)))
      → record old { access_cache = cache } ≡ s
      → s.access_cache ≡ some (true, t)
      → ((past : Session) × (g.ssh_sessions client ≡ some past)
          × (past.access_cache ≡ some (true, t))
          × (past.user_id ≡ s.user_id)
          × (past.machine_id ≡ s.machine_id))
        ⊎ ((tables : Store db) × (◌≡◌ {A = Option (ℕ × Store db)}
              (some (now, store))
              (some (t, tables)))
            × (has_access db s.user_id s.machine_id operator tables ≡ true))
  touched_renewed now store g client old s cache u t v e k w same_session cached =
      let user : old.user_id ≡ s.user_id = ap (λ x. x.user_id) same_session in
      let machine : old.machine_id ≡ s.machine_id = ap (λ x. x.machine_id) same_session in
      let (owner_of, known, own) = v client old e in
      elim (w t (ap (λ x. x.access_cache) same_session ∙ cached)) [
        | inl before ↦ inl (old, e, before, user, machine)
        | inr (current, granted) ↦
            let theirs : u.sub ≡ s.user_id = cc in
            inr (store, ap (λ n. some (n, store)) (sym current), rw (← theirs, ← machine) granted)
      ]

  Change-IsRenewed :
      (now : ℕ) (store : Store db) (g h : Gateway)
      → AreOwned g.sockets g.ssh_sessions
      → Change db now store g h
      → IsRenewed g h (some (now, store))
  Change-IsRenewed now store g h v (same a b c) client s t there cached =
      inl (s, ap (λ m. m client) (sym b) ∙ there, cached, refl, refl)
  Change-IsRenewed now store g h v (touched who old cache u e k w a b c) client s t there cached =
      let after = ap (λ m. m client) (sym b) ∙ there in
      elim (Bool-cases (who =s= client)) [
        | inl here ↦
            let is_who : who ≡ client = (eq_iff who client).0 here in
            let same_session : record old { access_cache = cache } ≡ s = ground (arith, here) in
            touched_renewed now store g client old s cache u t v
              (ap g.ssh_sessions (sym is_who) ∙ e) (ap g.sockets (sym is_who) ∙ k) w same_session
              cached
        | inr away ↦ inl (s, ground (arith, away), cached, refl, refl)
      ]
  Change-IsRenewed now store g h v (dropped who old cache e a b c) client s t there cached =
      let after = ap (λ m. m client) (sym b) ∙ there in
      elim (Bool-cases (who =s= client)) [
        | inl here ↦ absurd (ground (arith, here))
        | inr away ↦ inl (s, ground (arith, away), cached, refl, refl)
      ]
  Change-IsRenewed now store g h v (opened who new u known own blank a b c) client s t there
        cached =
      let after = ap (λ m. m client) (sym b) ∙ there in
      elim (Bool-cases (who =s= client)) [
        | inl here ↦ absurd (ground (arith, here))
        | inr away ↦ inl (s, ground (arith, away), cached, refl, refl)
      ]

  handle_connection-same :
      (now : ℕ) (client ip : String) (cookie : Option jwt.Token)
      (blacklist : db.State BlacklistedToken) (users : db.State User) (g : Gateway)
      → (handle_connection db jwt now client ip cookie blacklist users g).0.ssh_sessions
        ≡ g.ssh_sessions
  unfolding handle_connection admit_socket
  handle_connection-same now client ip cookie blacklist users g =
      elim (Bool-cases (leb 15 (attempts_now now (g.connection_attempts ip)).count)) [
        | inl throttled ↦ ground arith
        | inr slow ↦ elim (Option-cases (authenticate_socket db jwt now cookie blacklist users)) [
          | inl nobody ↦ ground arith
          | inr ((user, rotating), someone) ↦ elim (Bool-cases rotating) [
            | inl e ↦ ground arith
            | inr e ↦ ground arith
          ]
        ]
      ]

  handle_disconnect-kept :
      (who client : String) (s : Session) (g : Gateway)
      → (handle_disconnect who g).0.ssh_sessions client ≡ some s
      → g.ssh_sessions client ≡ some s
  unfolding handle_disconnect close_session release_slot
  handle_disconnect-kept who client s g there = elim (Option-cases (g.ssh_sessions who)) [
    | inl e ↦ elim (Option-cases (g.sockets who)) [
      | inl k ↦ ground arith
      | inr (u, k) ↦ ground arith
    ]
    | inr (old, e) ↦ elim (Option-cases (g.sockets who)) [
      | inl k ↦ ground arith
      | inr (u, k) ↦ ground arith
    ]
  ]

  Step-IsRenewed :
      {g h : Gateway} (st : Step db jwt g h)
      → AreOwned g.sockets g.ssh_sessions
      → IsRenewed g h (asked_in st)
  Step-IsRenewed {g} (connects now client ip cookie blacklist users fresh) v =
      λ who s t there cached. inl (
        s,
        ap (λ m. m who) (sym (handle_connection-same now client ip cookie blacklist users g))
            ∙ there,
        cached,
        refl,
        refl,
      )
  Step-IsRenewed {g} (disconnects client) v = λ who s t there cached.
      inl (s, handle_disconnect-kept client who s g there, cached, refl, refl)
  Step-IsRenewed {g} (starts now client r store) v =
      Change-IsRenewed now store g _ v (handle_start_session-Change db now client r store g)
  Step-IsRenewed {g} (inputs now client data_text size writable store) v =
      Change-IsRenewed now store g _ v
        (handle_input-Change db now client data_text size writable store g)
  Step-IsRenewed {g} (resizes now client rows cols store) v =
      Change-IsRenewed now store g _ v (handle_resize-Change db now client rows cols store g)
  Step-IsRenewed {g} (polls now client store) v =
      Change-IsRenewed now store g _ v (access_poll-Change db now client store g)

  -- Every positive answer in a cache was the database's, at the time that it carries.
  pub Reach-WasGranted :
      {g : Gateway} (r : Reach db jwt g) (client : String) (s : Session) (t : ℕ)
      → g.ssh_sessions client ≡ some s
      → s.access_cache ≡ some (true, t)
      → WasGranted r s.user_id s.machine_id t
  unfolding idle_gateway
  Reach-WasGranted start client s t there cached = cc
  Reach-WasGranted (next r st) client s t there cached =
      elim (Step-IsRenewed st (Reach-Inv db jwt r).owned client s t there cached) [
        | inr granted ↦ inl granted
        | inl (old, before, then_cached, user, machine) ↦
            inr (rw (← user, ← machine) (Reach-WasGranted r client old t before then_cached))
      ]

  -- The user may operate the machine now, or could at some time of the run, at most five seconds
  -- ago.
  abbrev pub IsConfirmed : ℕ → String → String → Store db → {g : Gateway} → Reach db jwt g → Type 0
  IsConfirmed now user machine store r =
      (has_access db user machine operator store ≡ true)
      ⊎ ((t : ℕ) × (now ≤ t + 5_000) × WasGranted r user machine t)

  -- After any events, keystrokes reach a machine only from a socket with a session, at most 4096
  -- units at a time and below 100 messages in the limiter's window, as they were sent, and only if
  -- the database gives the user operator access to that machine now, or did so when an event of the
  -- run asked it, at most five seconds ago.
  pub handle_input-IsConfirmed :
      {g : Gateway} (r : Reach db jwt g) (now : ℕ) (client data_text : String) (size : ℕ)
      (writable : Bool) (store : Store db)
      → written (handle_input db now client data_text size writable store g).1 ≢ []
      → (s : Session) × (u : SocketUser) × (g.ssh_sessions client ≡ some s)
        × (g.sockets client ≡ some u)
        × IsConfirmed now u.sub s.machine_id store r
        × (size ≤ 4096)
        × ((limiter_now now (g.input_rate_limiter client)).count < 100)
        × (written (handle_input db now client data_text size writable store g).1 ≡ data_text ∷ [])
  handle_input-IsConfirmed {g} r now client data_text size writable store h =
      let (s, u, found, known, cached, small, slow, sent) =
        handle_input-IsCached db now client data_text size writable store g h in
      let (w, known', own) = (Reach-Inv db jwt r).owned client s found in
      let theirs : s.user_id ≡ u.sub = cc in
      (
        s,
        u,
        found,
        known,
        (elim cached [
          | inl granted ↦ inl granted
          | inr (t, e, recent) ↦
              inr (t, recent, rw (← theirs) (Reach-WasGranted r client s t found e))
        ]),
        small,
        slow,
        sent,
      )
