-- ===== src/Terminal/RdpGateway/Confirmation.antt =====
-- What the cached answers of backend/src/terminal/rdp.gateway.ts come from.
use open_bastion.Base.{
  Bool, List, String, [], arith, inl, inr, length, some, sym, true, ℕ, ◌+◌, ◌∙◌, ◌∷◌, ◌≡◌, ◌≢◌, ◌≤◌,
  ◌⊎◌,
}
use open_bastion.Database.{Database}
use open_bastion.Schema.{operator}
use open_bastion.Auth.Jwt.{Jwt}
use open_bastion.Rbac.{Store, has_access}
use open_bastion.Terminal.SshGateway.{SocketUser}
use open_bastion.Terminal.RdpGateway.{Tunnel, RdpGateway, handle_data}
use open_bastion.Terminal.RdpGateway.Frames.{frames, handle_data-IsCached}
use open_bastion.Terminal.RdpGateway.Events.{
  RdpStep, RdpReach, idle_rdp, authenticates, leaves, opens, rounds, sends, resizes, idle, next,
  IsGranting, WasGranted,
}
use open_bastion.Terminal.RdpGateway.Kept.{
  kept, fresh, IsKept, authenticate-IsKept, disconnected-IsKept, resize_tunnel-IsKept,
}
use open_bastion.Terminal.RdpGateway.Messages.{
  start_tunnel-IsKept, poll_tunnel-IsKept, handle_data-IsKept,
}

-- Every session belongs to the user of its socket.
abbrev AreOwned : RdpGateway → Type 0
AreOwned g =
    (client : String) (t : Tunnel)
    → g.sessions client ≡ some t
    → (u : SocketUser) × (g.sockets client ≡ some u) × (t.session.user_id ≡ u.sub)

module _ (db : Database) (jwt : Jwt) where
  RdpStep-IsKept : {g h : RdpGateway} (st : RdpStep db jwt g h) → IsKept (IsGranting db jwt st) g h
  RdpStep-IsKept {g} (authenticates now client ip cookie blacklist users new) =
      authenticate-IsKept db jwt _ now client ip cookie blacklist users g new
  RdpStep-IsKept {g} (leaves client) = disconnected-IsKept _ client g
  RdpStep-IsKept {g} (opens now client r store) = start_tunnel-IsKept db now client r store g
  RdpStep-IsKept {g} (rounds now client store) = poll_tunnel-IsKept db now client store g
  RdpStep-IsKept {g} (sends now client payload writable store) =
      handle_data-IsKept db now client payload writable store g
  RdpStep-IsKept {g} (resizes client width height writable) =
      resize_tunnel-IsKept _ client width height writable g

  RdpReach-AreOwned : {g : RdpGateway} → RdpReach db jwt g → AreOwned g
  unfolding idle_rdp
  RdpReach-AreOwned idle client t there = cc
  RdpReach-AreOwned (next r st) client t there =
      elim ((RdpStep-IsKept st).sessions client t there) [
        | kept old e user machine cached ↦
            let (u, known, own) = RdpReach-AreOwned r client old e in
            (u, (RdpStep-IsKept st).sockets client u known, sym user ∙ own)
        | fresh u known own blank ↦ (u, (RdpStep-IsKept st).sockets client u known, own)
      ]

  -- Every positive answer in a cache was the database's, at the time that it carries.
  pub RdpReach-WasGranted :
      {g : RdpGateway} (r : RdpReach db jwt g) (client : String) (t : Tunnel) (n : ℕ)
      → g.sessions client ≡ some t
      → t.session.access_cache ≡ some (true, n)
      → WasGranted db jwt r t.session.user_id t.session.machine_id n
  unfolding idle_rdp
  RdpReach-WasGranted idle client t n there cached = cc
  RdpReach-WasGranted (next r st) client t n there cached =
      elim ((RdpStep-IsKept st).sessions client t there) [
        | fresh u known own blank ↦ absurd (ground arith)
        | kept old e user machine renewed ↦ elim (renewed n cached) [
          | inl before ↦ inr (rw (← user, ← machine) (RdpReach-WasGranted r client old n e before))
          | inr (u, known, granted) ↦
              let (owner_of, known', own) = RdpReach-AreOwned r client old e in
              let theirs : u.sub ≡ t.session.user_id = cc in inl (rw (← theirs, ← machine) granted)
        ]
      ]

  -- The user may operate the machine now, or could at some time of the run, at most five seconds
  -- ago.
  abbrev pub IsConfirmed :
      ℕ → String → String → Store db → {g : RdpGateway} → RdpReach db jwt g → Type 0
  IsConfirmed now user machine store r =
      (has_access db user machine operator store ≡ true)
      ⊎ ((t : ℕ) × (now ≤ t + 5_000) × WasGranted db jwt r user machine t)

  -- After any events, a frame of the browser reaches guacd only from a socket with a session, at
  -- most 2 MiB at a time, as it was sent, and only if the database gives the user operator access
  -- to that machine now, or did so when an event of the run asked it, at most five seconds ago.
  pub handle_data-IsConfirmed :
      {g : RdpGateway} (r : RdpReach db jwt g) (now : ℕ) (client : String) (payload : List ℕ)
      (writable : Bool) (store : Store db)
      → frames (handle_data db now client payload writable store g).1 ≢ []
      → (t : Tunnel) × (u : SocketUser) × (g.sessions client ≡ some t)
        × (g.sockets client ≡ some u)
        × IsConfirmed now u.sub t.session.machine_id store r
        × (length payload ≤ 2_097_152)
        × (frames (handle_data db now client payload writable store g).1 ≡ payload ∷ [])
  handle_data-IsConfirmed {g} r now client payload writable store h =
      let (t, u, found, known, cached, small, sent) =
        handle_data-IsCached db now client payload writable store g h in
      let (w, known', own) = RdpReach-AreOwned r client t found in
      let theirs : t.session.user_id ≡ u.sub = cc in
      (
        t,
        u,
        found,
        known,
        (elim cached [
          | inl granted ↦ inl granted
          | inr (n, e, recent) ↦
              inr (n, recent, rw (← theirs) (RdpReach-WasGranted r client t n found e))
        ]),
        small,
        sent,
      )
