-- ===== src/Terminal/RdpGateway/Kept.antt =====
-- What the steps of backend/src/terminal/rdp.gateway.ts may do to the sessions and what is cached in
-- them, and that its connections do no more.
use open_bastion.Base.{
  Bool, Bool-cases, List, Option, Option-cases, String, ap, arith, eq_iff, false, if◌then◌else◌,
  inl, inr, leb, none, refl, set_key, some, subst, sym, true, ℕ, ◌+◌, ◌=s=◌, ◌∙◌, ◌≡◌, ◌⊎◌,
}
use open_bastion.Database.{Database}
use open_bastion.Schema.{User, BlacklistedToken}
use open_bastion.Auth.Jwt.{Jwt}
use open_bastion.Terminal.SshGateway.{SocketUser, attempts_now, authenticate_socket}
use open_bastion.Terminal.RdpGateway.{
  Tunnel, RdpGateway, RdpEffect, authenticate, settle_socket, close_tunnel, free_slot, disconnected,
  resize_tunnel,
}

-- A session after a step: that of before, with the answer in the cache of before or one that was
-- given now; or a new one, of the socket's user and with nothing in the cache.
pub data Came (granted : String → String → ℕ → Type 0) (g : RdpGateway) (client : String)
    (t : Tunnel) : Type 0 where
  kept :
      (old : Tunnel)
      → g.sessions client ≡ some old
      → old.session.user_id ≡ t.session.user_id
      → old.session.machine_id ≡ t.session.machine_id
      → ((n : ℕ)
          → t.session.access_cache ≡ some (true, n)
          → (old.session.access_cache ≡ some (true, n))
            ⊎ ((user : SocketUser) × (g.sockets client ≡ some user)
                × granted user.sub old.session.machine_id n))
      → Came granted g client t
  fresh :
      (u : SocketUser)
      → g.sockets client ≡ some u
      → t.session.user_id ≡ u.sub
      → t.session.access_cache ≡ none
      → Came granted g client t

pub record IsKept (granted : String → String → ℕ → Type 0) (g h : RdpGateway) : Type 0 where
  pub sockets :
      (client : String) (u : SocketUser) → g.sockets client ≡ some u → h.sockets client ≡ some u
  pub sessions :
      (client : String) (t : Tunnel) → h.sessions client ≡ some t → Came granted g client t

-- The map of sessions is the old one, but for one socket.
pub same_tunnel :
    (granted : String → String → ℕ → Type 0) (g : RdpGateway) (client : String) (t : Tunnel)
    → g.sessions client ≡ some t
    → Came granted g client t
same_tunnel granted g client t there = kept t there refl refl (λ n e. inl e)

pub put_tunnel :
    (granted : String → String → ℕ → Type 0) (g : RdpGateway) (who client : String) (put t : Tunnel)
    → Came granted g who put
    → set_key who put g.sessions client ≡ some t
    → Came granted g client t
put_tunnel granted g who client put t came there = elim (Bool-cases (who =s= client)) [
  | inl here ↦
      let same : put ≡ t = ground (arith, here) in
      subst (λ c. Came granted g c t) ((eq_iff who client).0 here)
        (subst (λ x. Came granted g who x) same came)
  | inr away ↦ same_tunnel granted g client t (ground (arith, away))
]

pub unchanged : (granted : String → String → ℕ → Type 0) (g : RdpGateway) → IsKept granted g g
unchanged granted g = record {
  sockets = λ c u k. k;
  sessions = λ c t there. same_tunnel granted g c t there;
}

-- A handler that refuses under a test.
pub guarded_tunnel :
    (granted : String → String → ℕ → Type 0) (g : RdpGateway) (refused : Bool)
    (why : List RdpEffect) (r : RdpGateway × List RdpEffect)
    → IsKept granted g r.0
    → IsKept granted g (if refused then (g, why) else r).0
guarded_tunnel granted g true why r v = unchanged granted g
guarded_tunnel granted g false why r v = v

counted-IsKept :
    (granted : String → String → ℕ → Type 0) (g h : RdpGateway)
    → h.sockets ≡ g.sockets
    → h.sessions ≡ g.sessions
    → IsKept granted g h
counted-IsKept granted g h a b = record {
  sockets = λ c u k. ap (λ m. m c) a ∙ k;
  sessions = λ c t there. same_tunnel granted g c t (ap (λ m. m c) (sym b) ∙ there);
}

settle_socket-IsKept :
    (granted : String → String → ℕ → Type 0) (client : String) (user : SocketUser) (g : RdpGateway)
    → g.sockets client ≡ none
    → IsKept granted g (settle_socket client user g).0
unfolding settle_socket
settle_socket-IsKept granted client user g new = record {
  sockets = λ c u k. elim (Bool-cases (client =s= c)) [
    | inl here ↦
        let at : g.sockets c ≡ none = ap g.sockets (sym ((eq_iff client c).0 here)) ∙ new in
        absurd (ground (arith, at))
    | inr away ↦ ground (arith, away)
  ];
  sessions = λ c t there. same_tunnel granted g c t (ground arith);
}

pub disconnected-IsKept :
    (granted : String → String → ℕ → Type 0) (client : String) (g : RdpGateway)
    → IsKept granted g (disconnected client g).0
unfolding disconnected close_tunnel free_slot
disconnected-IsKept granted client g = elim (Option-cases (g.sessions client)) [
  | inl e ↦ elim (Option-cases (g.sockets client)) [
    | inl k ↦ rw (close_tunnel, e, free_slot, k) (unchanged granted g)
    | inr (u, k) ↦ record {
      sockets = λ c w known. ground arith;
      sessions = λ c t there. same_tunnel granted g c t (ground arith);
    }
  ]
  | inr (tunnel, e) ↦ elim (Option-cases (g.sockets client)) [
    | inl k ↦ record {
      sockets = λ c w known. ground arith;
      sessions = λ c t there. same_tunnel granted g c t (ground arith);
    }
    | inr (u, k) ↦ record {
      sockets = λ c w known. ground arith;
      sessions = λ c t there. same_tunnel granted g c t (ground arith);
    }
  ]
]

pub resize_tunnel-IsKept :
    (granted : String → String → ℕ → Type 0) (client : String) (width height : ℕ) (writable : Bool)
    (g : RdpGateway)
    → IsKept granted g (resize_tunnel client width height writable g).0
unfolding resize_tunnel
resize_tunnel-IsKept granted client width height writable g =
    elim (Option-cases (g.sessions client)) [
      | inl e ↦ rw (resize_tunnel, e) (unchanged granted g)
      | inr (t, e) ↦ rw (resize_tunnel, e) (unchanged granted g)
    ]

pub authenticate-IsKept :
    (db : Database) (jwt : Jwt) (granted : String → String → ℕ → Type 0) (now : ℕ)
    (client ip : String) (cookie : Option jwt.Token) (blacklist : db.State BlacklistedToken)
    (users : db.State User) (g : RdpGateway)
    → g.sockets client ≡ none
    → IsKept granted g (authenticate db jwt now client ip cookie blacklist users g).0
unfolding authenticate
authenticate-IsKept db jwt granted now client ip cookie blacklist users g new =
    let attempts = attempts_now now (g.connection_attempts ip) in
    let counted : RdpGateway = record g {
      connection_attempts =
          set_key ip (record attempts { count = attempts.count + 1 }) g.connection_attempts;
    } in
    elim (Bool-cases (leb 15 attempts.count)) [
      | inl throttled ↦ rw (throttled, authenticate) (unchanged granted g)
      | inr slow ↦ elim (Option-cases (authenticate_socket db jwt now cookie blacklist users)) [
        | inl nobody ↦ rw (slow, nobody, authenticate) (counted-IsKept granted g counted refl refl)
        | inr ((user, rotating), someone) ↦ elim (Bool-cases rotating) [
          | inl e ↦ rw (slow, someone, authenticate, e) (counted-IsKept granted g counted refl refl)
          | inr e ↦
              let v = settle_socket-IsKept granted client user counted new in
              rw (slow, someone, authenticate, e)
                (record {
                  sockets = v.sockets;
                  sessions = λ c t there. elim (v.sessions c t there) [
                    | kept old a b d w ↦ kept old a b d w
                    | fresh u a b d ↦ fresh u a b d
                  ];
                })
        ]
      ]
    ]
