-- ===== src/Terminal/SshGateway/Ownership.antt =====
-- The invariant of the maps of backend/src/terminal/ssh.gateway.ts.
use open_bastion.Base.{
  Bool-cases, Dict, String, ap, arith, delete_key, eq_iff, inl, inr, none, set_key, some, ℕ, ◌=s=◌,
  ◌≡◌, ◌≤◌,
}
use open_bastion.Terminal.SshGateway.{SocketUser, Session, Gateway}

-- Every session belongs to the user of its socket.
abbrev pub AreOwned : Dict SocketUser → Dict Session → Type 0
AreOwned sockets sessions =
    (client : String) (s : Session)
    → sessions client ≡ some s
    → (u : SocketUser) × (sockets client ≡ some u) × (s.user_id ≡ u.sub)

-- A user's counter, where there is one, is between 1 and 5.
abbrev pub AreBounded : Dict ℕ → Type 0
AreBounded counters = (user : String) (n : ℕ) → counters user ≡ some n → (1 ≤ n) × (n ≤ 5)

pub record Inv (g : Gateway) : Type 0 where
  pub owned : AreOwned g.sockets g.ssh_sessions
  pub bounded : AreBounded g.user_sessions

-- The four ways in which the handlers change the two maps.
pub AreOwned-set :
    (sockets : Dict SocketUser) (sessions : Dict Session) (client : String) (s : Session)
    (u : SocketUser)
    → sockets client ≡ some u
    → s.user_id ≡ u.sub
    → AreOwned sockets sessions
    → AreOwned sockets (set_key client s sessions)
AreOwned-set sockets sessions client s u known same v c t e = elim (Bool-cases (client =s= c)) [
  | inl here ↦ (u, ground (arith, (eq_iff client c).0 here), ground arith)
  | inr there ↦ v c t (ground arith)
]

pub AreOwned-delete :
    (sockets : Dict SocketUser) (sessions : Dict Session) (client : String)
    → AreOwned sockets sessions
    → AreOwned sockets (delete_key client sessions)
AreOwned-delete sockets sessions client v c t e = v c t (ground arith)

pub AreOwned-socket :
    (sockets : Dict SocketUser) (sessions : Dict Session) (client : String) (u : SocketUser)
    → sockets client ≡ none
    → AreOwned sockets sessions
    → AreOwned (set_key client u sockets) sessions
AreOwned-socket sockets sessions client u fresh v c t e =
    let (w, known, same) = v c t e in (w, ground (arith, eq_iff client c, ap sockets), same)

pub AreBounded-set :
    (counters : Dict ℕ) (user : String) (n : ℕ)
    → 1 ≤ n
    → n ≤ 5
    → AreBounded counters
    → AreBounded (set_key user n counters)
AreBounded-set counters user n low high v u m e = ground (arith, v u m)

pub AreBounded-delete :
    (counters : Dict ℕ) (user : String)
    → AreBounded counters
    → AreBounded (delete_key user counters)
AreBounded-delete counters user v u m e = v u m (ground arith)
