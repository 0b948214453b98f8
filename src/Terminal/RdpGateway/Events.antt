-- ===== src/Terminal/RdpGateway/Events.antt =====
-- The events of backend/src/terminal/rdp.gateway.ts as a step relation. At each step the database
-- may hold anything; every socket authenticates once.
use open_bastion.Base.{Bool, List, Option, String, empty_dict, none, true, ℕ, ◌≡◌, ◌⊎◌}
use open_bastion.Database.{Database}
use open_bastion.Schema.{User, BlacklistedToken, operator}
use open_bastion.Auth.Jwt.{Jwt}
use open_bastion.Rbac.{Store, has_access}
use open_bastion.Terminal.RdpGateway.{
  RdpGateway, StartRdp, authenticate, disconnected, start_tunnel, poll_tunnel, handle_data,
  resize_tunnel,
}

unfoldable pub idle_rdp : RdpGateway
idle_rdp = record {
  sockets = empty_dict;
  sessions = empty_dict;
  user_sessions = empty_dict;
  connection_attempts = empty_dict;
  open_recordings = empty_dict;
  polls = empty_dict;
}

module _ (db : Database) (jwt : Jwt) where
  pub data RdpStep (g : RdpGateway) : RdpGateway → Type 0 where
    authenticates :
        (now : ℕ) (client ip : String) (cookie : Option jwt.Token)
        (blacklist : db.State BlacklistedToken) (users : db.State User)
        → g.sockets client ≡ none
        → RdpStep g (authenticate db jwt now client ip cookie blacklist users g).0
    leaves : (client : String) → RdpStep g (disconnected client g).0
    opens :
        (now : ℕ) (client : String) (r : StartRdp) (store : Store db)
        → RdpStep g (start_tunnel db now client r store g).0
    rounds :
        (now : ℕ) (client : String) (store : Store db)
        → RdpStep g (poll_tunnel db now client store g).0
    sends :
        (now : ℕ) (client : String) (payload : List ℕ) (writable : Bool) (store : Store db)
        → RdpStep g (handle_data db now client payload writable store g).0
    resizes :
        (client : String) (width height : ℕ) (writable : Bool)
        → RdpStep g (resize_tunnel client width height writable g).0

  pub data RdpReach : RdpGateway → Type 0 where
    idle : RdpReach idle_rdp
    next : {g h : RdpGateway} → RdpReach g → RdpStep g h → RdpReach h

  -- At the step, at the time, the tables give the user operator access to the machine.
  abbrev pub IsGranting : {g h : RdpGateway} → RdpStep g h → String → String → ℕ → Type 0
  IsGranting (authenticates now client ip cookie blacklist users fresh) user machine t = ⊥
  IsGranting (leaves client) user machine t = ⊥
  IsGranting (opens now client r store) user machine t =
      (t ≡ now) × (has_access db user machine operator store ≡ true)
  IsGranting (rounds now client store) user machine t =
      (t ≡ now) × (has_access db user machine operator store ≡ true)
  IsGranting (sends now client payload writable store) user machine t =
      (t ≡ now) × (has_access db user machine operator store ≡ true)
  IsGranting (resizes client width height writable) user machine t = ⊥

  -- So it was at some step of the run.
  abbrev pub WasGranted : {g : RdpGateway} → RdpReach g → String → String → ℕ → Type 0
  WasGranted idle user machine t = ⊥
  WasGranted (next r st) user machine t = IsGranting st user machine t ⊎ WasGranted r user machine t
