-- ===== src/Terminal/SshGateway/Events.antt =====
-- The events of backend/src/terminal/ssh.gateway.ts as a step relation. At each step the database
-- may hold anything; socket.io gives every new connection an id of its own.
use open_bastion.Base.{Bool, Option, String, empty_dict, none, ℕ, ◌≡◌}
use open_bastion.Database.{Database}
use open_bastion.Schema.{User, BlacklistedToken}
use open_bastion.Auth.Jwt.{Jwt}
use open_bastion.Rbac.{Store}
use open_bastion.Terminal.SshGateway.{Gateway, handle_connection, handle_disconnect}
use open_bastion.Terminal.SshGateway.Traffic.{
  StartRequest, handle_start_session, handle_input, handle_resize, access_poll,
}

unfoldable pub idle_gateway : Gateway
idle_gateway = record {
  sockets = empty_dict;
  ssh_sessions = empty_dict;
  input_rate_limiter = empty_dict;
  user_sessions = empty_dict;
  connection_attempts = empty_dict;
  recording = empty_dict;
  polls = empty_dict;
}

module _ (db : Database) (jwt : Jwt) where
  pub data Step (g : Gateway) : Gateway → Type 0 where
    connects :
        (now : ℕ) (client ip : String) (cookie : Option jwt.Token)
        (blacklist : db.State BlacklistedToken) (users : db.State User)
        → g.sockets client ≡ none
        → Step g (handle_connection db jwt now client ip cookie blacklist users g).0
    disconnects : (client : String) → Step g (handle_disconnect client g).0
    starts :
        (now : ℕ) (client : String) (r : StartRequest) (store : Store db)
        → Step g (handle_start_session db now client r store g).0
    inputs :
        (now : ℕ) (client data_text : String) (size : ℕ) (writable : Bool) (store : Store db)
        → Step g (handle_input db now client data_text size writable store g).0
    resizes :
        (now : ℕ) (client : String) (rows cols : ℕ) (store : Store db)
        → Step g (handle_resize db now client rows cols store g).0
    polls :
        (now : ℕ) (client : String) (store : Store db)
        → Step g (access_poll db now client store g).0

  pub data Reach : Gateway → Type 0 where
    start : Reach idle_gateway
    next : {g h : Gateway} → Reach g → Step g h → Reach h
