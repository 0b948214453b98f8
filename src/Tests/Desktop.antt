-- ===== src/Tests/Desktop.antt =====
-- The theorems on the RDP gateway at concrete inputs.
use open_bastion.Base.{
  List, String, [], empty_dict, false, length, none, refl, some, true, ℕ, ◌∷◌, ◌≡◌, ◌≢◌, ◌≤◌,
}
use open_bastion.Database.{memory}
use open_bastion.Schema.{User, Role, operator, local}
use open_bastion.Auth.Jwt.{Claims, plain_jwt, access}
use open_bastion.Auth.TokenBlacklist.{is_blacklisted}
use open_bastion.Rbac.{
  Store, has_access, has_direct, is_selected, is_level_sufficient, has_by_group,
}
use open_bastion.Terminal.SshGateway.{SocketUser, attempts_now, authenticate_socket}
use open_bastion.Terminal.SshGateway.Traffic.{check_access}
use open_bastion.Terminal.RdpGateway.{
  Tunnel, RdpGateway, StartRdp, authenticate, start_tunnel, open_tunnel, disconnect, forward_frame,
  handle_data, settle_socket, disconnected, close_tunnel, free_slot,
}
use open_bastion.Terminal.RdpGateway.Frames.{frames}
use open_bastion.Terminal.RdpGateway.Events.{
  RdpReach, idle_rdp, authenticates, opens, sends, idle, next,
}
use open_bastion.Terminal.RdpGateway.Confirmation.{IsConfirmed, handle_data-IsConfirmed}
use open_bastion.Terminal.RdpGateway.Slots.{AreNew, early_run, early_run-refused}

abbrev dan : SocketUser
dan = record { sub = "dan"; role = Role.user; is_admin_mode = false; token_version = 0 }

abbrev quiet : RdpGateway
quiet = record {
  sockets = empty_dict;
  sessions = empty_dict;
  user_sessions = empty_dict;
  connection_attempts = empty_dict;
  open_recordings = empty_dict;
  polls = empty_dict;
}

abbrev dan_row : User
dan_row = record {
  email = "dan@example.org";
  username = none;
  password_hash = none;
  role = Role.user;
  auth_method = local;
  external_id = none;
  auth_provider_id = none;
  token_version = 0;
  requires_password_change = false;
  otp_secret = none;
  pending_otp_secret = none;
  is_otp_enabled = false;
  groups = [];
}

abbrev dan_site : Store memory
dan_site = record {
  users = ("dan", dan_row) ∷ [];
  permissions =
      (
        "p1",
        record {
          user_id = some "dan";
          group_id = none;
          machine_id = some "m1";
          machine_group_id = none;
          level = operator;
        },
      )
      ∷ [];
  machines =
      ("m1", record { name = "m"; ip = "10.0.0.1"; port = 3389; machine_group_id = none }) ∷ [];
}

abbrev no_rows : Store memory
no_rows = record { users = []; permissions = []; machines = [] }

-- Dan connects, opens a tunnel and moves the mouse.
abbrev dan_token : ℕ × ℕ × Claims
dan_token = (0, 900, access "dan" 0 false)

abbrev desktop : StartRdp
desktop = record {
  machine_id = "m1";
  is_rdp = true;
  connected = true;
  leftover = [];
  recording_enabled = false;
  registered = false;
}

abbrev joined_rdp : RdpGateway
joined_rdp =
    (authenticate memory plain_jwt 0 "c1" "10.0.0.1" (some dan_token) [] dan_site.users idle_rdp).0

abbrev opened_rdp : RdpGateway
opened_rdp = (start_tunnel memory 1_000 "c1" desktop dan_site joined_rdp).0

abbrev busy : RdpGateway
busy = (handle_data memory 2_000 "c1" (b'm' ∷ []) true dan_site opened_rdp).0

busy_run : RdpReach memory plain_jwt busy
unfolding idle_rdp
busy_run =
    next
      (next (next idle (authenticates 0 "c1" "10.0.0.1" (some dan_token) [] dan_site.users refl))
        (opens 1_000 "c1" desktop dan_site))
      (sends 2_000 "c1" (b'm' ∷ []) true dan_site)

passes : frames (handle_data memory 5000 "c1" (b'x' ∷ []) true no_rows busy).1 ≢ []
unfolding handle_data forward_frame check_access start_tunnel open_tunnel authenticate settle_socket
    attempts_now authenticate_socket is_blacklisted has_access has_direct is_selected
    is_level_sufficient has_by_group idle_rdp
passes h = cc

handle_data-IsConfirmed_example :
    (t : Tunnel) × (u : SocketUser) × (busy.sessions "c1" ≡ some t)
    × (busy.sockets "c1" ≡ some u)
    × IsConfirmed memory plain_jwt 5000 u.sub t.session.machine_id no_rows busy_run
    × (length {A = ℕ} (b'x' ∷ []) ≤ 2_097_152)
    × (frames (handle_data memory 5000 "c1" (b'x' ∷ []) true no_rows busy).1 ≡ (b'x' ∷ []) ∷ [])
handle_data-IsConfirmed_example =
    handle_data-IsConfirmed memory plain_jwt busy_run 5000 "c1" (b'x' ∷ []) true no_rows passes

abbrev five : List String
five = "c1" ∷ "c2" ∷ "c3" ∷ "c4" ∷ "c5" ∷ []

five-AreNew : AreNew dan five quiet
unfolding settle_socket disconnected close_tunnel free_slot
five-AreNew = (refl, refl, (refl, refl, (refl, refl, (refl, refl, (refl, refl, tt)))))

early_run-refused_example : (settle_socket "c6" dan (early_run dan five quiet)).1 ≡ disconnect ∷ []
early_run-refused_example = early_run-refused dan five "c6" quiet five-AreNew refl refl
