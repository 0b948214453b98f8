-- ===== src/Tests/Terminal.antt =====
-- The theorems on the terminal gateway at concrete inputs.
use open_bastion.Base.{
  List, Option, String, [], arith, empty_dict, false, none, refl, set_key, some, true, ℕ, ◌<◌, ◌↔◌,
  ◌∷◌, ◌≡◌, ◌≢◌, ◌≤◌, ◌⊎◌,
}
use open_bastion.Database.{memory}
use open_bastion.Schema.{User, Permission, Machine, operator, Role, local}
use open_bastion.Auth.Jwt.{Claims, plain_jwt, access}
use open_bastion.Auth.TokenBlacklist.{is_blacklisted}
use open_bastion.Rbac.{
  Store, has_access, has_direct, is_selected, is_level_sufficient, has_by_group,
}
use open_bastion.Rbac.Spec.{IsAuthorized}
use open_bastion.Terminal.SshGateway.{
  SocketUser, Session, Gateway, disconnect, end_stream, emit_error, attempts_now,
  authenticate_socket, admit_socket, handle_connection, handle_disconnect,
}
use open_bastion.Terminal.SshGateway.Traffic.{
  StartRequest, handle_start_session, open_session, handle_input, forward_input, access_poll,
  limiter_now, check_access,
}
use open_bastion.Terminal.SshGateway.Events.{
  Reach, idle_gateway, connects, starts, inputs, start, next,
}
use open_bastion.Terminal.SshGateway.Ownership.{Inv}
use open_bastion.Terminal.SshGateway.Invariant.{Reach-Inv}
use open_bastion.Terminal.SshGateway.Keystrokes.{
  written, forward_input-revoked, handle_start_session-IsAuthorized,
}
use open_bastion.Terminal.SshGateway.Confirmation.{IsConfirmed, handle_input-IsConfirmed}
use open_bastion.Terminal.SshGateway.Kills.{access_poll-kills_iff, admit_socket-bypassed}

abbrev carol : User
carol = record {
  email = "carol@example.org";
  username = none;
  password_hash = none;
  role = Role.user;
  auth_method = local;
  external_id = none;
  auth_provider_id = none;
  token_version = 2;
  requires_password_change = false;
  otp_secret = none;
  pending_otp_secret = none;
  is_otp_enabled = false;
  groups = [];
}

abbrev carol_on_m1 : Permission
carol_on_m1 = record {
  user_id = some "carol";
  group_id = none;
  machine_id = some "m1";
  machine_group_id = none;
  level = operator;
}

abbrev m1 : Machine
m1 = record { name = "m"; ip = "10.0.0.1"; port = 22; machine_group_id = some "web" }

abbrev site_with : List (String × Permission) → Store memory
site_with rows = record {
  machines = ("m1", m1) ∷ [];
  users = ("carol", carol) ∷ [];
  permissions = rows;
}

abbrev granted_site : Store memory
granted_site = site_with (("p1", carol_on_m1) ∷ [])

abbrev revoked_site : Store memory
revoked_site = site_with []

abbrev carol_socket : SocketUser
carol_socket = record { sub = "carol"; role = Role.user; is_admin_mode = false; token_version = 2 }

abbrev on_machine : Session
on_machine = record {
  machine_id = "m1";
  session_id = "s1";
  user_id = "carol";
  start_time = 0;
  access_cache = some (true, 1_000);
}

-- Socket c1 of carol, with or without a session.
abbrev gateway_with : Option Session → Gateway
gateway_with session = record {
  sockets = set_key "c1" carol_socket empty_dict;
  ssh_sessions = (elim session [ none ↦ empty_dict | some s ↦ set_key "c1" s empty_dict ]);
  input_rate_limiter = empty_dict;
  user_sessions = set_key "carol" 1 empty_dict;
  connection_attempts = empty_dict;
  recording = set_key "s1" "carol" empty_dict;
  polls = empty_dict;
}

abbrev open_gateway : Gateway
open_gateway = gateway_with (some on_machine)

keystrokes_pass :
    written (handle_input memory 2_000 "c1" "ls" 2 true granted_site open_gateway).1 ≡ "ls" ∷ []
unfolding handle_input forward_input check_access limiter_now
keystrokes_pass = refl

lost_access : has_access memory "carol" "m1" operator revoked_site ≡ false
unfolding has_access has_direct is_selected is_level_sufficient has_by_group
lost_access = refl

forward_input-revoked_example :
    let r = forward_input memory 9_000 "c1" "ls" true revoked_site open_gateway in
    (r.0.ssh_sessions "c1" ≡ none)
    × (r.1 ≡ emit_error "Access revoked" ∷ end_stream ∷ disconnect ∷ [])
forward_input-revoked_example =
    forward_input-revoked memory 9_000 "c1" "ls" true revoked_site open_gateway on_machine
      carol_socket refl refl (λ allowed t e. ground arith) lost_access

abbrev request : StartRequest
request = record { machine_id = "m1"; fresh_id = "s1"; connected = true; recording_enabled = true }

abbrev opened_session : Session
opened_session = record on_machine { start_time = 1_000; access_cache = none }

starts_session :
    (handle_start_session memory 1_000 "c1" request granted_site (gateway_with none)).0.ssh_sessions
      "c1"
    ≡ some opened_session
unfolding handle_start_session open_session has_access has_direct is_selected is_level_sufficient
starts_session = refl

handle_start_session_example :
    ((gateway_with none).ssh_sessions "c1" ≡ some opened_session)
    ⊎ (((gateway_with none).ssh_sessions "c1" ≡ none)
        × (opened_session.access_cache ≡ none)
        × ((u : SocketUser) × ((gateway_with none).sockets "c1" ≡ some u)
            × (opened_session.user_id ≡ u.sub)
            × (opened_session.machine_id ≡ "m1")
            × IsAuthorized memory u.sub "m1" operator granted_site))
handle_start_session_example =
    handle_start_session-IsAuthorized memory 1_000 "c1" "web" request granted_site
      (gateway_with none) opened_session refl starts_session

access_poll-kills_iff_example :
    ((access_poll memory 4_000 "c1" revoked_site open_gateway).0.ssh_sessions "c1" ≡ none) ↔ (
      (memory.find "carol" revoked_site.users ≡ none)
      ⊎ (((found : User) × (memory.find "carol" revoked_site.users ≡ some found)
            × (found.token_version ≢ carol_socket.token_version))
          ⊎ (has_access memory "carol" "m1" operator revoked_site ≡ false)))
access_poll-kills_iff_example =
    access_poll-kills_iff memory 4_000 "c1" revoked_site open_gateway on_machine carol_socket refl
      refl

abbrev full_gateway : Gateway
full_gateway = record (gateway_with none) { user_sessions = set_key "carol" 5 empty_dict }

admit_socket-bypassed_example :
    let refused = admit_socket "c8" carol_socket full_gateway in
    let accepted = admit_socket "c9" carol_socket (handle_disconnect "c8" refused.0).0 in
    (refused.1 ≡ disconnect ∷ []) × (accepted.1 ≡ []) × (accepted.0.user_sessions "carol" ≡ some 5)
admit_socket-bypassed_example = admit_socket-bypassed "c8" "c9" carol_socket full_gateway refl refl

-- One connection, then a session on it.
abbrev cookie : Option plain_jwt.Token
cookie = some (0, 3600, access "carol" 2 false)

idle_free : idle_gateway.sockets "c1" ≡ none
unfolding idle_gateway
idle_free = refl

abbrev connected_gateway : Gateway
connected_gateway =
    (handle_connection memory plain_jwt 10 "c1" "10.0.0.9" cookie [] (("carol", carol) ∷ [])
      idle_gateway).0

Reach-Inv_example :
    Inv (handle_start_session memory 20 "c1" request granted_site connected_gateway).0
Reach-Inv_example = Reach-Inv memory plain_jwt (
    next (next start (connects 10 "c1" "10.0.0.9" cookie [] (("carol", carol) ∷ []) idle_free))
      (starts 20 "c1" request granted_site))

-- Carol connects, starts a session and types.
abbrev carol_token : ℕ × ℕ × Claims
carol_token = (0, 900, access "carol" 2 false)

abbrev joined_gateway : Gateway
joined_gateway =
    (handle_connection memory plain_jwt 0 "c1" "10.0.0.1" (some carol_token) [] granted_site.users
      idle_gateway).0

abbrev working_gateway : Gateway
working_gateway = (handle_start_session memory 1_000 "c1" request granted_site joined_gateway).0

abbrev typing_gateway : Gateway
typing_gateway = (handle_input memory 2_000 "c1" "l" 1 true granted_site working_gateway).0

typing_run : Reach memory plain_jwt typing_gateway
unfolding idle_gateway
typing_run =
    next
      (next (next start (connects 0 "c1" "10.0.0.1" (some carol_token) [] granted_site.users refl))
        (starts 1_000 "c1" request granted_site))
      (inputs 2_000 "c1" "l" 1 true granted_site)

types_on :
    written (handle_input memory 4_000 "c1" "s" 1 true revoked_site typing_gateway).1 ≡ "s" ∷ []
unfolding handle_input forward_input check_access handle_start_session open_session limiter_now
    handle_connection attempts_now authenticate_socket admit_socket is_blacklisted has_access
    has_direct is_selected is_level_sufficient has_by_group idle_gateway
types_on = refl

handle_input-IsConfirmed_example :
    (s : Session) × (u : SocketUser) × (typing_gateway.ssh_sessions "c1" ≡ some s)
    × (typing_gateway.sockets "c1" ≡ some u)
    × IsConfirmed memory plain_jwt 4_000 u.sub s.machine_id revoked_site typing_run
    × (1 ≤ 4096)
    × ((limiter_now 4_000 (typing_gateway.input_rate_limiter "c1")).count < 100)
    × (written (handle_input memory 4_000 "c1" "s" 1 true revoked_site typing_gateway).1 ≡ "s" ∷ [])
handle_input-IsConfirmed_example =
    handle_input-IsConfirmed memory plain_jwt typing_run 4_000 "c1" "s" 1 true revoked_site
      (λ h. ground (arith, types_on))
