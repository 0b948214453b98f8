-- ===== src/Terminal/RdpGateway/Slots.antt =====
-- The slots that backend/src/terminal/rdp.gateway.ts counts per user: handleDisconnect does not wait
-- for `authReady`.
use open_bastion.Base.{
  List, String, [], ap, arith, eq_refl, false, get_or, leb, length, none, refl, true, ℕ, ◌+◌, ◌<◌,
  ◌∙◌, ◌∷◌, ◌≡◌, ◌≤◌,
}
use open_bastion.Terminal.SshGateway.{SocketUser, max_sessions_per_user}
use open_bastion.Terminal.RdpGateway.{
  RdpGateway, disconnect, settle_socket, close_tunnel, free_slot, disconnected,
}

-- The socket goes away while its authentication runs, which then admits it.
abbrev pub early : SocketUser → String → RdpGateway → RdpGateway
early user client g = (settle_socket client user (disconnected client g).0).0

abbrev pub early_run : SocketUser → List String → RdpGateway → RdpGateway
early_run user [] g = g
early_run user (client ∷ clients) g = early_run user clients (early user client g)

-- No socket was there before.
abbrev pub AreNew : SocketUser → List String → RdpGateway → Type 0
AreNew user [] g = Unit {0}
AreNew user (client ∷ clients) g =
    (g.sockets client ≡ none)
    × (g.sessions client ≡ none)
    × AreNew user clients (early user client g)

slots_of : SocketUser → RdpGateway → ℕ
slots_of user g = get_or (g.user_sessions user.sub) 0

unseen_leaves :
    (client : String) (g : RdpGateway)
    → g.sockets client ≡ none
    → g.sessions client ≡ none
    → (disconnected client g).0 ≡ g
unfolding disconnected close_tunnel free_slot
unseen_leaves client g e f = rw (close_tunnel, f, e) refl

settle_counts :
    (user : SocketUser) (client : String) (g : RdpGateway)
    → slots_of user g < max_sessions_per_user
    → slots_of user (settle_socket client user g).0 ≡ slots_of user g + 1
unfolding slots_of settle_socket
settle_counts user client g h =
    let below : leb max_sessions_per_user (get_or (g.user_sessions user.sub) 0) ≡ false =
      ground arith in
    rw (below, eq_refl user.sub) refl

early_slot :
    (user : SocketUser) (client : String) (g : RdpGateway)
    → g.sockets client ≡ none
    → g.sessions client ≡ none
    → slots_of user g < max_sessions_per_user
    → slots_of user (early user client g) ≡ slots_of user g + 1
early_slot user client g e f h =
    ap (λ g'. slots_of user (settle_socket client user g').0) (unseen_leaves client g e f)
    ∙ settle_counts user client g h

early_run_slots :
    (user : SocketUser) (clients : List String) (g : RdpGateway)
    → AreNew user clients g
    → slots_of user g + length clients ≤ max_sessions_per_user
    → slots_of user (early_run user clients g) ≡ slots_of user g + length clients
early_run_slots user [] g new h = omega arith
early_run_slots user (client ∷ clients) g (e, f, new) h =
    let one = early_slot user client g e f (omega arith) in
    omega (arith, one, early_run_slots user clients (early user client g) new (omega (arith, one)))

-- Five sockets of a user without a slot in use that each go away before their authentication has
-- ended take all the user's slots: the next socket of theirs is refused.
pub early_run-refused :
    (user : SocketUser) (clients : List String) (client : String) (g : RdpGateway)
    → AreNew user clients g
    → g.user_sessions user.sub ≡ none
    → length clients ≡ max_sessions_per_user
    → (settle_socket client user (early_run user clients g)).1 ≡ disconnect ∷ []
unfolding settle_socket slots_of
early_run-refused user clients client g new unused five =
    let none_used : get_or (g.user_sessions user.sub) 0 ≡ 0 = rw unused refl in
    let all_used = early_run_slots user clients g new (omega (arith, none_used, five)) in
    let full : leb max_sessions_per_user (slots_of user (early_run user clients g)) ≡ true =
      ground (arith, all_used, none_used, five) in
    rw full refl
