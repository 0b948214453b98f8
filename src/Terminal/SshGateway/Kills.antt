-- ===== src/Terminal/SshGateway/Kills.antt =====
-- The ends of sessions in backend/src/terminal/ssh.gateway.ts that the server decides on.
use open_bastion.Base.{
  Bool-cases, Option-cases, String, [], arith, eq_refl, false, inl, inr, none, some, ℕ, ◌==◌, ◌↔◌,
  ◌∷◌, ◌≡◌, ◌≢◌, ◌⊎◌,
}
use open_bastion.Database.{Database}
use open_bastion.Schema.{User, operator}
use open_bastion.Rbac.{Store, has_access}
use open_bastion.Terminal.SshGateway.{
  SocketUser, Session, Gateway, disconnect, admit_socket, handle_disconnect,
}
use open_bastion.Terminal.SshGateway.Traffic.{access_poll}

module _ (db : Database) where
  -- A round of the interval ends a session exactly if the user is gone, their token version has
  -- changed since the connection, or their operator access is lost.
  pub access_poll-kills_iff :
      (now : ℕ) (client : String) (store : Store db) (g : Gateway) (s : Session) (u : SocketUser)
      → g.ssh_sessions client ≡ some s
      → g.sockets client ≡ some u
      → ((access_poll db now client store g).0.ssh_sessions client ≡ none) ↔ (
          (db.find u.sub store.users ≡ none)
          ⊎ (((found : User) × (db.find u.sub store.users ≡ some found)
                × (found.token_version ≢ u.token_version))
              ⊎ (has_access db u.sub s.machine_id operator store ≡ false)))
  unfolding access_poll
  access_poll-kills_iff now client store g s u e e' =
      elim (Option-cases (db.find u.sub store.users)) [
        | inl gone ↦ ((λ _. inl gone), λ _. ground (arith, eq_refl client))
        | inr (found, known) ↦ (
          (λ h. inr (elim (Bool-cases (found.token_version == u.token_version)) [
            | inl current ↦ inr (ground (arith, eq_refl client))
            | inr changed ↦ inl (found, known, ground arith)
          ])),
          (λ w. elim w [
            | inl gone ↦ ground (arith, eq_refl client)
            | inr (inl (f, k, changed)) ↦ ground (arith, eq_refl client)
            | inr (inr lost) ↦ ground (arith, eq_refl client)
          ]),
        )
      ]

-- A user at the limit gets a further socket by opening two: the first is refused, but its
-- disconnection gives back a slot that it never took, and the second is accepted.
pub admit_socket-bypassed :
    (first second : String) (u : SocketUser) (g : Gateway)
    → g.user_sessions u.sub ≡ some 5
    → g.ssh_sessions first ≡ none
    → let refused = admit_socket first u g in
      let accepted = admit_socket second u (handle_disconnect first refused.0).0 in
      (refused.1 ≡ disconnect ∷ []) × (accepted.1 ≡ []) × (accepted.0.user_sessions u.sub ≡ some 5)
unfolding admit_socket handle_disconnect
admit_socket-bypassed first second u g full fresh = (
  ground arith,
  ground (arith, eq_refl u.sub, eq_refl first),
  ground (arith, eq_refl u.sub, eq_refl first),
)
