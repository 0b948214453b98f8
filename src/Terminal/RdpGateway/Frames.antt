-- ===== src/Terminal/RdpGateway/Frames.antt =====
-- When backend/src/terminal/rdp.gateway.ts passes a frame of the browser on to guacd.
use open_bastion.Base.{
  Bool, Bool-cases, List, Option-cases, String, [], arith, inl, inr, length, ltb, refl, some, true,
  ℕ, ◌∷◌, ◌≡◌, ◌≢◌, ◌≤◌,
}
use open_bastion.Database.{Database}
use open_bastion.Rbac.{Store}
use open_bastion.Terminal.SshGateway.{SocketUser}
use open_bastion.Terminal.SshGateway.Traffic.{check_access}
use open_bastion.Terminal.SshGateway.Keystrokes.{IsCached, check_access-IsCached}
use open_bastion.Terminal.RdpGateway.{
  Tunnel, RdpGateway, RdpEffect, write, max_message_size, forward_frame, handle_data,
}

-- What goes to guacd.
abbrev pub frames : List RdpEffect → List (List ℕ)
frames [] = []
frames (write t ∷ es) = t ∷ frames es
frames (_ ∷ es) = frames es

module _ (db : Database) where
  forward_frame-writes :
      (now : ℕ) (client : String) (payload : List ℕ) (writable : Bool) (store : Store db)
      (g : RdpGateway)
      → frames (forward_frame db now client payload writable store g).1 ≢ []
      → (t : Tunnel) × (u : SocketUser) × (g.sessions client ≡ some t)
        × (g.sockets client ≡ some u)
        × ((check_access db now u.sub t.session store).0 ≡ true)
        × (frames (forward_frame db now client payload writable store g).1 ≡ payload ∷ [])
  unfolding forward_frame
  forward_frame-writes now client payload writable store g h =
      elim (Option-cases (g.sessions client)) [
        | inl e ↦ absurd (ground arith)
        | inr (t, e) ↦ elim (Option-cases (g.sockets client)) [
          | inl e' ↦ absurd (ground arith)
          | inr (u, e') ↦ (t, u, e, e', ground arith, ground arith)
        ]
      ]

  -- What a handled frame shows when something reaches guacd.
  pub handle_data-IsCached :
      (now : ℕ) (client : String) (payload : List ℕ) (writable : Bool) (store : Store db)
      (g : RdpGateway)
      → frames (handle_data db now client payload writable store g).1 ≢ []
      → (t : Tunnel) × (u : SocketUser) × (g.sessions client ≡ some t)
        × (g.sockets client ≡ some u)
        × IsCached db now u t.session store
        × (length payload ≤ max_message_size)
        × (frames (handle_data db now client payload writable store g).1 ≡ payload ∷ [])
  unfolding handle_data
  handle_data-IsCached now client payload writable store g h =
      elim (Bool-cases (ltb max_message_size (length payload))) [
        | inl large ↦ absurd (h (rw (handle_data, large) refl))
        | inr small ↦
            let (t, u, found, known, allowed, sent) =
              forward_frame-writes now client payload writable store g
                (rw (handle_data, small) at h) in
            (
              t,
              u,
              found,
              known,
              check_access-IsCached db now u t.session store allowed,
              ground arith,
              rw (handle_data, small) sent,
            )
      ]
