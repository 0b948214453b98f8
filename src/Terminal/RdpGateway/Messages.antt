-- ===== src/Terminal/RdpGateway/Messages.antt =====
-- What the messages and the interval of backend/src/terminal/rdp.gateway.ts do to the sessions.
use open_bastion.Base.{
  Bool, Bool-cases, List, Option-cases, String, arith, inl, inr, is_some, length, ltb, none, not,
  refl, some, true, ℕ, ◌&&◌, ◌≡◌,
}
use open_bastion.Database.{Database}
use open_bastion.Schema.{operator}
use open_bastion.Rbac.{Store, has_access}
use open_bastion.Terminal.SshGateway.{SocketUser}
use open_bastion.Terminal.SshGateway.Traffic.{check_access, is_token_revoked}
use open_bastion.Terminal.SshGateway.Changes.{check_access-renewed}
use open_bastion.Terminal.RdpGateway.{
  RdpGateway, StartRdp, max_message_size, start_tunnel, open_tunnel, poll_tunnel, forward_frame,
  handle_data,
}
use open_bastion.Terminal.RdpGateway.Kept.{
  kept, fresh, IsKept, same_tunnel, put_tunnel, unchanged, guarded_tunnel,
}

module _ (db : Database) where
  abbrev pub Granted : ℕ → Store db → String → String → ℕ → Type 0
  Granted now store user machine t = (t ≡ now) × (has_access db user machine operator store ≡ true)

  forward_frame-IsKept :
      (now : ℕ) (client : String) (payload : List ℕ) (writable : Bool) (store : Store db)
      (g : RdpGateway)
      → IsKept (Granted now store) g (forward_frame db now client payload writable store g).0
  unfolding forward_frame
  forward_frame-IsKept now client payload writable store g =
      elim (Option-cases (g.sessions client)) [
        | inl e ↦ record {
          sockets = λ c u k. ground arith;
          sessions = λ c t there. same_tunnel (Granted now store) g c t (ground arith);
        }
        | inr (tunnel, e) ↦ elim (Option-cases (g.sockets client)) [
          | inl e' ↦ record {
            sockets = λ c u k. ground arith;
            sessions = λ c t there. same_tunnel (Granted now store) g c t (ground arith);
          }
          | inr (u, e') ↦
              let r = check_access db now u.sub tunnel.session store in
              elim (Bool-cases r.0) [
                | inr denied ↦ record {
                  sockets = λ c u k. ground arith;
                  sessions = λ c t there. same_tunnel (Granted now store) g c t (ground arith);
                }
                | inl allowed ↦ record {
                  sockets = λ c u k. ground arith;
                  sessions = λ c t there.
                      put_tunnel (Granted now store) g client c
                        (record tunnel { session = record tunnel.session { access_cache = r.1 } }) t
                        (kept tunnel e refl refl (λ n k.
                          elim (check_access-renewed db now u.sub tunnel.session store n k) [
                            | inl before ↦ inl before
                            | inr now_granted ↦ inr (u, e', now_granted)
                          ]))
                        (ground arith);
                }
              ]
        ]
      ]

  pub handle_data-IsKept :
      (now : ℕ) (client : String) (payload : List ℕ) (writable : Bool) (store : Store db)
      (g : RdpGateway)
      → IsKept (Granted now store) g (handle_data db now client payload writable store g).0
  unfolding handle_data
  handle_data-IsKept now client payload writable store g =
      elim (Bool-cases (ltb max_message_size (length payload))) [
        | inl large ↦ rw (handle_data, large) (unchanged (Granted now store) g)
        | inr small ↦
            rw (handle_data, small) (forward_frame-IsKept now client payload writable store g)
      ]

  pub poll_tunnel-IsKept :
      (now : ℕ) (client : String) (store : Store db) (g : RdpGateway)
      → IsKept (Granted now store) g (poll_tunnel db now client store g).0
  unfolding poll_tunnel
  poll_tunnel-IsKept now client store g = elim (Option-cases (g.sessions client)) [
    | inl e ↦ rw (poll_tunnel, e) (unchanged (Granted now store) g)
    | inr (tunnel, e) ↦ elim (Option-cases (g.sockets client)) [
      | inl e' ↦ rw (poll_tunnel, e, e') (unchanged (Granted now store) g)
      | inr (u, e') ↦
          elim (Bool-cases (
            not (is_token_revoked db u (db.find u.sub store.users))
            && has_access db u.sub tunnel.session.machine_id operator store)) [
              | inr denied ↦ record {
                sockets = λ c u k. ground arith;
                sessions = λ c t there. same_tunnel (Granted now store) g c t (ground arith);
              }
              | inl allowed ↦ record {
                sockets = λ c u k. ground arith;
                sessions = λ c t there.
                    put_tunnel (Granted now store) g client c
                      (record tunnel {
                        session = record tunnel.session { access_cache = some (true, now) };
                      })
                      t (kept tunnel e refl refl (λ n k. inr (u, e', (ground arith, ground arith))))
                      (ground arith);
              }
            ]
    ]
  ]

  open_tunnel-IsKept :
      (granted : String → String → ℕ → Type 0) (now : ℕ) (client : String) (u : SocketUser)
      (r : StartRdp) (g : RdpGateway)
      → g.sockets client ≡ some u
      → IsKept granted g (open_tunnel now client u r g).0
  unfolding open_tunnel
  open_tunnel-IsKept granted now client u r g e =
      elim (Bool-cases (r.recording_enabled && not r.registered)) [
        | inl failed ↦ record {
          sockets = λ c u k. ground arith;
          sessions = λ c t there. same_tunnel granted g c t (ground arith);
        }
        | inr up ↦ record {
          sockets = λ c u k. ground arith;
          sessions = λ c t there.
              put_tunnel granted g client c
                (record {
                  session = record {
                    machine_id = r.machine_id;
                    session_id = client;
                    user_id = u.sub;
                    start_time = now;
                    access_cache = none;
                  };
                  recording = r.recording_enabled;
                })
                t (fresh u e refl refl) (ground arith);
        }
      ]

  pub start_tunnel-IsKept :
      (now : ℕ) (client : String) (r : StartRdp) (store : Store db) (g : RdpGateway)
      → IsKept (Granted now store) g (start_tunnel db now client r store g).0
  unfolding start_tunnel
  start_tunnel-IsKept now client r store g = elim (Option-cases (g.sockets client)) [
    | inl e ↦ rw (start_tunnel, e) (unchanged (Granted now store) g)
    | inr (u, e) ↦
        rw (start_tunnel, e)
          (guarded_tunnel (Granted now store) g (is_some (g.sessions client)) _ _ (
            guarded_tunnel (Granted now store) g
              (not (has_access db u.sub r.machine_id operator store)) _ _
              (guarded_tunnel (Granted now store) g
                (not (is_some (db.find r.machine_id store.machines))) _ _
                (guarded_tunnel (Granted now store) g (not r.is_rdp) _ _ (
                  guarded_tunnel (Granted now store) g (not r.connected) _ _
                    (open_tunnel-IsKept (Granted now store) now client u r g e))))))
  ]
