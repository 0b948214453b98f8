-- ===== src/Auth/Controller/Elevation.antt =====
-- No token with the admin mode without a proof: a run of calls to the routes of
-- backend/src/auth/auth.controller.ts.
use open_bastion.Base.{
  List, Memᴰ, Result, String, [], ap, err, inl, inr, ok, refl, some, sym, true, ℕ, ◌++◌, ◌≡◌, ◌⊎◌,
}
use open_bastion.Auth.Jwt.{access}
use open_bastion.Auth.Controller.{
  Platform, Reply, session, message, requires_otp, unanswered, hand_over, sudo_hand_over,
}
use open_bastion.Auth.Controller.Steps.{run_proved}
use open_bastion.Auth.Controller.Trace.{run, issued_by, Event, HasProved, Reach, start, call}

module _ (p : Platform) where
  mem_issued :
      (reply : Result (Reply p)) (token : p.jwt.Token) (rest : List p.jwt.Token)
      → Memᴰ token (issued_by p reply ++ rest)
      → ((refresh : p.jwt.Token) × (reply ≡ ok (session token refresh))) ⊎ Memᴰ token rest
  mem_issued (ok (session new refresh)) token rest (Memᴰ.head e) =
      inl (refresh, ap (λ x. ok (session x refresh)) (sym e))
  mem_issued (ok (session new refresh)) token rest (Memᴰ.tail m) = inr m
  mem_issued (ok (requires_otp temp)) token rest m = inr m
  mem_issued (ok message) token rest m = inr m
  mem_issued (ok unanswered) token rest m = inr m
  mem_issued (ok (hand_over url)) token rest m = inr m
  mem_issued (ok (sudo_hand_over url)) token rest m = inr m
  mem_issued (err why) token rest m = inr m

  -- In any run of calls in which no cookie is forged, whatever else changes the tables in between,
  -- an issued access token with the admin mode of a user was preceded by a call that proved that
  -- user's identity while they were an administrator: by a valid one-time code, the local password,
  -- a bind of the same account at its directory, or an OIDC login with the account's external id.
  pub elevated_was_proved :
      (events : List (Event p)) (issued : List p.jwt.Token) (token : p.jwt.Token)
      (later version : ℕ) (sub : String)
      → Reach p events issued
      → Memᴰ token issued
      → p.jwt.verify later token ≡ some (access sub version true)
      → (e : Event p) × Memᴰ e events × HasProved p e sub
  elevated_was_proved [] [] token later version sub start m h = elim m [ ]
  elevated_was_proved events issued token later version sub
        (call {events = earlier} {issued = old} d c w before honest) m h =
      elim (mem_issued (run p d c w).1 token old m) [
        | inr m' ↦
            let (e, at, proved) =
              elevated_was_proved earlier old token later version sub before m' h in
            (e, Memᴰ.tail at, proved)
        | inl (refresh, opens) ↦ elim (run_proved p later sub version token refresh h d c w opens) [
          | inl proved ↦ (record { drawn = d; call = c; world = w }, Memᴰ.head refl, proved)
          | inr (cookie, version', presented, genuine) ↦
              let (e, at, proved) =
                elevated_was_proved earlier old cookie d.now version' sub before
                  (honest cookie (access sub version' true) presented genuine) genuine in
              (e, Memᴰ.tail at, proved)
        ]
      ]
