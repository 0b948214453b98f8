-- ===== src/Auth/Controller/Confirmation.antt =====
-- What a session that handleSudoOidcCallback of backend/src/auth/auth.controller.ts opens proves.
use open_bastion.Base.{
  >>=-eq-ok, Option, Result-cases, String, arith, forbidden, guard, guard-eq-ok, inl, inr, none, ok,
  ok-injective, or_throw, or_throw-eq-ok, refl, same_text, same_text_iff, some, true, unauthorized,
  ℕ, ◌≡◌,
}
use open_bastion.Schema.{User}
use open_bastion.Rbac.{is_admin}
use open_bastion.Auth.Jwt.{access}
use open_bastion.Auth.AuthService.{non_empty}
use open_bastion.Auth.Controller.{Platform, Drawn, World, session}
use open_bastion.Auth.Controller.SingleSignOn.{
  CallbackCookies, handle_sudo_oidc_callback, saved_sudo, confirmed, same_state, saved_id,
}
use open_bastion.Auth.Controller.Unprivileged.{opened}
use open_bastion.Auth.Controller.StepUp.{non_empty_inv}
use open_bastion.Auth.Controller.Trace.{Evidence, HasProved, returns}

saved_id_inv : (o : Option String) (id : String) → saved_id o ≡ some id → o ≡ some id
unfolding saved_id
saved_id_inv none id e = cc
saved_id_inv (some x) id e = ground arith

module _ (p : Platform) where
  saved_sudo-eq_ok :
      (cookies : CallbackCookies) (state verifier provider id : String)
      → saved_sudo p cookies state ≡ ok (verifier, provider, id)
      → (cookies.sudo.state ≡ some state)
        × (cookies.sudo.provider_id ≡ some provider)
        × (cookies.sudo_user_id ≡ some id)
  unfolding saved_sudo
  saved_sudo-eq_ok cookies state verifier provider id h =
      let (_, g1, h1) = >>=-eq-ok (guard (same_state cookies.sudo.state state) unauthorized) _ h in
      let (x, g2, h2) =
        >>=-eq-ok (or_throw (non_empty cookies.sudo.code_verifier) unauthorized) _ h1 in
      let (y, g3, h3) =
        >>=-eq-ok (or_throw (saved_id cookies.sudo.provider_id) unauthorized) _ h2 in
      let (z, g4, h4) = >>=-eq-ok (or_throw (saved_id cookies.sudo_user_id) unauthorized) _ h3 in
      let same : y ≡ provider = cc in
      let same_id : z ≡ id = cc in
      (
        non_empty_inv cookies.sudo.state state (
            (same_text_iff (non_empty cookies.sudo.state) state).0
              (guard-eq-ok (same_state cookies.sudo.state state) unauthorized g1)),
        rw same at (
            saved_id_inv cookies.sudo.provider_id y
              (or_throw-eq-ok (saved_id cookies.sudo.provider_id) unauthorized g3)),
        rw same_id at (
            saved_id_inv cookies.sudo_user_id z
              (or_throw-eq-ok (saved_id cookies.sudo_user_id) unauthorized g4)),
      )

  confirmed-eq_ok :
      (claims : Option String) (id : String) (w : World p) (user : User)
      → confirmed p claims id w ≡ ok user
      → (sub : String) × (claims ≡ some sub)
        × (p.db.find id w.users ≡ some user)
        × (is_admin user.role ≡ true)
        × (user.external_id ≡ some sub)
  unfolding confirmed
  confirmed-eq_ok claims id w user h =
      let (sub, g1, h1) = >>=-eq-ok (or_throw claims unauthorized) _ h in
      let (found, g2, h2) = >>=-eq-ok (or_throw (p.db.find id w.users) unauthorized) _ h1 in
      let (_, g3, h3) = >>=-eq-ok (guard (is_admin found.role) forbidden) _ h2 in
      let (_, g4, h4) = >>=-eq-ok (guard (same_text found.external_id (some sub)) forbidden) _ h3 in
      let same : found ≡ user = ok-injective h4 in
      (
        sub,
        or_throw-eq-ok claims unauthorized g1,
        rw same at (or_throw-eq-ok (p.db.find id w.users) unauthorized g2),
        rw same at (guard-eq-ok (is_admin found.role) forbidden g3),
        rw same at (
            (same_text_iff found.external_id sub).0
              (guard-eq-ok (same_text found.external_id (some sub)) forbidden g4)),
      )

module _ (p : Platform) (later : ℕ) (sub : String) (v : ℕ) (t r : p.jwt.Token)
    (genuine : p.jwt.verify later t ≡ some (access sub v true)) where
  pub callback_proved :
      (d : Drawn) (cookies : CallbackCookies) (state url : String) (w : World p)
      → (handle_sudo_oidc_callback p d cookies state url w).1 ≡ ok (session t r)
      → HasProved p (record { drawn = d; call = returns cookies (some state) url; world = w }) sub
  unfolding handle_sudo_oidc_callback
  callback_proved d cookies state url w h = elim (Result-cases (saved_sudo p cookies state)) [
    | inl (why, e) ↦ cc (rw (handle_sudo_oidc_callback, e) at h)
    | inr ((verifier, provider, id), e) ↦
        elim (Result-cases (
          confirmed p
            (p.oidc.verify_callback_claims provider url state cookies.sudo.nonce verifier
              w.providers)
            id w)) [
              | inl (why, f) ↦ cc (rw (handle_sudo_oidc_callback, e, f) at h)
              | inr (user, f) ↦
                  let (asked, chosen, _) =
                    saved_sudo-eq_ok p cookies state verifier provider id e in
                  let (who, claimed, known, privileged, theirs) =
                    confirmed-eq_ok p
                      (p.oidc.verify_callback_claims provider url state cookies.sudo.nonce verifier
                        w.providers)
                      id w user f in
                  let (same, _, _) =
                    opened p later sub v t r genuine d id user true w
                      (rw (handle_sudo_oidc_callback, e, f) at h) in
                  record {
                    user = user;
                    known = rw (← same) known;
                    privileged = privileged;
                    evidence =
                        Evidence.by_provider cookies state url provider verifier who refl asked
                          chosen claimed theirs;
                  }
            ]
  ]
