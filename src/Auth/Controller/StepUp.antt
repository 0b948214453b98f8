-- ===== src/Auth/Controller/StepUp.antt =====
-- What a session that `sudo` of backend/src/auth/auth.controller.ts opens in the admin mode proves.
use open_bastion.Base.{
  Bool, Bool-cases, Option, Option-cases, String, ap, arith, eq_iff, false, get_or, inl, inr,
  length, none, ok, refl, some, true, ℕ, ◌==◌, ◌=s=◌, ◌≡◌,
}
use open_bastion.Schema.{User, AuthMethod, local, ldap, oidc}
use open_bastion.Rbac.{is_admin}
use open_bastion.Auth.Jwt.{access}
use open_bastion.Auth.AuthService.{non_empty}
use open_bastion.Auth.Identity.{Lookup, bound, refused, unsettled}
use open_bastion.Auth.Guards.{RequestUser}
use open_bastion.Auth.Controller.{Platform, Drawn, World, Cookie, session, open_session}
use open_bastion.Auth.Controller.Sessions.{after_otp-eq_ok, guarded-eq_ok, coded}
use open_bastion.Auth.Controller.Sudo.{
  SudoDto, sudo, sudo_body, sudo_by, sudo_code, sudo_local, sudo_ldap, rebind, on_rebound,
  ldap_identifier,
}
use open_bastion.Auth.Controller.Unprivileged.{opened}
use open_bastion.Auth.Controller.Trace.{Evidence, HasProved, steps_up}

pub non_empty_inv : (o : Option String) (x : String) → non_empty o ≡ some x → o ≡ some x
non_empty_inv none x e = cc
non_empty_inv (some y) x e = ground arith

module _ (p : Platform) (later : ℕ) (sub : String) (v : ℕ) (t r : p.jwt.Token)
    (genuine : p.jwt.verify later t ≡ some (access sub v true)) where
  sudo_code_proved :
      (d : Drawn) (cookie : Cookie p) (id : String) (user : User) (body : SudoDto) (w : World p)
      → user.is_otp_enabled ≡ true
      → (sudo_code p d id user body.code w).1 ≡ ok (session t r)
      → Evidence p (record { drawn = d; call = steps_up cookie body; world = w }) id user
        × (id ≡ sub)
  unfolding sudo_code
  sudo_code_proved d cookie id user body w otp h = elim (Option-cases body.code) [
    | inl e ↦ cc (rw (sudo_code, e) at h)
    | inr (code, e) ↦ elim (Bool-cases (length code == 0)) [
      | inl z ↦ cc (rw (sudo_code, e, z) at h)
      | inr z ↦
          let (verified, end) =
            after_otp-eq_ok p d id code (open_session p d id user true) w (session t r)
              (rw (sudo_code, e, z) at h) in
          (
            Evidence.by_code cookie body code refl e otp verified,
            (opened p later sub v t r genuine d id user true (coded p d id code w) end).0,
          )
    ]
  ]

  sudo_local_proved :
      (d : Drawn) (cookie : Cookie p) (id : String) (user : User) (body : SudoDto) (w : World p)
      → user.auth_method ≡ local
      → (sudo_local p d id user body.password w).1 ≡ ok (session t r)
      → Evidence p (record { drawn = d; call = steps_up cookie body; world = w }) id user
        × (id ≡ sub)
  unfolding sudo_local
  sudo_local_proved d cookie id user body w is_local h =
      elim (Option-cases (non_empty body.password)) [
        | inl e ↦ cc (rw (sudo_local, e) at h)
        | inr (pass, e) ↦ elim (Option-cases (non_empty user.password_hash)) [
          | inl f ↦ cc (rw (sudo_local, e, f) at h)
          | inr (hash, f) ↦ elim (Bool-cases (p.argon2.verify hash pass)) [
            | inr z ↦ cc (rw (sudo_local, e, f, z) at h)
            | inl z ↦ (
              Evidence.by_password cookie body pass hash refl (non_empty_inv body.password pass e)
                  is_local (non_empty_inv user.password_hash hash f) z,
              (opened p later sub v t r genuine d id user true w (rw (sudo_local, e, f, z) at h)).0,
            )
          ]
        ]
      ]

  on_rebound_proved :
      (d : Drawn) (id : String) (user : User) (answer : Lookup) (w : World p)
      → (on_rebound p d id user answer w).1 ≡ ok (session t r)
      → ((found : User) × (answer ≡ bound id found)) × (id ≡ sub)
  unfolding on_rebound
  on_rebound_proved d id user (bound bound_id found) w h = elim (Bool-cases (bound_id =s= id)) [
    | inl e ↦ (
      (found, ap (λ x. bound x found) ((eq_iff bound_id id).0 e)),
      (opened p later sub v t r genuine d id user true w (rw (on_rebound, e) at h)).0,
    )
    | inr e ↦ cc (rw (on_rebound, e) at h)
  ]
  on_rebound_proved d id user refused w h = cc
  on_rebound_proved d id user unsettled w h = cc

  rebind_proved :
      (d : Drawn) (id : String) (user : User) (provider identifier pass : String) (w : World p)
      → (rebind p d id user provider identifier pass w).1 ≡ ok (session t r)
      → ((found : User) × ((p.ldap.authenticate d.fresh provider identifier pass w.providers
              w.users).1
            ≡ bound id found))
        × (id ≡ sub)
  unfolding rebind
  rebind_proved d id user provider identifier pass w h =
      on_rebound_proved d id user
        (p.ldap.authenticate d.fresh provider identifier pass w.providers w.users).1
        (record w {
          users = (p.ldap.authenticate d.fresh provider identifier pass w.providers w.users).0;
        })
        h

  sudo_ldap_proved :
      (d : Drawn) (cookie : Cookie p) (id : String) (user : User) (body : SudoDto) (w : World p)
      → user.auth_method ≡ ldap
      → (sudo_ldap p d id user body.password w).1 ≡ ok (session t r)
      → Evidence p (record { drawn = d; call = steps_up cookie body; world = w }) id user
        × (id ≡ sub)
  unfolding sudo_ldap
  sudo_ldap_proved d cookie id user body w is_ldap h =
      elim (Option-cases (non_empty body.password)) [
        | inl e ↦ cc (rw (sudo_ldap, e) at h)
        | inr (pass, e) ↦ elim (Option-cases (non_empty user.auth_provider_id)) [
          | inl f ↦ cc (rw (sudo_ldap, e, f) at h)
          | inr (provider, f) ↦ elim (Option-cases (ldap_identifier user)) [
            | inl g ↦ cc (rw (sudo_ldap, e, f, g) at h)
            | inr (identifier, g) ↦
                let ((found, answered), same) =
                  rebind_proved d id user provider identifier pass w
                    (rw (sudo_ldap, e, f, g) at h) in
                let named = non_empty_inv (some (get_or user.username user.email)) identifier g in
                (
                  Evidence.by_directory cookie body pass provider identifier found refl
                      (non_empty_inv body.password pass e) is_ldap
                      (non_empty_inv user.auth_provider_id provider f) (cc named) answered,
                  same,
                )
          ]
        ]
      ]

  sudo_by_proved :
      (d : Drawn) (cookie : Cookie p) (id : String) (user : User) (body : SudoDto) (w : World p)
      (otp : Bool) (method : AuthMethod)
      → user.is_otp_enabled ≡ otp
      → user.auth_method ≡ method
      → (sudo_by p d id user body otp method w).1 ≡ ok (session t r)
      → Evidence p (record { drawn = d; call = steps_up cookie body; world = w }) id user
        × (id ≡ sub)
  unfolding sudo_by
  sudo_by_proved d cookie id user body w true method e m h =
      sudo_code_proved d cookie id user body w e h
  sudo_by_proved d cookie id user body w false local e m h =
      sudo_local_proved d cookie id user body w m h
  sudo_by_proved d cookie id user body w false ldap e m h =
      sudo_ldap_proved d cookie id user body w m h
  sudo_by_proved d cookie id user body w false oidc e m h = cc

  sudo_body_proved :
      (d : Drawn) (cookie : Cookie p) (body : SudoDto) (u : RequestUser) (w : World p)
      → (sudo_body p d body u w).1 ≡ ok (session t r)
      → HasProved p (record { drawn = d; call = steps_up cookie body; world = w }) sub
  unfolding sudo_body
  sudo_body_proved d cookie body u w h = elim (Option-cases (p.db.find u.sub w.users)) [
    | inl e ↦ cc (rw (sudo_body, e) at h)
    | inr (user, e) ↦ elim (Bool-cases (is_admin user.role)) [
      | inr f ↦ cc (rw (sudo_body, e, f) at h)
      | inl f ↦
          let (evidence, same) =
            sudo_by_proved d cookie u.sub user body w user.is_otp_enabled user.auth_method refl refl
              (rw (sudo_body, e, f) at h) in
          record {
            user = user;
            known = rw (← same) e;
            privileged = f;
            evidence = rw (← same) evidence;
          }
    ]
  ]

  pub sudo_proved :
      (d : Drawn) (cookie : Cookie p) (body : SudoDto) (w : World p)
      → (sudo p d cookie body w).1 ≡ ok (session t r)
      → HasProved p (record { drawn = d; call = steps_up cookie body; world = w }) sub
  unfolding sudo
  sudo_proved d cookie body w h =
      let (u, _, k) =
        guarded-eq_ok p d "POST" "/auth/sudo" cookie (sudo_body p d body) w (session t r) h in
      sudo_body_proved d cookie body u w k
