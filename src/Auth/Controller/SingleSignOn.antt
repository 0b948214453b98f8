-- ===== src/Auth/Controller/SingleSignOn.antt =====
-- backend/src/auth/auth.controller.ts: the routes through an OIDC provider, for a login and for the
-- admin mode. `state`, `nonce` and `code_verifier` of a start are what it draws; `url` is the
-- address that the provider sent the browser back to.
use Prim.Native.Char.{code}
use Prim.Native.String.{◌++◌ as append}
use open_bastion.Base.{
  Bool, Option, Result, String, err, false, forbidden, guard, if◌then◌else◌, is_some, leb, none,
  not, ok, or_throw, same_text, some, suc, true, unauthorized, zero, ℕ, ◌&&◌, ◌==◌, ◌=s=◌, ◌>>=◌,
  ◌>>◌, ◌||◌,
}
use open_bastion.Schema.{User, oidc}
use open_bastion.Rbac.{is_admin}
use open_bastion.Users.{method_eq}
use open_bastion.Auth.AuthService.{non_empty}
use open_bastion.Auth.Guards.{RequestUser}
use open_bastion.Auth.Controller.{
  Platform, Drawn, Handshake, World, Outcome, Cookie, guarded, open_session, hand_over,
  sudo_hand_over,
}

-- `/^[0-9a-fA-F-]{36}$/`
abbrev pub is_id_char : ℕ → Bool
is_id_char c =
    leb b'0' c && leb c b'9' || leb b'a' c && leb c b'f' || leb b'A' c && leb c b'F' || c == b'-'

unfoldable pub is_id_text : ℕ → String → Bool
is_id_text zero String.[] = true
is_id_text (suc n) (String.◌∷◌ c s) = is_id_char (code c) && is_id_text n s
is_id_text _ _ = false

-- A cookie that holds such an id.
unfoldable pub saved_id : Option String → Option String
unfolding is_id_text
saved_id none = none
saved_id (some id) = if is_id_text 36 id then some id else none

-- What the callback reads of the cookies: `oidc_*`, `sudo_oidc_*` and `sudo_oidc_user_id`.
pub record CallbackCookies : Type 0 where
  pub login : Handshake
  pub sudo : Handshake
  pub sudo_user_id : Option String

-- What a start draws.
pub record Challenge : Type 0 where
  pub state : String
  pub nonce : String
  pub code_verifier : String

-- `!saved || saved !== state` is false.
abbrev pub same_state : Option String → String → Bool
same_state saved state = same_text (non_empty saved) (some state)

module _ (p : Platform) where
  -- The cookies that a start sets are its challenge, with the provider (and the user).
  unfoldable pub oidc_login_for_provider : String → Challenge → World p → Outcome p
  oidc_login_for_provider provider c w = (
    w,
    elim (p.oidc.get_authorization_url provider c.state c.nonce c.code_verifier false w.providers) [
      | none ↦ err unauthorized
      | some url ↦ ok (hand_over url)
    ],
  )

  -- The checks of `sudoOidcStart` on the row of the caller.
  unfoldable pub may_start_sudo : String → Option User → Result (Unit {0})
  may_start_sudo provider found = do
    user ← or_throw found forbidden
    guard (method_eq user.auth_method oidc && is_some (non_empty user.external_id)) forbidden
    guard (same_text user.auth_provider_id (some provider)) forbidden

  unfoldable pub start_sudo_as : String → Challenge → RequestUser → World p → Outcome p
  unfolding may_start_sudo
  start_sudo_as provider c u w = (
    w,
    (do
      guard (is_admin u.role) forbidden
      may_start_sudo provider (p.db.find u.sub w.users)
      url ←
          or_throw
            (p.oidc.get_authorization_url provider c.state c.nonce c.code_verifier true w.providers)
            unauthorized
      ok (sudo_hand_over url)),
  )

  unfoldable pub sudo_oidc_start : Drawn → Cookie p → String → Challenge → World p → Outcome p
  unfolding guarded start_sudo_as
  sudo_oidc_start d cookie provider c =
      guarded p d "GET" (append "/auth/sudo/oidc/" (append provider "/start")) cookie
        (start_sudo_as provider c)

  -- The checks of `handleSudoOidcCallback` before the provider is asked: the verifier, the
  -- provider and the user.
  unfoldable pub saved_sudo : CallbackCookies → String → Result (String × String × String)
  unfolding saved_id
  saved_sudo cookies state = do
    guard (same_state cookies.sudo.state state) unauthorized
    verifier ← or_throw (non_empty cookies.sudo.code_verifier) unauthorized
    provider ← or_throw (saved_id cookies.sudo.provider_id) unauthorized
    user ← or_throw (saved_id cookies.sudo_user_id) unauthorized
    ok (verifier, provider, user)

  -- The checks on the verified `sub` and the row of the user.
  unfoldable pub confirmed : Option String → String → World p → Result User
  confirmed claims id w = do
    sub ← or_throw claims unauthorized
    user ← or_throw (p.db.find id w.users) unauthorized
    guard (is_admin user.role) forbidden
    guard (same_text user.external_id (some sub)) forbidden
    ok user

  unfoldable pub handle_sudo_oidc_callback :
      Drawn → CallbackCookies → String → String → World p → Outcome p
  unfolding saved_sudo confirmed
  handle_sudo_oidc_callback d cookies state url w = elim (saved_sudo cookies state) [
    | err e ↦ (w, err e)
    | ok (verifier, provider, id) ↦
        elim (confirmed
          (p.oidc.verify_callback_claims provider url state cookies.sudo.nonce verifier w.providers)
          id w) [ err e ↦ (w, err e) | ok user ↦ open_session p d id user true w ]
  ]

  -- The checks of the login branch before the provider is asked.
  unfoldable pub saved_login : CallbackCookies → String → Result (String × String)
  unfolding saved_id
  saved_login cookies state = do
    guard (same_state cookies.login.state state) unauthorized
    verifier ← or_throw (non_empty cookies.login.code_verifier) unauthorized
    provider ← or_throw (saved_id cookies.login.provider_id) unauthorized
    ok (verifier, provider)

  unfoldable pub callback_login : Drawn → CallbackCookies → String → String → World p → Outcome p
  unfolding saved_login
  callback_login d cookies state url w = elim (saved_login cookies state) [
    | err e ↦ (w, err e)
    | ok (verifier, provider) ↦
        let (users', found) =
          p.oidc.validate_callback d.fresh provider url state cookies.login.nonce verifier
            w.providers w.users in
        let w' : World p = record w { users = users' } in
        (elim found [
          | none ↦ (w', err unauthorized)
          | some (id, user) ↦ open_session p d id user false w'
        ])
  ]

  -- Which hand-over a callback belongs to.
  abbrev pub is_sudo_callback : CallbackCookies → String → Bool
  is_sudo_callback cookies state = elim (non_empty cookies.sudo.state) [
    | none ↦ false
    | some saved ↦ saved =s= state || not (is_some (non_empty cookies.login.state))
  ]

  -- `none`: the address has no `state`, or several.
  unfoldable pub oidc_callback :
      Drawn → CallbackCookies → Option String → String → World p → Outcome p
  unfolding handle_sudo_oidc_callback callback_login
  oidc_callback d cookies none url w = (w, err unauthorized)
  oidc_callback d cookies (some state) url w =
      if is_sudo_callback cookies state
      then handle_sudo_oidc_callback d cookies state url w
      else callback_login d cookies state url w
