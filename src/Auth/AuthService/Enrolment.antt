-- ===== src/Auth/AuthService/Enrolment.antt =====
-- How backend/src/auth/auth.service.ts turns one-time codes on and off.
use open_bastion.Base.{
  >>=-eq-ok, List, Result, String, ap, arith, bad_request, eq_iff, eq_refl, err, false, none, ok,
  ok-injective, or_throw, or_throw-eq-ok, refl, set_key, some, subst, sym, true, ℕ, ◌∙◌, ◌≡◌, ◌≢◌,
}
use Prim.Native.String.{◌++◌ as append}
use open_bastion.Database.{Database}
use open_bastion.Schema.{User}
use open_bastion.Vault.{Vault}
use open_bastion.Auth.Totp.{Hmac, verify_with_counter}
use open_bastion.Auth.Totp.Window.{IsMatch, verify_with_counter-IsMatch}
use open_bastion.Auth.AuthService.{
  Service, non_empty, check_pending, enable_otp, enabled_row, open_secret,
}
use open_bastion.Auth.AuthService.Replay.{IsSpent, accepted-IsSpent}

module _ (db : Database) (vault : Vault) (hmac_sha1 : Hmac) where
  pub record Pending (now : ℕ) (user : String) (code : List ℕ) (s : Service db) (found : User)
      (raw : String) (counter : ℕ) : Type 0 where
    pub known : db.find user s.users ≡ some found
    pub pending : String
    pub stored : non_empty found.pending_otp_secret ≡ some pending
    pub opened : vault.decrypt pending (append "otp-pending:" user) ≡ some raw
    pub match : IsMatch hmac_sha1 now code raw counter

  check_pending-Pending :
      (now : ℕ) (user : String) (code : List ℕ) (s : Service db) (found : User) (raw : String)
      (counter : ℕ)
      → check_pending db vault hmac_sha1 now user code s ≡ ok (found, raw, counter)
      → Pending now user code s found raw counter
  unfolding check_pending
  check_pending-Pending now user code s found raw counter h =
      let (found', h0, r0) = >>=-eq-ok (or_throw (db.find user s.users) bad_request) _ h in
      let (pending, h1, r1) =
        >>=-eq-ok (or_throw (non_empty found'.pending_otp_secret) bad_request) _ r0 in
      let (raw', h2, r2) =
        >>=-eq-ok (or_throw (vault.decrypt pending (append "otp-pending:" user)) bad_request) _
          r1 in
      let (matched, h3, r3) = >>=-eq-ok (verify_with_counter hmac_sha1 now code raw' none) _ r2 in
      let (counter', h4, r4) = >>=-eq-ok (or_throw matched bad_request) _ r3 in
      let seen =
        subst (λ m. verify_with_counter hmac_sha1 now code raw' none ≡ ok m)
          (or_throw-eq-ok matched bad_request h4) h3 in
      let made : Pending now user code s found' raw' counter' = record {
        known = or_throw-eq-ok (db.find user s.users) bad_request h0;
        pending = pending;
        stored = or_throw-eq-ok (non_empty found'.pending_otp_secret) bad_request h1;
        opened = or_throw-eq-ok (vault.decrypt pending (append "otp-pending:" user)) bad_request h2;
        match = (verify_with_counter-IsMatch hmac_sha1 now code raw' none counter' seen).0;
      } in
      let same : (found', raw', counter') ≡ (found, raw, counter) = ok-injective r4 in
      subst (λ (q : User × String × ℕ). Pending now user code s q.0 q.1 q.2) same made

  -- The row is the old one but for three fields: the flag is set, what is stored opens to the
  -- secret under the name of the codes in force, and nothing is pending.
  abbrev pub IsEnabled : String → String → User → db.State User → Type 0
  IsEnabled user raw found users =
      (stored : String) × (db.find user users
        ≡ some (record found {
          is_otp_enabled = true;
          otp_secret = some stored;
          pending_otp_secret = none;
        }))
      × (open_secret db vault hmac_sha1 user stored ≡ (raw, false))

  -- Codes are turned on only with a code of the pending secret, read from the row of the user. Then
  -- the row is as it was, but that codes are on, what is stored as their secret opens to that
  -- secret, and nothing is pending; the code's step is spent, and no other user's row changes.
  pub enable_otp-opens :
      (now : ℕ) (user vector : String) (code : List ℕ) (s s' : Service db)
      → enable_otp db vault hmac_sha1 now user vector code s ≡ (s', ok tt)
      → (found : User) × (raw : String) × (c : ℕ) × Pending now user code s found raw c
        × IsEnabled user raw found s'.users
        × IsSpent db vault hmac_sha1 user c now s'.otp_last_counter
        × ((other : String) → other ≢ user → db.find other s'.users ≡ db.find other s.users)
  unfolding enable_otp open_secret
  enable_otp-opens now user vector code s s' h =
      go (check_pending db vault hmac_sha1 now user code s) refl
    where
      go :
          (c : Result (User × String × ℕ))
          → check_pending db vault hmac_sha1 now user code s ≡ c
          → (found : User) × (raw : String) × (c : ℕ) × Pending now user code s found raw c
            × IsEnabled user raw found s'.users
            × IsSpent db vault hmac_sha1 user c now s'.otp_last_counter
            × ((other : String) → other ≢ user → db.find other s'.users ≡ db.find other s.users)
      go (err e) k = ground (arith)
      go (ok (found, raw, c)) k =
          let v = check_pending-Pending now user code s found raw c k in
          let after : Service db = record s {
            users = db.put user (enabled_row db vault hmac_sha1 user vector raw found) s.users;
            otp_last_counter = set_key user (c, now) s.otp_last_counter;
          } in
          let step : enable_otp db vault hmac_sha1 now user vector code s ≡ (after, ok tt) =
            rw (k, enable_otp) refl in
          let e : after ≡ s' = ap (λ (q : Service db × Result (Unit {0})). q.0) (sym step ∙ h) in
          (
            found,
            raw,
            c,
            v,
            (
              vault.encrypt vector raw (append "otp:" user),
              ap (λ t. db.find user t.users) (sym e)
                  ∙ (db.find-put user user (enabled_row db vault hmac_sha1 user vector raw found)
                        s.users
                      ∙ ground (arith, eq_refl user)),
              rw (vault.decrypt-encrypt vector raw (append "otp:" user), open_secret) refl,
            ),
            subst (λ t. IsSpent db vault hmac_sha1 user c now t.otp_last_counter) e
                (accepted-IsSpent db vault hmac_sha1 user c now code raw s.otp_last_counter
                  v.match),
            λ other away.
                ap (λ t. db.find other t.users) (sym e)
                ∙ (db.find-put other user (enabled_row db vault hmac_sha1 user vector raw found)
                      s.users
                    ∙ ground (arith, eq_iff user other)),
          )
