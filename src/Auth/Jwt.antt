-- ===== src/Auth/Jwt.antt =====
-- The signer of `@nestjs/jwt`, a parameter. Times are in milliseconds, lifetimes in seconds.
use open_bastion.Base.{
  arith, ℕ, ◌+◌, ◌/◌, ◌<◌, ◌≡◌, Bool, Option, none, some, String, if◌then◌else◌, ltb, lt→ltb,
}

-- What the server signs: `AuthService.login`, the step before the OTP, and `RefreshTokenService`.
-- `other` is any other payload under the same secret.
pub data Claims : Type 0 where
  access : String → ℕ → Bool → Claims
  partial : String → Claims
  refresh : String → String → Claims
  other : Claims

pub record Jwt : Type 1 where
  pub Token : Type 0
  -- sign(payload, { expiresIn }) at a time
  pub sign : ℕ → ℕ → Claims → Token
  -- verify(token) at a time: `none` is the exception on a bad signature or an expired token
  pub verify : ℕ → Token → Option Claims
  -- decode(token).exp
  pub expiry : Token → Option ℕ
  -- createHash('sha256').update(token).digest('hex')
  pub hash : Token → String
  -- `iat` and `exp` are whole seconds
  pub verify-sign :
      (now later ttl : ℕ) (c : Claims)
      → later / 1000 < now / 1000 + ttl
      → verify later (sign now ttl c) ≡ some c
  -- the payload is the token's, whenever it is read
  pub verify_same :
      (now later : ℕ) (token : Token) (c d : Claims)
      → verify now token ≡ some c
      → verify later token ≡ some d
      → c ≡ d

-- A signer with no secret, which keeps the time, the lifetime and the payload as they are.
abbrev pub subject : Claims → String
subject (access sub version sudo) = sub
subject (partial sub) = sub
subject (refresh sub jti) = jti
subject other = ""

pub verify_same-plain :
    (later now : ℕ) (t : ℕ × ℕ × Claims) (c d : Claims)
    → (if ltb (now / 1000) (t.0 / 1000 + t.1) then some t.2 else none) ≡ some c
    → (if ltb (later / 1000) (t.0 / 1000 + t.1) then some t.2 else none) ≡ some d
    → c ≡ d
verify_same-plain later now t c d h k = ground arith

abbrev pub plain_jwt : Jwt
plain_jwt = record {
  Token = ℕ × ℕ × Claims;
  sign = λ now ttl c. (now, ttl, c);
  verify = λ later t. if ltb (later / 1000) (t.0 / 1000 + t.1) then some t.2 else none;
  expiry = λ t. some (t.0 / 1000 + t.1);
  hash = λ t. subject t.2;
  verify_same = λ now later t c d h k. verify_same-plain later now t c d h k;
  verify-sign = λ now later ttl c h. rw (lt→ltb (later / 1000) (now / 1000 + ttl) h);
}
