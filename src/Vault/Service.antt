-- ===== src/Vault/Service.antt =====
-- backend/src/vault/vault.service.ts over node:crypto: AES-256-GCM under a key that HKDF derives
-- from the master key and the context. Wiping the key from memory is left out.
pub mod Segments
pub mod RoundTrip
pub mod Refinement
use Prim.Native.Char.{Char, code}
use Prim.Native.String.{◌++◌ as append}
use open_bastion.Base.{
  >>=-eq-ok, Bool, Bool-cases, Dict, HttpException, List, Memᴰ, Option, Option-cases, Result,
  Result-cases, String, [], all, any, any-mem, ap, arith, bad_request, conflict, delete_key, drop,
  empty_dict, eq_iff, eq_refl, err, false, forbidden, get_or, guard, guard-eq-ok, head_of, if_false,
  if_true, if◌then◌else◌, inl, inr, internal_server_error, is_some, is_white_space, leb, length,
  length-append, ltb, ltb→lt, lt→ltb, map, max, mem_cons_cases, mem_of_any, min, none, not,
  not_found, ok, ok-injective, or_throw, or_throw-eq-ok, refl, same_text, same_text_iff, set_key,
  some, str_eq, subst, suc, sym, take, true, unauthorized, zero, zero-cases, ℕ, ◌%◌, ◌&&◌, ◌*◌,
  ◌++◌, ◌+◌, ◌-◌, ◌/◌, ◌<◌, ◌==◌, ◌=s=◌, ◌>>=◌, ◌>>◌, ◌^◌, ◌||◌, ◌↔◌, ◌∙◌, ◌∷◌, ◌≡◌, ◌≢◌, ◌≤◌, ◌⊎◌,
}

abbrev pub push_char : Char → List String → List String
push_char c [] = []
push_char c (s ∷ ss) = String.◌∷◌ c s ∷ ss

-- `text.split(':')`
unfoldable pub split_colon : String → List String
split_colon String.[] = "" ∷ []
split_colon (String.◌∷◌ c s) =
    let rest = split_colon s in if code c == 58 then "" ∷ rest else push_char c rest

unfoldable pub lacks_colon : String → Bool
lacks_colon String.[] = true
lacks_colon (String.◌∷◌ c s) = not (code c == 58) && lacks_colon s

-- What node:crypto and Buffer do: `to_hex` and `from_hex` are the hexadecimal encoding, `hkdf`
-- derives from the master key, the salt and the context, `utf8` is the encoding of a text; `seal` gives the encrypted text in
-- hexadecimal and the tag of 16 bytes for a key, a vector, a context as additional data and a text,
-- and `unseal` what decryption gives for a key, a vector, a context, a tag and an encrypted text,
-- where `none` is an exception.
pub record Crypto : Type 1 where
  pub Buffer : Type 0
  pub size : Buffer → ℕ
  pub to_hex : Buffer → String
  pub from_hex : String → Buffer
  pub utf8 : String → Buffer
  pub hkdf : Buffer → Buffer → String → Buffer
  pub seal : Buffer → Buffer → String → String → String × Buffer
  pub unseal : Buffer → Buffer → String → Buffer → String → Option String
  pub from_hex-to_hex : (b : Buffer) → from_hex (to_hex b) ≡ b
  pub size-from_hex : size (from_hex "") ≡ 0
  pub lacks_colon-to_hex : (b : Buffer) → lacks_colon (to_hex b) ≡ true
  pub lacks_colon-seal :
      (key iv : Buffer) (context text : String) → lacks_colon (seal key iv context text).0 ≡ true
  pub size-seal : (key iv : Buffer) (context text : String) → size (seal key iv context text).1 ≡ 16
  pub unseal-seal :
      (key iv : Buffer) (context text : String)
      → size iv ≡ 12
      → unseal key iv context (seal key iv context text).1 (seal key iv context text).0 ≡ some text

abbrev pub auth_tag_length : ℕ
auth_tag_length = 16

-- `/^[0-9a-fA-F]+$/`, but for the length.
unfoldable pub is_hex_text : String → Bool
is_hex_text String.[] = true
is_hex_text (String.◌∷◌ c s) =
    (leb 48 (code c) && leb (code c) 57
      || leb 65 (code c) && leb (code c) 70
      || leb 97 (code c) && leb (code c) 102)
    && is_hex_text s

-- `length`, in UTF-16 code units.
unfoldable pub text_length : String → ℕ
text_length String.[] = 0
text_length (String.◌∷◌ c s) = (if ltb (code c) 0x10000 then 1 else 2) + text_length s

-- `toLowerCase`, which is asked of hexadecimal digits only.
abbrev pub lower_code : Char → ℕ
lower_code c = if leb 65 (code c) && leb (code c) 90 then code c + 32 else code c

-- `keyHex.toLowerCase() === KNOWN_EXAMPLE_KEY`
unfoldable pub same_lowered : String → String → Bool
same_lowered String.[] String.[] = true
same_lowered (String.◌∷◌ c s) (String.◌∷◌ d t) = lower_code c == code d && same_lowered s t
same_lowered _ _ = false

abbrev pub known_example_key : String
known_example_key = "a3f1c2e4b5d6a7b8c9d0e1f2a3b4c5d6e7f8a9b0c1d2e3f4a5b6c7d8e9f0a1b2"

module _ (crypto : Crypto) where
  pub record VaultService : Type 0 where
    pub master_key : crypto.Buffer
    pub salt : crypto.Buffer

  -- The constructor, of VAULT_KEY and VAULT_SALT.
  unfoldable pub construct : String → String → Result VaultService
  unfolding text_length is_hex_text same_lowered
  construct key_hex salt_raw =
      if ltb (text_length salt_raw) 16
      then err internal_server_error
      else if not (text_length key_hex == 64 && is_hex_text key_hex)
      then err internal_server_error
      else if same_lowered key_hex known_example_key
      then err internal_server_error
      else ok (record {
        master_key = crypto.from_hex key_hex;
        salt = (if is_hex_text salt_raw then crypto.from_hex salt_raw else crypto.utf8 salt_raw);
      })

  unfoldable pub derive_key : VaultService → String → crypto.Buffer
  derive_key service context = crypto.hkdf service.master_key service.salt context

  -- `${iv}:${encrypted}:${tag}`
  abbrev pub joined : String → String → String → String
  joined iv encrypted tag = append iv (append ":" (append encrypted (append ":" tag)))

  -- The vector is drawn.
  unfoldable pub encrypt : VaultService → crypto.Buffer → String → String → Result String
  unfolding derive_key
  encrypt service iv text context =
      let sealed = crypto.seal (derive_key service context) iv context text in
      if not (crypto.size sealed.1 == auth_tag_length)
      then err internal_server_error
      else ok (joined (crypto.to_hex iv) sealed.0 (crypto.to_hex sealed.1))

  -- The `try`, which turns every exception into one.
  unfoldable pub open_segments :
      VaultService → String → crypto.Buffer → String → crypto.Buffer → Result String
  unfolding derive_key
  open_segments service context iv encrypted tag =
      if not (crypto.size tag == auth_tag_length)
      then err internal_server_error
      else if not (crypto.size iv == 12)
      then err internal_server_error
      else or_throw (crypto.unseal (derive_key service context) iv context tag encrypted)
          internal_server_error

  unfoldable pub open_parts : VaultService → String → List String → Result String
  unfolding open_segments
  open_parts service context (iv_hex ∷ encrypted ∷ tag_hex ∷ []) =
      if iv_hex =s= "" || tag_hex =s= ""
      then err internal_server_error
      else open_segments service context (crypto.from_hex iv_hex) encrypted
          (crypto.from_hex tag_hex)
  open_parts service context _ = err internal_server_error

  unfoldable pub decrypt : VaultService → String → String → Result String
  unfolding open_parts split_colon
  decrypt service encrypted_text context = open_parts service context (split_colon encrypted_text)
