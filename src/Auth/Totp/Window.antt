-- ===== src/Auth/Totp/Window.antt =====
-- Which counters backend/src/auth/totp.ts accepts.
use open_bastion.Base.{
  ok-injective, >>=-eq-ok, Bool-cases, List, Option, Option-cases, String, arith, inl, inr, none,
  ok, refl, some, subst, suc, sym, true, zero, ℕ, ◌+◌, ◌<◌, ◌>>=◌, ◌∙◌, ◌≡◌, ◌≤◌, ◌⊎◌,
}
use open_bastion.Auth.Totp.{
  Hmac, hotp, try_counter, match_window, counter_at, verify_with_counter, is_six_digits, same_codes,
  unless_replayed,
}

module _ (hmac_sha1 : Hmac) where
  -- `c` is in the window of `now`, and its code is the token.
  pub record IsMatch (now : ℕ) (token : List ℕ) (secret : String) (c : ℕ) : Type 0 where
    pub early : counter_at hmac_sha1 now ≤ c + 1
    pub late : c ≤ counter_at hmac_sha1 now + 1
    pub candidate : List ℕ
    pub computed : hotp hmac_sha1 secret c ≡ some candidate
    pub equal : same_codes candidate token ≡ true

  try_counter-cases :
      (token : List ℕ) (secret : String) (c : ℕ) (matched r : Option ℕ)
      → try_counter hmac_sha1 token secret c matched ≡ ok r
      → ((r ≡ some c)
          × ((candidate : List ℕ) × (hotp hmac_sha1 secret c ≡ some candidate)
              × (same_codes candidate token ≡ true)))
        ⊎ (r ≡ matched)
  unfolding try_counter
  try_counter-cases token secret c matched r h = elim (Option-cases (hotp hmac_sha1 secret c)) [
    | inl e ↦ ground (arith)
    | inr (candidate, e) ↦ elim (Bool-cases (same_codes candidate token)) [
      | inl same ↦ inl (ground (arith), (candidate, e, same))
      | inr other ↦ inr (ground (arith))
    ]
  ]

  -- The counter of a found code is among the three around `n`.
  abbrev InWindow : ℕ → List ℕ → String → Option ℕ → Type 0
  InWindow n token secret r =
      (c : ℕ)
      → r ≡ some c
      → (n ≤ c + 1)
        × (c ≤ n + 1)
        × (candidate : List ℕ) × (hotp hmac_sha1 secret c ≡ some candidate)
        × (same_codes candidate token ≡ true)

  try_counter-InWindow :
      (n : ℕ) (token : List ℕ) (secret : String) (c : ℕ) (matched r : Option ℕ)
      → n ≤ c + 1
      → c ≤ n + 1
      → InWindow n token secret matched
      → try_counter hmac_sha1 token secret c matched ≡ ok r
      → InWindow n token secret r
  try_counter-InWindow n token secret c matched r early late before h d e =
      elim (try_counter-cases token secret c matched r h) [
        | inl (hit, (candidate, computed, same)) ↦
            let eq : c ≡ d = (ground (arith)) in
            subst
              (λ x.
                (n ≤ x + 1)
                × (x ≤ n + 1)
                × (k : List ℕ) × (hotp hmac_sha1 secret x ≡ some k)
                × (same_codes k token ≡ true))
              eq (early, late, candidate, computed, same)
        | inr kept ↦ before d (sym kept ∙ e)
      ]

  match_window-InWindow :
      (n : ℕ) (token : List ℕ) (secret : String) (r : Option ℕ)
      → match_window hmac_sha1 token secret n ≡ ok r
      → InWindow n token secret r
  unfolding match_window
  match_window-InWindow zero token secret r h = cc
  match_window-InWindow (suc m) token secret r h =
      let (first, h0, rest) = >>=-eq-ok (try_counter hmac_sha1 token secret m none) _ h in
      let (second, h1, h2) = >>=-eq-ok (try_counter hmac_sha1 token secret (m + 1) first) _ rest in
      let v0 =
        try_counter-InWindow (suc m) token secret m none first (omega arith) (omega arith)
          (λ c e. absurd (ground (arith))) h0 in
      let v1 =
        try_counter-InWindow (suc m) token secret (m + 1) first second (omega arith) (omega arith)
          v0 h1 in
      try_counter-InWindow (suc m) token secret (m + 2) second r (omega arith) (omega arith) v1 h2

  match_window-IsMatch :
      (now : ℕ) (token : List ℕ) (secret : String) (c : ℕ)
      → match_window hmac_sha1 token secret (counter_at hmac_sha1 now) ≡ ok (some c)
      → IsMatch now token secret c
  match_window-IsMatch now token secret c h =
      let (early, late, candidate, computed, same) =
        match_window-InWindow (counter_at hmac_sha1 now) token secret (some c) h c refl in
      record {
        early = early;
        late = late;
        candidate = candidate;
        computed = computed;
        equal = same;
      }

  unless_replayed-some :
      (last_used matched : Option ℕ) (c : ℕ)
      → unless_replayed last_used matched ≡ some c
      → (matched ≡ some c) × ((last : ℕ) → last_used ≡ some last → last < c)
  unfolding unless_replayed
  unless_replayed-some last_used none c h = cc
  unless_replayed-some none (some d) c h = (h, λ last e. cc)
  unless_replayed-some (some used) (some d) c h = (ground (arith), λ last e. ground (arith))

  verify_when_six :
      (now : ℕ) (token : List ℕ) (secret : String) (last_used : Option ℕ)
      → is_six_digits token ≡ true
      → verify_with_counter hmac_sha1 now token secret last_used ≡ (
          match_window hmac_sha1 token secret (counter_at hmac_sha1 now) >>= λ matched.
          ok (unless_replayed last_used matched))
  unfolding verify_with_counter
  verify_when_six now token secret last_used six = rw (six, verify_with_counter) refl

  verify_six_digits :
      (now : ℕ) (token : List ℕ) (secret : String) (last_used r : Option ℕ)
      → verify_with_counter hmac_sha1 now token secret last_used ≡ ok r
      → (r ≡ none)
        ⊎ ((is_six_digits token ≡ true)
            × ((matched : Option ℕ) × (match_window hmac_sha1 token secret
                    (counter_at hmac_sha1 now)
                  ≡ ok matched)
                × (r ≡ unless_replayed last_used matched)))
  unfolding verify_with_counter
  verify_six_digits now token secret last_used r h = elim (Bool-cases (is_six_digits token)) [
    | inr other ↦ inl (ground (arith))
    | inl six ↦
        let chained : (match_window hmac_sha1 token secret (counter_at hmac_sha1 now) >>= λ matched.
        ok (unless_replayed last_used matched))
            ≡ ok r =
          (sym (verify_when_six now token secret last_used six) ∙ h) in
        let (matched, found, rest) =
          >>=-eq-ok (match_window hmac_sha1 token secret (counter_at hmac_sha1 now)) _ chained in
        inr (six, (matched, found, sym (ok-injective rest)))
  ]

  -- An accepted counter is one of the three of the window, its code is the token, the token has six
  -- digits, and the counter is greater than the last one used.
  pub verify_with_counter-IsMatch :
      (now : ℕ) (token : List ℕ) (secret : String) (last_used : Option ℕ) (c : ℕ)
      → verify_with_counter hmac_sha1 now token secret last_used ≡ ok (some c)
      → IsMatch now token secret c
        × (is_six_digits token ≡ true)
        × ((last : ℕ) → last_used ≡ some last → last < c)
  verify_with_counter-IsMatch now token secret last_used c h =
      elim (verify_six_digits now token secret last_used (some c) h) [
        | inl e ↦ cc
        | inr (six, (matched, found, e)) ↦
            let (e', fresh) = unless_replayed-some last_used matched c (sym e) in
            (
              match_window-IsMatch now token secret c (
                  subst (λ m. match_window hmac_sha1 token secret (counter_at hmac_sha1 now) ≡ ok m)
                    e' found),
              six,
              fresh,
            )
      ]
