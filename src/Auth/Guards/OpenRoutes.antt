-- ===== src/Auth/Guards/OpenRoutes.antt =====
-- The routes that backend/src/auth/guards/jwt-auth.guard.ts leaves open while a password change is
-- pending.
use Prim.Native.Char.{char, code}
use Prim.Native.String.{◌++◌ as append}
use text.Mathlib.TextEquality.{Char-path}
use text.Mathlib.TextLemmas.{nil-append, cons-append, append_assoc}
use open_bastion.Base.{
  Bool-cases, Memᴰ, String, any-mem, ap, arith, eq_iff, eq_refl, false, inl, inr, mem_of_any, refl,
  subst, suc, sym, true, zero, ℕ, ◌&&◌, ◌==◌, ◌=s=◌, ◌||◌, ◌∙◌, ◌≡◌, ◌⊎◌,
}
use open_bastion.Auth.Guards.{
  strip_slashes, normalized, path_matches, password_change_allowlist, is_allowed_while_rotating,
}

abbrev pub slashes : ℕ → String
slashes zero = ""
slashes (suc n) = String.◌∷◌ (char 47 tt) (slashes n)

abbrev pub IsRule : String → String → Type 0
IsRule method path =
    ((method ≡ "GET") × (path ≡ "/auth/me"))
    ⊎ (((method ≡ "POST") × (path ≡ "/auth/change-password"))
        ⊎ (((method ≡ "POST") × (path ≡ "/auth/logout"))
            ⊎ ((method ≡ "POST") × (path ≡ "/auth/refresh"))))

-- The routes that stay open while a password change is pending, with any slashes at their end.
abbrev pub IsOpenRoute : String → String → Type 0
IsOpenRoute method pathname =
    (n : ℕ) × (path : String) × (pathname ≡ append path (slashes n)) × IsRule method path

strip_slashes-append : (s : String) → (n : ℕ) × (s ≡ append (strip_slashes s) (slashes n))
unfolding strip_slashes
strip_slashes-append String.[] = (0, sym (nil-append ""))
strip_slashes-append (String.◌∷◌ c s) =
    let (n, e) = strip_slashes-append s in
    elim (Bool-cases (code c == 47 && strip_slashes s =s= "")) [
      | inl cut ↦ (
        suc n,
        rw cut (
            (λ i. String.◌∷◌ (Char-path c (char 47 tt) (ground arith) i) (
              (e
                  ∙ ap (λ t. append t (slashes n)) ((eq_iff (strip_slashes s) "").0 (ground arith))
                  ∙ nil-append (slashes n))
                i))
            ∙ sym (nil-append (slashes (suc n)))),
      )
      | inr kept ↦
          (n, rw kept (ap (String.◌∷◌ c) e ∙ sym (cons-append c (strip_slashes s) (slashes n))))
    ]

-- A path that a rule matches is the rule's, with slashes at its end.
path_matches-append :
    (rule pathname : String)
    → ("/" =s= rule || "/" =s= append rule "/") ≡ false
    → path_matches rule (normalized pathname) ≡ true
    → (n : ℕ) × (pathname ≡ append rule (slashes n))
unfolding normalized
path_matches-append rule pathname longer h =
    let (n, e) = strip_slashes-append pathname in
    elim (Bool-cases (strip_slashes pathname =s= "")) [
      | inl root ↦ absurd (ground (arith))
      | inr path ↦ elim (Bool-cases (strip_slashes pathname =s= rule)) [
        | inl same ↦
            (n, e ∙ ap (λ t. append t (slashes n)) ((eq_iff (strip_slashes pathname) rule).0 same))
        | inr longer_by_one ↦ (
          suc n,
          e
              ∙ ap (λ t. append t (slashes n))
                  ((eq_iff (strip_slashes pathname) (append rule "/")).0 (ground arith))
              ∙ append_assoc rule "/" (slashes n)
              ∙ ap (append rule) (
                  cons-append (char 47 tt) "" (slashes n)
                  ∙ ap (String.◌∷◌ (char 47 tt)) (nil-append (slashes n))),
        )
      ]
    ]

IsRule-mem :
    (rule : String × String)
    → Memᴰ rule password_change_allowlist
    → IsRule rule.0 rule.1 × (("/" =s= rule.1 || "/" =s= append rule.1 "/") ≡ false)
IsRule-mem rule (Memᴰ.head e) = rw e (inl (refl, refl), refl)
IsRule-mem rule (Memᴰ.tail (Memᴰ.head e)) = rw e (inr (inl (refl, refl)), refl)
IsRule-mem rule (Memᴰ.tail (Memᴰ.tail (Memᴰ.head e))) = rw e (inr (inr (inl (refl, refl))), refl)
IsRule-mem rule (Memᴰ.tail (Memᴰ.tail (Memᴰ.tail (Memᴰ.head e)))) =
    rw e (inr (inr (inr (refl, refl))), refl)
IsRule-mem rule (Memᴰ.tail (Memᴰ.tail (Memᴰ.tail (Memᴰ.tail m)))) = elim m [ ]

pub is_allowed_while_rotating-IsOpenRoute :
    (method pathname : String)
    → is_allowed_while_rotating method pathname ≡ true
    → IsOpenRoute method pathname
unfolding is_allowed_while_rotating
is_allowed_while_rotating-IsOpenRoute method pathname h =
    let (rule, m, e) =
      mem_of_any (λ rule. rule.0 =s= method && path_matches rule.1 (normalized pathname))
        password_change_allowlist h in
    let (which, longer) = IsRule-mem rule m in
    let (n, same) = path_matches-append rule.1 pathname longer (ground arith) in
    (n, rule.1, same, subst (λ x. IsRule x rule.1) ((eq_iff rule.0 method).0 (ground arith)) which)

strip_slashes-slashes : (n : ℕ) → strip_slashes (slashes n) ≡ ""
unfolding strip_slashes
strip_slashes-slashes zero = refl
strip_slashes-slashes (suc n) = rw (strip_slashes-slashes n) refl

strip_slashes-append-slashes :
    (path : String) (n : ℕ) → strip_slashes (append path (slashes n)) ≡ strip_slashes path
unfolding strip_slashes
strip_slashes-append-slashes String.[] n =
    ap strip_slashes (nil-append (slashes n)) ∙ strip_slashes-slashes n
strip_slashes-append-slashes (String.◌∷◌ c s) n =
    ap strip_slashes (cons-append c s (slashes n)) ∙ rw (strip_slashes-append-slashes s n) refl

IsRule-matches :
    (method path : String)
    → IsRule method path
    → Memᴰ (method, path) password_change_allowlist
      × (strip_slashes path ≡ path)
      × ((path =s= "") ≡ false)
unfolding strip_slashes
IsRule-matches method path (inl (m, e)) = rw (m, e) (Memᴰ.head refl, refl, refl)
IsRule-matches method path (inr (inl (m, e))) = rw (m, e) (Memᴰ.tail (Memᴰ.head refl), refl, refl)
IsRule-matches method path (inr (inr (inl (m, e)))) =
    rw (m, e) (Memᴰ.tail (Memᴰ.tail (Memᴰ.head refl)), refl, refl)
IsRule-matches method path (inr (inr (inr (m, e)))) =
    rw (m, e) (Memᴰ.tail (Memᴰ.tail (Memᴰ.tail (Memᴰ.head refl))), refl, refl)

pub IsOpenRoute-is_allowed :
    (method pathname : String)
    → IsOpenRoute method pathname
    → is_allowed_while_rotating method pathname ≡ true
unfolding is_allowed_while_rotating normalized
IsOpenRoute-is_allowed method pathname (n, path, e, rule) =
    let (m, bare, named) = IsRule-matches method path rule in
    let stripped : strip_slashes pathname ≡ path =
      ap strip_slashes e ∙ strip_slashes-append-slashes path n ∙ bare in
    any-mem (λ r. r.0 =s= method && path_matches r.1 (normalized pathname)) (method, path)
      password_change_allowlist m (ground (arith, stripped, named, eq_refl method, eq_refl path))
