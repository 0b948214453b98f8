-- ===== src/Terminal/Guac/Prefixes.antt =====
-- What the parser of backend/src/terminal/guac-protocol.ts found in a text stays when more follows.
use open_bastion.Base.{
  Bool, Bool-cases, List, Option, Option-cases, [], ap, arith, drop, false, inl, inr, length, none,
  refl, some, suc, take, true, zero, ℕ, ◌++◌, ◌<◌, ◌==◌, ◌∷◌, ◌≡◌, ◌≤◌, ◌⊎◌,
}
use open_bastion.Terminal.Guac.{
  Instruction, split_dot, length_prefix, Parsed, complete, incomplete, malformed, parse_parts,
}

-- More text behind the second part.
abbrev behind : List ℕ → Option (List ℕ × List ℕ) → Option (List ℕ × List ℕ)
behind t none = none
behind t (some (before, after)) = some (before, after ++ t)

split_dot-append :
    (s t before after : List ℕ)
    → split_dot s ≡ some (before, after)
    → split_dot (s ++ t) ≡ some (before, after ++ t)
unfolding split_dot
split_dot-append [] t before after e = cc
split_dot-append (c ∷ cs) t before after e = elim (Bool-cases (c == b'.')) [
  | inl dot ↦ rw dot (ap (behind t) (rw (split_dot, dot) at e))
  | inr other ↦ elim (Option-cases (split_dot cs)) [
    | inl no_dot ↦ cc (rw (split_dot, other, no_dot) at e)
    | inr ((b, a), found) ↦
        rw (other, split_dot-append cs t b a found)
          (ap (behind t) (rw (split_dot, other, found) at e))
  ]
]

length-split_dot :
    (s before after : List ℕ) → split_dot s ≡ some (before, after) → length after < length s
unfolding split_dot
length-split_dot [] before after e = cc
length-split_dot (c ∷ cs) before after e = elim (Bool-cases (c == b'.')) [
  | inl dot ↦ ground (arith, rw (split_dot, dot) at e)
  | inr other ↦ elim (Option-cases (split_dot cs)) [
    | inl no_dot ↦ cc (rw (split_dot, other, no_dot) at e)
    | inr ((b, a), found) ↦
        ground (arith, length-split_dot cs b a found, rw (split_dot, other, found) at e)
  ]
]

module _ {A : Type 0} where
  drop-append :
      (n : ℕ) (s t rest : List A) (x : A) → drop n s ≡ x ∷ rest → drop n (s ++ t) ≡ x ∷ (rest ++ t)
  drop-append zero s t rest x e = ap (λ l. l ++ t) e
  drop-append (suc n) [] t rest x e = cc
  drop-append (suc n) (y ∷ s) t rest x e = drop-append n s t rest x e

  take-append :
      (n : ℕ) (s t rest : List A) (x : A) → drop n s ≡ x ∷ rest → take n (s ++ t) ≡ take n s
  take-append zero s t rest x e = refl
  take-append (suc n) [] t rest x e = cc
  take-append (suc n) (y ∷ s) t rest x e = ap (λ l. y ∷ l) (take-append n s t rest x e)

  length-drop : (n : ℕ) (s rest : List A) (x : A) → drop n s ≡ x ∷ rest → length rest < length s
  length-drop zero [] rest x e = cc
  length-drop zero (y ∷ s) rest x e = ground (arith, ap length e)
  length-drop (suc n) [] rest x e = cc
  length-drop (suc n) (y ∷ s) rest x e = omega (arith, length-drop n s rest x e)

abbrev pub is_final : Parsed → Bool
is_final incomplete = false
is_final _ = true

-- The same with more text behind.
abbrev pub extend : List ℕ → Parsed → Parsed
extend t (complete i rest) = complete i (rest ++ t)
extend t incomplete = incomplete
extend t malformed = malformed

list_cases {ℓ} :
    {A : Type ℓ} (xs : List A) → (xs ≡ []) ⊎ ((x : A) × (rest : List A) × (xs ≡ x ∷ rest))
list_cases [] = inl refl
list_cases (x ∷ rest) = inr (x, rest, refl)

pub parse_parts-append :
    (fuel fuel' : ℕ) (s t : List ℕ) (args : List (List ℕ))
    → fuel ≤ fuel'
    → is_final (parse_parts fuel s args) ≡ true
    → parse_parts fuel' (s ++ t) args ≡ extend t (parse_parts fuel s args)
unfolding parse_parts
parse_parts-append zero fuel' s t args le h = cc
parse_parts-append (suc fuel) zero s t args le h = absurd (omega arith)
parse_parts-append (suc fuel) (suc fuel') s t args le h = elim (Option-cases (split_dot s)) [
  | inl e ↦ cc (rw (parse_parts, e) at h)
  | inr ((before, after), e) ↦ elim (Option-cases (length_prefix before)) [
    | inl f ↦ rw (parse_parts, e, split_dot-append s t before after e, f) refl
    | inr (len, f) ↦ elim (list_cases (drop len after)) [
      | inl g ↦ cc (rw (parse_parts, e, f, g) at h)
      | inr (sep, rest, g) ↦
          let split = split_dot-append s t before after e in
          let dropped = drop-append len after t rest sep g in
          let taken = take-append len after t rest sep g in
          elim (Bool-cases (sep == b';')) [
            | inl k ↦ rw (parse_parts, e, split, f, g, dropped, k, taken) refl
            | inr k ↦ elim (Bool-cases (sep == b',')) [
              | inr l ↦ rw (parse_parts, e, split, f, g, dropped, k, l) refl
              | inl l ↦
                  rw (parse_parts, e, split, f, g, dropped, k, l, taken)
                    (parse_parts-append fuel fuel' rest t (args ++ take len after ∷ [])
                      (omega arith) (rw (parse_parts, e, f, g, k, l) at h))
            ]
          ]
    ]
  ]
]

pub length-parse_parts :
    (fuel : ℕ) (s rest : List ℕ) (args : List (List ℕ)) (i : Instruction)
    → parse_parts fuel s args ≡ complete i rest
    → length rest < length s
unfolding parse_parts
length-parse_parts zero s rest args i h = cc
length-parse_parts (suc fuel) s rest args i h = elim (Option-cases (split_dot s)) [
  | inl e ↦ cc (rw (parse_parts, e) at h)
  | inr ((before, after), e) ↦ elim (Option-cases (length_prefix before)) [
    | inl f ↦ cc (rw (parse_parts, e, f) at h)
    | inr (len, f) ↦ elim (list_cases (drop len after)) [
      | inl g ↦ cc (rw (parse_parts, e, f, g) at h)
      | inr (sep, rest', g) ↦
          let shorter = length-split_dot s before after e in
          let shorter' = length-drop len after rest' sep g in
          elim (Bool-cases (sep == b';')) [
            | inl k ↦
                let same : rest' ≡ rest = cc (rw (parse_parts, e, f, g, k) at h) in
                omega (arith, ap length same)
            | inr k ↦ elim (Bool-cases (sep == b',')) [
              | inr l ↦ cc (rw (parse_parts, e, f, g, k, l) at h)
              | inl l ↦ omega (
                arith,
                length-parse_parts fuel rest' rest (args ++ take len after ∷ []) i
                    (rw (parse_parts, e, f, g, k, l) at h),
              )
            ]
          ]
    ]
  ]
]
