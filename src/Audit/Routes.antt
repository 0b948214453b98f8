-- ===== src/Audit/Routes.antt =====
-- Which requests backend/src/common/interceptors/audit.interceptor.ts leaves to others.
use Prim.Native.String.{◌++◌ as append}
use text.Mathlib.TextEquality.{Char-path}
use text.Mathlib.TextLemmas.{nil-append, cons-append}
use open_bastion.Base.{
  Bool-cases, List, Memᴰ, String, [], any, any-mem, ap, arith, eq_iff, eq_refl, inl, inr,
  mem_of_any, refl, str_eq, subst, sym, true, ◌=s=◌, ◌||◌, ◌↔◌, ◌∙◌, ◌∷◌, ◌≡◌, ◌⊎◌,
}
use open_bastion.Audit.{starts_with, explicitly_audited, is_explicitly_audited}

pub mem-any_same : (x : String) (ys : List String) → (any (str_eq x) ys ≡ true) ↔ Memᴰ x ys
mem-any_same x ys = (
  (λ h.
      let (y, m, e) = mem_of_any (str_eq x) ys h in
      subst (λ z. Memᴰ z ys) (sym ((eq_iff x y).0 e)) m),
  (λ m. any-mem (str_eq x) x ys m (eq_refl x)),
)

-- The paths that are meant to be logged elsewhere, and what lies below them.
abbrev pub IsListed : String → Type 0
IsListed pathname =
    (route : String) × Memᴰ route (
      "/auth/login" ∷ "/auth/logout" ∷ "/auth/oidc" ∷ "/auth/change-password" ∷ "/users"
      ∷ "/permissions" ∷ [])
    × ((pathname ≡ route) ⊎ ((rest : String) × (pathname ≡ append (append route "/") rest)))

-- The methods whose body is kept.
abbrev pub IsSent : String → Type 0
IsSent method = Memᴰ method ("POST" ∷ "PATCH" ∷ "PUT" ∷ [])

abbrev pub IsMutation : String → Type 0
IsMutation method = Memᴰ method ("POST" ∷ "PATCH" ∷ "PUT" ∷ "DELETE" ∷ [])

starts_with-append : (p s : String) → starts_with p s ≡ true → (rest : String) × (s ≡ append p rest)
unfolding starts_with
starts_with-append String.[] s h = (s, sym (nil-append s))
starts_with-append (String.◌∷◌ c p) String.[] h = cc
starts_with-append (String.◌∷◌ c p) (String.◌∷◌ d s) h =
    let (rest, e) = starts_with-append p s (ground arith) in
    (rest, (λ i. String.◌∷◌ (Char-path d c (ground arith) i) (e i)) ∙ sym (cons-append c p rest))

append-starts_with : (p rest : String) → starts_with p (append p rest) ≡ true
unfolding starts_with
append-starts_with String.[] rest = refl
append-starts_with (String.◌∷◌ c p) rest =
    ap (starts_with (String.◌∷◌ c p)) (cons-append c p rest)
    ∙ ground (arith, append-starts_with p rest)

pub is_explicitly_audited-IsListed :
    (pathname : String) → (is_explicitly_audited pathname ≡ true) ↔ IsListed pathname
unfolding is_explicitly_audited
is_explicitly_audited-IsListed pathname = (
  (λ h.
      let (route, m, e) =
        mem_of_any (λ route. pathname =s= route || starts_with (append route "/") pathname)
          explicitly_audited h in
      (
        route,
        m,
        elim (Bool-cases (pathname =s= route)) [
          | inl same ↦ inl ((eq_iff pathname route).0 same)
          | inr other ↦ inr (starts_with-append (append route "/") pathname (ground arith))
        ],
      )),
  (λ (route, m, where_it_is).
      any-mem (λ route. pathname =s= route || starts_with (append route "/") pathname) route
        explicitly_audited m
        (elim where_it_is [
          | inl same ↦ ground (arith, eq_iff pathname route)
          | inr (rest, e) ↦
              let below : starts_with (append route "/") pathname ≡ true =
                ap (starts_with (append route "/")) e
                ∙ append-starts_with (append route "/") rest in
              ground (arith, below)
        ])),
)
