-- ===== src/Audit/Redaction.antt =====
-- What the audit log keeps of a body that passes backend/src/common/interceptors/
-- audit.interceptor.ts.
use open_bastion.Base.{
  Bool, Bool-cases, Memᴰ, String, [], ap, arith, false, if_false, if_true, if◌then◌else◌, inl, inr,
  is_some, none, not, refl, some, subst, sym, true, ◌||◌, ◌↔◌, ◌∙◌, ◌∷◌, ◌≡◌,
}
use open_bastion.Audit.Routes.{
  IsListed, IsMutation, IsSent, mem-any_same, is_explicitly_audited-IsListed,
}
use open_bastion.Audit.{
  sensitive_fields, Json, Items, Fields, array, object, no_items, item, no_fields, field,
  is_sensitive, redacted, sanitize_object, sanitize_items, sanitize_fields, AuditedRequest,
  AuditRow, is_mutation, is_sent, details_of, is_explicitly_audited, row_of, intercept,
}

-- The names under which no value is kept.
abbrev pub IsSensitive : String → Type 0
IsSensitive k = Memᴰ k (
    "password" ∷ "currentPassword" ∷ "passwordHash" ∷ "privateKey" ∷ "token" ∷ "secret"
    ∷ "clientSecret" ∷ "bindPassword" ∷ "bindCredentials" ∷ "code" ∷ "tempToken" ∷ "refresh_token"
    ∷ "refreshToken" ∷ [])

-- No field with a sensitive name holds anything but the redaction, at any depth.
mutual
  pub IsClean : Json → Type 0
  IsClean (array xs) = AreClean xs
  IsClean (object fs) = HasClean fs
  IsClean _ = Unit {0}

  pub AreClean : Items → Type 0
  AreClean no_items = Unit {0}
  AreClean (item v xs) = IsClean v × AreClean xs

  pub HasClean : Fields → Type 0
  HasClean no_fields = Unit {0}
  HasClean (field k v fs) = (IsSensitive k → v ≡ redacted) × IsClean v × HasClean fs

-- A value under a name that is sensitive, or not.
kept-IsClean :
    (b : Bool) (v : Json)
    → IsClean v
    → (b ≡ true → (if b then redacted else v) ≡ redacted) × IsClean (if b then redacted else v)
unfolding IsClean
kept-IsClean true v clean = ((λ e. refl), tt)
kept-IsClean false v clean = ((λ e. cc), clean)

sanitize_object-IsClean : (j : Json) → IsClean (sanitize_object j)
unfolding sanitize_object IsClean is_sensitive
sanitize_object-IsClean j =
    elim j
      as (λ v. IsClean (sanitize_object v)) (λ xs. AreClean (sanitize_items xs)) (λ fs.
        HasClean (sanitize_fields fs)) [
          | array (xs → ih) ↦ ih
          | object (fs → ih) ↦ ih
          | item (v → ih) (xs → ihs) ↦ (ih, ihs)
          | field k (v → ih) (fs → ihs) ↦
              let (hidden, clean) = kept-IsClean (is_sensitive k) (sanitize_object v) ih in
              ((λ m. hidden ((mem-any_same k sensitive_fields).1 m)), clean, ihs)
          | _ ↦ tt
        ]

kept_same : (b : Bool) (v : Json) → (b ≡ true → v ≡ redacted) → (if b then redacted else v) ≡ v
kept_same true v hidden = sym (hidden refl)
kept_same false v hidden = refl

sanitize_object_same : (j : Json) → IsClean j → sanitize_object j ≡ j
unfolding sanitize_object IsClean is_sensitive
sanitize_object_same j =
    elim j
      as (λ v. IsClean v → sanitize_object v ≡ v) (λ xs.
        AreClean xs → sanitize_items xs ≡ xs) (λ fs. HasClean fs → sanitize_fields fs ≡ fs) [
          | array (xs → ih) ↦ λ c. ap array (ih c)
          | object (fs → ih) ↦ λ c. ap object (ih c)
          | item (v → ih) (xs → ihs) ↦ λ (c, cs). λ i. item (ih c i) (ihs cs i)
          | field k (v → ih) (fs → ihs) ↦ λ (hidden, c, cs).
              let value =
                ap (λ w. if is_sensitive k then redacted else w) (ih c)
                ∙ kept_same (is_sensitive k) v
                    (λ h. hidden ((mem-any_same k sensitive_fields).0 h)) in
              λ i. field k (value i) (ihs cs i)
          | no_items ↦ λ c. refl
          | no_fields ↦ λ c. refl
          | _ ↦ λ c. refl
        ]

sent_same {ℓ} : {A : Type ℓ} (b : Bool) (x y : A) → (if b then some x else none) ≡ some y → x ≡ y
sent_same true x y e = cc
sent_same false x y e = cc

details_of-IsClean : (method : String) (body j : Json) → details_of method body ≡ some j → IsClean j
unfolding details_of
details_of-IsClean method body j e =
    subst IsClean (sent_same (is_sent method) (sanitize_object body) j e)
      (sanitize_object-IsClean body)

details_of-none :
    (method : String) (body : Json) → is_sent method ≡ false → details_of method body ≡ none
unfolding details_of
details_of-none method body other =
    if_false (is_sent method) (some (sanitize_object body)) none other

details_of_same :
    (method : String) (body : Json)
    → is_sent method ≡ true
    → IsClean body
    → details_of method body ≡ some body
unfolding details_of
details_of_same method body sent clean =
    if_true (is_sent method) (some (sanitize_object body)) none sent
    ∙ ap some (sanitize_object_same body clean)

audited_iff {ℓ} :
    {A : Type ℓ} (m a : Bool) (row : A)
    → (is_some (if not m || a then none else some row) ≡ true) ↔ ((m ≡ true) × (a ≡ false))
audited_iff true true row = ((λ e. cc), (λ (p, q). cc))
audited_iff true false row = ((λ e. (refl, refl)), (λ e. refl))
audited_iff false true row = ((λ e. cc), (λ (p, q). cc))
audited_iff false false row = ((λ e. cc), (λ (p, q). cc))

audited_same {ℓ} :
    {A : Type ℓ} (m a : Bool) (row other : A)
    → (if not m || a then none else some row) ≡ some other
    → row ≡ other
audited_same true true row other e = cc
audited_same true false row other e = cc
audited_same false true row other e = cc
audited_same false false row other e = cc

is_sent-IsSent : (method : String) → (is_sent method ≡ true) ↔ IsSent method
unfolding is_sent
is_sent-IsSent method = mem-any_same method ("POST" ∷ "PATCH" ∷ "PUT" ∷ [])

audited_by :
    (r : AuditedRequest)
    → (is_some (intercept r) ≡ true) ↔ (IsMutation r.method × (IsListed r.pathname → ⊥))
unfolding intercept is_mutation
audited_by r =
    let by_tests =
      audited_iff (is_mutation r.method) (is_explicitly_audited r.pathname) (row_of r) in
    let listed = is_explicitly_audited-IsListed r.pathname in
    let mutation = mem-any_same r.method ("POST" ∷ "PATCH" ∷ "PUT" ∷ "DELETE" ∷ []) in
    (
      (λ h.
          let (m, a) = by_tests.0 h in
          (mutation.0 m, λ there. absurd (ground (arith, a, listed.1 there)))),
      (λ (m, away). by_tests.1 (
        mutation.1 m,
        elim (Bool-cases (is_explicitly_audited r.pathname)) [
          | inl there ↦ absurd (away (listed.0 there))
          | inr elsewhere ↦ elsewhere
        ],
      )),
    )

-- A request whose handler succeeds leaves a row exactly if its method is POST, PATCH,
-- PUT or DELETE and its path is not one of the six listed ones, nor below one. Its details hold no value under a sensitive name at any depth;
-- for POST, PATCH and PUT they are the body itself, if the body was clean, and for any other method
-- there are none.
pub intercept-IsClean :
    (r : AuditedRequest)
    → ((is_some (intercept r) ≡ true) ↔ (IsMutation r.method × (IsListed r.pathname → ⊥)))
      × ((row : AuditRow)
          → intercept r ≡ some row
          → ((j : Json) → row.details ≡ some j → IsClean j)
            × (IsSent r.method → IsClean r.body → row.details ≡ some r.body)
            × ((IsSent r.method → ⊥) → row.details ≡ none))
unfolding intercept
intercept-IsClean r = (
  audited_by r,
  λ row e.
      let kept : details_of r.method r.body ≡ row.details =
        ap (λ x. x.details)
          (audited_same (is_mutation r.method) (is_explicitly_audited r.pathname) (row_of r) row
            e) in
      (
        (λ j f. details_of-IsClean r.method r.body j (kept ∙ f)),
        (λ sent clean.
            sym kept ∙ details_of_same r.method r.body ((is_sent-IsSent r.method).1 sent) clean),
        (λ unsent.
            sym kept
            ∙ details_of-none r.method r.body (elim (Bool-cases (is_sent r.method)) [
              | inl sent ↦ absurd (unsent ((is_sent-IsSent r.method).0 sent))
              | inr other ↦ other
            ])),
      ),
)
