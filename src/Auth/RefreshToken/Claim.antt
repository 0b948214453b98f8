-- ===== src/Auth/RefreshToken/Claim.antt =====
-- The compare-and-revoke of backend/src/auth/refresh-token.service.ts among other requests.
use open_bastion.Base.{
  false, ℕ, ◌+◌, ◌≤◌, ◌≡◌, ◌≢◌, refl, Bool, true, ◌&&◌, Option, none, some, List, [], ◌∷◌, String,
  arith, ltb, ◌=s=◌, ◌==◌, if◌then◌else◌, is_some, inl, inr, eq_iff, eq_refl, ◌⊎◌, Option-cases,
  zero-cases,
}
use open_bastion.Database.{Database, count, count-ne-zero, find_of_count}
use open_bastion.Schema.{RefreshToken}
use open_bastion.Auth.RefreshToken.{
  Tokens, is_active, revoked, is_unrevoked_of, claim, revoke_all_for_user, cleanup_expired,
}

abbrev pub claimable : ℕ → Option RefreshToken → Bool
claimable now none = false
claimable now (some row) = is_active now row

module _ (db : Database) where
  -- The statement claims the row exactly if it is there, unrevoked and unexpired; it changes no row
  -- but that one, which it revokes.
  pub claim_cases :
      (now : ℕ) (jti : String) (s : Tokens db)
      → ((row : RefreshToken) × (db.find jti s ≡ some row)
          × (is_active now row ≡ true)
          × ((claim db now jti s).1 ≢ 0)
          × (db.find jti (claim db now jti s).0 ≡ some (revoked now row)))
        ⊎ (((claim db now jti s).1 ≡ 0)
            × (claimable now (db.find jti s) ≡ false)
            × (db.find jti (claim db now jti s).0 ≡ db.find jti s))
  unfolding claim
  claim_cases now jti s =
      let p = λ (k : String) (row : RefreshToken). k =s= jti && is_active now row in
      let after = db.find-update_many jti p (revoked now) s in
      elim (zero-cases (count db p s)) [
        | inl none_claimed ↦ elim (Option-cases (db.find jti s)) [
          | inl missing ↦ inr (none_claimed, ground arith, ground (arith, after))
          | inr (row, found) ↦ inr (
            none_claimed,
            ground (arith, eq_refl jti, count-ne-zero db jti row p s found),
            ground (arith, after, eq_refl jti, count-ne-zero db jti row p s found),
          )
        ]
        | inr claimed ↦
            let (row, found, active) = find_of_count db jti (is_active now) s claimed in
            inl (row, found, active, claimed, ground (arith, after, eq_refl jti))
      ]

  pub claim-other :
      (now : ℕ) (jti other : String) (s : Tokens db)
      → jti ≢ other
      → db.find other (claim db now jti s).0 ≡ db.find other s
  unfolding claim
  claim-other now jti other s h =
      let p = λ (k : String) (row : RefreshToken). k =s= jti && is_active now row in
      ground (arith, db.find-update_many other p (revoked now) s, eq_iff other jti)

  -- A token that no claim can succeed on.
  abbrev pub is_spent : Option RefreshToken → Bool
  is_spent none = true
  is_spent (some row) = is_some row.revoked_at

  -- What other requests, an administrator and the clean-up may do to the table.
  pub data Event : Type 0 where
    claims revokes : String → Event
    cleans : Event
    creates : String → RefreshToken → Event

  unfoldable pub happen : ℕ → Event → Tokens db → Tokens db
  unfolding revoke_all_for_user cleanup_expired
  happen now (claims jti) s = (claim db now jti s).0
  happen now (revokes user) s = revoke_all_for_user db now user s
  happen now cleans s = cleanup_expired db now s
  happen now (creates jti row) s = if is_some (db.find jti s) then s else db.put jti row s

  module _ (jti : String) where
    abbrev wins : ℕ → Event → Tokens db → ℕ
    wins now (claims k) s = if k =s= jti then (if (claim db now k s).1 == 0 then 0 else 1) else 0
    wins now _ s = 0

    -- How many of the claims of `jti` succeed.
    unfoldable pub total_wins : List (ℕ × Event) → Tokens db → ℕ
    total_wins [] s = 0
    total_wins ((now, e) ∷ es) s = wins now e s + total_wins es (happen now e s)

    abbrev pub NeverCreates : List (ℕ × Event) → Type 0
    NeverCreates [] = Unit {0}
    NeverCreates ((now, creates k row) ∷ es) = (k ≢ jti) × NeverCreates es
    NeverCreates (_ ∷ es) = NeverCreates es

    happen_spent :
        (now : ℕ) (e : Event) (s : Tokens db)
        → NeverCreates ((now, e) ∷ [])
        → is_spent (db.find jti s) ≡ true
        → (is_spent (db.find jti (happen now e s)) ≡ true) × (wins now e s ≡ 0)
    unfolding happen is_active
    happen_spent now (claims k) s ok h =
        ground (arith, claim_cases now k s, claim-other now k jti s, eq_iff k jti)
    happen_spent now (revokes user) s ok h =
        ground (arith, db.find-update_many jti (is_unrevoked_of user) (revoked now) s)
    happen_spent now cleans s ok h =
        ground (arith, db.find-delete_many jti (λ _ row. ltb row.expires_at now) s)
    happen_spent now (creates k row) s ok h = ground (arith, db.find-put jti k row s, eq_iff k jti)

    head_never :
        (now : ℕ) (e : Event) (es : List (ℕ × Event))
        → NeverCreates ((now, e) ∷ es)
        → NeverCreates ((now, e) ∷ []) × NeverCreates es
    head_never now (creates k row) es h = ((h.0, tt), h.1)
    head_never now (claims k) es h = (tt, h)
    head_never now (revokes user) es h = (tt, h)
    head_never now cleans es h = (tt, h)

    total_wins_spent :
        (es : List (ℕ × Event)) (s : Tokens db)
        → NeverCreates es
        → is_spent (db.find jti s) ≡ true
        → total_wins es s ≡ 0
    unfolding total_wins
    total_wins_spent [] s ok h = refl
    total_wins_spent ((now, e) ∷ es) s ok h =
        let (first, rest) = head_never now e es ok in
        let (spent, lost) = happen_spent now e s first h in
        omega (arith, total_wins_spent es (happen now e s) rest spent)

    wins_cases :
        (now : ℕ) (e : Event) (s : Tokens db)
        → (wins now e s ≡ 0)
          ⊎ ((wins now e s ≡ 1) × (is_spent (db.find jti (happen now e s)) ≡ true))
    unfolding happen
    wins_cases now (claims k) s = ground (arith, claim_cases now k s, eq_iff k jti)
    wins_cases now _ s = inl refl

    -- Whatever the order in which requests claim tokens, users are revoked, tokens are created and
    -- expired rows are cleaned up: `jti` is claimed at most once, if no event creates it anew.
    pub claimed_once :
        (es : List (ℕ × Event)) (s : Tokens db) → NeverCreates es → total_wins es s ≤ 1
    unfolding total_wins
    claimed_once [] s ok = omega arith
    claimed_once ((now, e) ∷ es) s ok =
        let rest = (head_never now e es ok).1 in
        elim (wins_cases now e s) [
          | inl lost ↦ omega (arith, claimed_once es (happen now e s) rest)
          | inr (won, spent) ↦ omega (arith, total_wins_spent es (happen now e s) rest spent)
        ]
