-- ===== src/Database/Interface.antt =====
-- The Prisma client as the services use it. A table maps the unique column that the code looks
-- rows up by to the row's other columns; each operation is one SQL statement, hence atomic.
use open_bastion.Base.{
  ℕ, ◌≡◌, refl, ◌≢◌, ◌⊎◌, inl, inr, Bool, true, ◌&&◌, Option, none, some, List, [], ◌∷◌, String,
  Memᴰ, arith, ◌=s=◌, if◌then◌else◌, length, any, any-mem, mem_of_any, eq_iff, head_of,
}

-- What `updateMany({ where: p, data: f })` makes of the row under key `k`.
abbrev pub updated : {V : Type 0} → (String → V → Bool) → (V → V) → String → Option V → Option V
updated p f k none = none
updated p f k (some v) = if p k v then some (f v) else some v

-- What `deleteMany({ where: p })` leaves of the row under key `k`.
abbrev pub kept : {V : Type 0} → (String → V → Bool) → String → Option V → Option V
kept p k none = none
kept p k (some v) = if p k v then none else some v

pub record Database : Type 1 where
  pub State : Type 0 → Type 0
  pub empty : (V : Type 0) → State V
  -- findUnique
  pub find : {V : Type 0} → String → State V → Option V
  -- create, upsert, and update by the unique column
  pub put : {V : Type 0} → String → V → State V → State V
  pub update_many : {V : Type 0} → (String → V → Bool) → (V → V) → State V → State V
  pub delete_many : {V : Type 0} → (String → V → Bool) → State V → State V
  pub find_many : {V : Type 0} → (String → V → Bool) → State V → List (String × V)
  pub find-empty : (V : Type 0) (k : String) → find k (empty V) ≡ none
  pub find-put :
      {V : Type 0} (j k : String) (v : V) (s : State V)
      → find j (put k v s) ≡ (if k =s= j then some v else find j s)
  pub find-update_many :
      {V : Type 0} (k : String) (p : String → V → Bool) (f : V → V) (s : State V)
      → find k (update_many p f s) ≡ updated p f k (find k s)
  pub find-delete_many :
      {V : Type 0} (k : String) (p : String → V → Bool) (s : State V)
      → find k (delete_many p s) ≡ kept p k (find k s)
  pub find_many_sound :
      {V : Type 0} (k : String) (v : V) (p : String → V → Bool) (s : State V)
      → Memᴰ (k, v) (find_many p s)
      → (find k s ≡ some v) × (p k v ≡ true)
  pub find_many_complete :
      {V : Type 0} (k : String) (v : V) (p : String → V → Bool) (s : State V)
      → find k s ≡ some v
      → p k v ≡ true
      → Memᴰ (k, v) (find_many p s)

module _ (db : Database) {V : Type 0} where
  -- The `count` of `updateMany` and `deleteMany`, and `count({ where: p })`.
  abbrev pub count : (String → V → Bool) → db.State V → ℕ
  count p s = length (db.find_many p s)

  -- findFirst
  abbrev pub find_first : (String → V → Bool) → db.State V → Option (String × V)
  find_first p s = head_of (db.find_many p s)

  length-ne-zero_of_mem : (x : String × V) (xs : List (String × V)) → Memᴰ x xs → length xs ≢ 0
  length-ne-zero_of_mem x [] m = elim m [ ]
  length-ne-zero_of_mem x (y ∷ ys) m = ground arith

  pub count-ne-zero :
      (k : String) (v : V) (p : String → V → Bool) (s : db.State V)
      → db.find k s ≡ some v
      → p k v ≡ true
      → count p s ≢ 0
  count-ne-zero k v p s e h =
      length-ne-zero_of_mem (k, v) (db.find_many p s) (db.find_many_complete k v p s e h)

  first_of_list :
      (xs : List (String × V))
      → ((xs ≡ []) × (length xs ≡ 0))
        ⊎ ((k : String) × (v : V) × Memᴰ (k, v) xs × (head_of xs ≡ some (k, v)))
  first_of_list [] = inl (refl, refl)
  first_of_list ((k, v) ∷ xs) = inr (k, v, Memᴰ.head refl, refl)

  -- Either no row matches, or the first row found is one that does.
  pub find_first-cases :
      (p : String → V → Bool) (s : db.State V)
      → ((find_first p s ≡ none) × (count p s ≡ 0))
        ⊎ ((k : String) × (v : V) × (db.find k s ≡ some v)
            × (p k v ≡ true)
            × (find_first p s ≡ some (k, v)))
  find_first-cases p s = elim (first_of_list (db.find_many p s)) [
    | inl (e, z) ↦ inl (rw e, z)
    | inr (k, v, m, e) ↦
        let (found, holds) = db.find_many_sound k v p s m in inr (k, v, found, holds, e)
  ]

  -- A row that matches a `where` with the key `k` in it is the row under `k`.
  pub find_of_count :
      (k : String) (q : V → Bool) (s : db.State V)
      → count (λ j v. j =s= k && q v) s ≢ 0
      → (v : V) × (db.find k s ≡ some v) × (q v ≡ true)
  find_of_count k q s h = elim (find_first-cases (λ j v. j =s= k && q v) s) [
    | inl (_, z) ↦ absurd (h z)
    | inr (j, v, found, holds, _) ↦ (v, rw (← (eq_iff j k).0 (ground arith)) found, ground arith)
  ]

  pub find_many-any :
      (k : String) (v : V) (p : String → V → Bool) (q : String × V → Bool) (s : db.State V)
      → db.find k s ≡ some v
      → p k v ≡ true
      → q (k, v) ≡ true
      → any q (db.find_many p s) ≡ true
  find_many-any k v p q s e h j =
      any-mem q (k, v) (db.find_many p s) (db.find_many_complete k v p s e h) j

  pub find_of_any :
      (p : String → V → Bool) (q : String × V → Bool) (s : db.State V)
      → any q (db.find_many p s) ≡ true
      → (k : String) × (v : V) × (db.find k s ≡ some v) × (p k v ≡ true) × (q (k, v) ≡ true)
  find_of_any p q s h =
      let (x, m, e) = mem_of_any q (db.find_many p s) h in
      let (found, holds) = db.find_many_sound x.0 x.1 p s m in (x.0, x.1, found, holds, e)
