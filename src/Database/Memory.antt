-- ===== src/Database/Memory.antt =====
-- An in-memory table: the list of its rows, of which the first under a key counts.
use open_bastion.Base.{
  mem_cons_cases, ◌≡◌, refl, Bool, true, not, ◌&&◌, Option, none, some, List, [], ◌∷◌, String, Memᴰ,
  arith, ◌=s=◌, if◌then◌else◌, eq_iff, Bool-cases, inl, inr, ◌∙◌,
}
use mathlib.Core.Path.{ap₂}
use open_bastion.Database.Interface.{Database, updated, kept}

module _ {V : Type 0} where
  abbrev pub lookup : String → List (String × V) → Option V
  lookup k [] = none
  lookup k ((j, v) ∷ rows) = if j =s= k then some v else lookup k rows

  abbrev pub update_rows : (String → V → Bool) → (V → V) → List (String × V) → List (String × V)
  update_rows p f [] = []
  update_rows p f ((k, v) ∷ rows) = (k, if p k v then f v else v) ∷ update_rows p f rows

  abbrev pub erase_key : String → List (String × V) → List (String × V)
  erase_key k [] = []
  erase_key k ((j, v) ∷ rows) = if j =s= k then erase_key k rows else (j, v) ∷ erase_key k rows

  abbrev pub delete_rows : (String → V → Bool) → List (String × V) → List (String × V)
  delete_rows p [] = []
  delete_rows p ((k, v) ∷ rows) =
      if p k v then erase_key k (delete_rows p rows) else (k, v) ∷ delete_rows p rows

  abbrev pub find_rows : (String → V → Bool) → List (String × V) → List (String × V)
  find_rows p [] = []
  find_rows p ((k, v) ∷ rows) =
      let rest = find_rows (λ j w. p j w && not (k =s= j)) rows in
      if p k v then (k, v) ∷ rest else rest

  pub lookup-update_rows :
      (k : String) (p : String → V → Bool) (f : V → V) (rows : List (String × V))
      → lookup k (update_rows p f rows) ≡ updated p f k (lookup k rows)
  lookup-update_rows k p f [] = refl
  lookup-update_rows k p f ((j, v) ∷ rows) =
      ground (arith, lookup-update_rows k p f rows, eq_iff j k)

  lookup-erase_key :
      (k j : String) (rows : List (String × V))
      → lookup k (erase_key j rows) ≡ (if j =s= k then none else lookup k rows)
  lookup-erase_key k j [] = ground arith
  lookup-erase_key k j ((i, v) ∷ rows) =
      ground (arith, lookup-erase_key k j rows, eq_iff j k, eq_iff i j, eq_iff i k)

  pub lookup-delete_rows :
      (k : String) (p : String → V → Bool) (rows : List (String × V))
      → lookup k (delete_rows p rows) ≡ kept p k (lookup k rows)
  lookup-delete_rows k p [] = refl
  lookup-delete_rows k p ((j, v) ∷ rows) =
      ground
        (arith, lookup-delete_rows k p rows, lookup-erase_key k j (delete_rows p rows), eq_iff j k)

  pub find_rows_sound :
      (k : String) (v : V) (p : String → V → Bool) (rows : List (String × V))
      → Memᴰ (k, v) (find_rows p rows)
      → (lookup k rows ≡ some v) × (p k v ≡ true)
  find_rows_sound k v p [] m = elim m [ ]
  find_rows_sound k v p ((j, w) ∷ rows) m = elim (Bool-cases (p j w)) [
    | inl e ↦ elim (mem_cons_cases k j v w _ (rw e at m)) [
      | inl (same, val) ↦ ground (arith, eq_iff j k)
      | inr n ↦ later (find_rows_sound k v (λ i u. p i u && not (j =s= i)) rows n)
    ]
    | inr e ↦ later (find_rows_sound k v (λ i u. p i u && not (j =s= i)) rows (rw e at m))
  ]
    where
      later :
          (lookup k rows ≡ some v) × ((p k v && not (j =s= k)) ≡ true)
          → (lookup k ((j, w) ∷ rows) ≡ some v) × (p k v ≡ true)
      later h = ground arith

  pub find_rows_complete :
      (k : String) (v : V) (p : String → V → Bool) (rows : List (String × V))
      → lookup k rows ≡ some v
      → p k v ≡ true
      → Memᴰ (k, v) (find_rows p rows)
  find_rows_complete k v p [] e h = cc
  find_rows_complete k v p ((j, w) ∷ rows) e h = elim (Bool-cases (j =s= k)) [
    | inl same ↦ here (cc ((eq_iff j k).0 same)) (ground arith)
    | inr other ↦
        let rest =
          find_rows_complete k v (λ i u. p i u && not (j =s= i)) rows (ground arith)
            (ground arith) in
        elim (Bool-cases (p j w)) [ inl f ↦ rw f (Memᴰ.tail rest) | inr f ↦ rw f rest ]
  ]
    where
      here : j ≡ k → w ≡ v → Memᴰ (k, v) (find_rows p ((j, w) ∷ rows))
      here a b = rw (ap₂ p a b ∙ h) (Memᴰ.head (cc))

abbrev pub memory : Database
memory = record {
  State = λ V. List (String × V);
  empty = λ V. [];
  find = lookup;
  put = λ k v s. (k, v) ∷ s;
  update_many = update_rows;
  delete_many = delete_rows;
  find_many = find_rows;
  find-empty = λ V k. refl;
  find-put = λ j k v s. refl;
  find-update_many = lookup-update_rows;
  find-delete_many = lookup-delete_rows;
  find_many_sound = find_rows_sound;
  find_many_complete = find_rows_complete;
}
