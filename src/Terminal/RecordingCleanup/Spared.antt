-- ===== src/Terminal/RecordingCleanup/Spared.antt =====
-- Which recordings the sweep of backend/src/terminal/recording/recording-cleanup.service.ts deletes.
use open_bastion.Base.{
  Bool-cases, List, Memᴰ, Option-cases, String, [], any, arith, eq_iff, false, if◌then◌else◌, inl,
  inr, leb, none, refl, some, str_eq, suc, take, true, zero, ℕ, ◌+◌, ◌-◌, ◌<◌, ◌==◌, ◌=s=◌, ◌∙◌,
  ◌∷◌, ◌≡◌, ◌≢◌, ◌⊎◌,
}
use open_bastion.Database.{Database}
use open_bastion.Settings.{Settings, Numerals, get_recording_retention_ms}
use open_bastion.Terminal.RecordingCleanup.{
  Recording, Unlink, unlinked, missing, failed, batch_size, is_candidate, insert_by_start, by_start,
  file_gone, delete_batch, candidates, sweep_after, sweep,
}

mem_cons :
    (x y : String × Recording) (ys : List (String × Recording))
    → Memᴰ x (y ∷ ys)
    → (x ≡ y) ⊎ Memᴰ x ys
mem_cons x y ys (Memᴰ.head e) = inl e
mem_cons x y ys (Memᴰ.tail m) = inr m

mem_insert :
    (x y : String × Recording) (ys : List (String × Recording))
    → Memᴰ x (insert_by_start y ys)
    → (x ≡ y) ⊎ Memᴰ x ys
unfolding insert_by_start
mem_insert x y [] m = mem_cons x y [] m
mem_insert x y (z ∷ zs) m = elim (Bool-cases (leb y.1.started_at z.1.started_at)) [
  | inl first ↦ mem_cons x y (z ∷ zs) (rw first at m)
  | inr later ↦ elim (mem_cons x z (insert_by_start y zs) (rw later at m)) [
    | inl e ↦ inr (Memᴰ.head e)
    | inr k ↦ elim (mem_insert x y zs k) [ inl e ↦ inl e | inr n ↦ inr (Memᴰ.tail n) ]
  ]
]

mem_by_start :
    (x : String × Recording) (xs : List (String × Recording)) → Memᴰ x (by_start xs) → Memᴰ x xs
unfolding by_start
mem_by_start x [] m = m
mem_by_start x (y ∷ ys) m = elim (mem_insert x y (by_start ys) m) [
  | inl e ↦ Memᴰ.head e
  | inr n ↦ Memᴰ.tail (mem_by_start x ys n)
]

mem_take :
    (n : ℕ) (x : String × Recording) (xs : List (String × Recording))
    → Memᴰ x (take n xs)
    → Memᴰ x xs
mem_take zero x xs m = elim m [ ]
mem_take (suc n) x [] m = m
mem_take (suc n) x (y ∷ ys) (Memᴰ.head e) = Memᴰ.head e
mem_take (suc n) x (y ∷ ys) (Memᴰ.tail m) = Memᴰ.tail (mem_take n x ys m)

module _ (db : Database) where
  -- One round of the loop.
  abbrev after_one :
      (String → Unlink) → String → Recording → db.State Recording → db.State Recording
  after_one unlink k r s =
      if file_gone unlink r.file_path then db.delete_many (λ j _. j =s= k) s else s

  after_one_cases :
      (unlink : String → Unlink) (k : String) (r : Recording) (s : db.State Recording) (id : String)
      → (db.find id (after_one unlink k r s) ≡ db.find id s)
        ⊎ ((id ≡ k)
            × (file_gone unlink r.file_path ≡ true)
            × (db.find id (after_one unlink k r s) ≡ none))
  after_one_cases unlink k r s id = elim (Bool-cases (file_gone unlink r.file_path)) [
    | inr kept_file ↦ inl (rw kept_file refl)
    | inl gone ↦ elim (Bool-cases (id =s= k)) [
      | inl same ↦
          inr
            ((eq_iff id k).0 same, gone, ground (arith, db.find-delete_many id (λ j _. j =s= k) s))
      | inr other ↦ inl (ground (arith, db.find-delete_many id (λ j _. j =s= k) s))
    ]
  ]

  -- A row after the loop is the one before, or gone together with its file.
  delete_batch_cases :
      (unlink : String → Unlink) (rs : List (String × Recording)) (s : db.State Recording)
      (id : String)
      → (db.find id (delete_batch db unlink rs s) ≡ db.find id s)
        ⊎ ((r : Recording) × Memᴰ (id, r) rs
            × (file_gone unlink r.file_path ≡ true)
            × (db.find id (delete_batch db unlink rs s) ≡ none))
  unfolding delete_batch
  delete_batch_cases unlink [] s id = inl refl
  delete_batch_cases unlink ((k, r) ∷ rs) s id =
      elim (delete_batch_cases unlink rs (after_one unlink k r s) id) [
        | inr (q, m, gone, none_left) ↦ inr (q, Memᴰ.tail m, gone, none_left)
        | inl e ↦ elim (after_one_cases unlink k r s id) [
          | inl f ↦ inl (e ∙ f)
          | inr (same, gone, none_left) ↦ inr (r, Memᴰ.head (λ i. (same i, r)), gone, e ∙ none_left)
        ]
      ]

  -- The row names no file, or the file was unlinked now, or there was none.
  abbrev pub IsGone : (String → Unlink) → String → Type 0
  IsGone unlink path = (path ≡ "") ⊎ ((unlink path ≡ unlinked) ⊎ (unlink path ≡ missing))

  unlink_cases : (u : Unlink) → (u ≡ unlinked) ⊎ ((u ≡ missing) ⊎ (u ≡ failed))
  unlink_cases unlinked = inl refl
  unlink_cases missing = inr (inl refl)
  unlink_cases failed = inr (inr refl)

  file_gone-IsGone :
      (unlink : String → Unlink) (path : String) → file_gone unlink path ≡ true → IsGone unlink path
  unfolding file_gone
  file_gone-IsGone unlink path h = elim (Bool-cases (path =s= "")) [
    | inl unnamed ↦ inl ((eq_iff path "").0 unnamed)
    | inr named ↦ elim (unlink_cases (unlink path)) [
      | inl e ↦ inr (inl e)
      | inr (inl e) ↦ inr (inr e)
      | inr (inr e) ↦ absurd (ground arith)
    ]
  ]

  -- What the conditions of a candidate say.
  abbrev pub IsExpired : ℕ → ℕ → List String → Recording → Type 0
  IsExpired now retention active r =
      (r.pinned ≡ false)
      × (any (str_eq r.session_id) active ≡ false)
      × ((t : ℕ) × (r.ended_at ≡ some t) × (t + retention < now))

  is_candidate-IsExpired :
      (now retention : ℕ) (active : List String) (id : String) (r : Recording)
      → is_candidate (now - retention) active id r ≡ true
      → IsExpired now retention active r
  unfolding is_candidate
  is_candidate-IsExpired now retention active id r h = elim (Option-cases r.ended_at) [
    | inl e ↦ ground arith
    | inr (t, e) ↦ (ground arith, ground arith, (t, e, ground arith))
  ]

  -- After a sweep, during which nothing else touches the table, the row of a recording is as it was,
  -- or it is gone: then a retention other than zero is in force, the recording is not pinned, its
  -- session is not an active one and ended longer ago than the retention, and its file has been
  -- unlinked or was missing, unless the row names none.
  pub sweep-IsExpired :
      (numerals : Numerals) (now : ℕ) (settings : Settings db) (active : List String)
      (unlink : String → Unlink) (s : db.State Recording) (id : String) (r : Recording)
      → db.find id s ≡ some r
      → (db.find id (sweep db numerals now settings active unlink s) ≡ some r)
        ⊎ ((retention : ℕ) × (db.find id (sweep db numerals now settings active unlink s) ≡ none)
            × (get_recording_retention_ms db numerals settings ≡ some retention)
            × (retention ≢ 0)
            × IsExpired now retention active r
            × IsGone unlink r.file_path)
  unfolding sweep sweep_after candidates
  sweep-IsExpired numerals now settings active unlink s id r found =
      elim (Option-cases (get_recording_retention_ms db numerals settings)) [
        | inl off ↦ inl (rw (off, sweep) found)
        | inr (retention, on) ↦ elim (Bool-cases (retention == 0)) [
          | inl z ↦ inl (rw (sweep, on, sweep_after, z) found)
          | inr positive ↦
              elim (delete_batch_cases unlink (candidates db (now - retention) active s) s id) [
                | inl e ↦ inl (rw (sweep, on, sweep_after, positive) (e ∙ found))
                | inr (q, m, gone, none_left) ↦
                    let (there, fits) =
                      db.find_many_sound id q (is_candidate (now - retention) active) s (
                        mem_by_start (id, q)
                          (db.find_many (is_candidate (now - retention) active) s)
                          (mem_take batch_size (id, q)
                            (by_start (db.find_many (is_candidate (now - retention) active) s))
                            m)) in
                    let same : q ≡ r = cc in
                    inr (
                      retention,
                      rw (sweep, on, sweep_after, positive) none_left,
                      on,
                      (λ z. ground arith),
                      is_candidate-IsExpired now retention active id r (rw same at fits),
                      file_gone-IsGone unlink r.file_path (rw same at gone),
                    )
              ]
        ]
      ]
