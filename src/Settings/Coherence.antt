-- ===== src/Settings/Coherence.antt =====
-- The cache of backend/src/settings/settings.service.ts against the table.
use open_bastion.Base.{
  mem_cons_cases, Bool, Bool-cases, Dict, List, Memᴰ, Option-cases, String, [], any, ap, arith,
  empty_dict, eq_iff, get_or, if◌then◌else◌, inl, inr, ltb, refl, set_key, some, subst, sym, true,
  ℕ, ◌=s=◌, ◌||◌, ◌∙◌, ◌∷◌, ◌≡◌, ◌≢◌, ◌⊎◌,
}
use open_bastion.Database.{Database}
use open_bastion.Settings.{
  Environment, Settings, Protocol, Numerals, allowed_langs, enabled_key, unit_named, truthy,
  load_rows, on_module_init, get, set, set_default_lang, set_recording_retention,
  clear_recording_retention, set_recording_enabled,
}

module _ (db : Database) where
  load_rows-finds :
      (rows : List (String × String)) (cache : Dict String) (k : String) (s : db.State String)
      → ((j w : String) → Memᴰ (j, w) rows → db.find j s ≡ some w)
      → ((w : String) → cache k ≡ some w → db.find k s ≡ some w)
      → ((w : String) → db.find k s ≡ some w → (cache k ≡ some w) ⊎ Memᴰ (k, w) rows)
      → load_rows db rows cache k ≡ db.find k s
  load_rows-finds [] cache k s sound kept all_in = elim (Option-cases (cache k)) [
    | inl empty ↦ elim (Option-cases (db.find k s)) [
      | inl missing ↦ cc
      | inr (w, found) ↦
          absurd (elim (all_in w found) [ inl e ↦ ground arith | inr m ↦ (elim m [ ]) ])
    ]
    | inr (w, cached) ↦ cached ∙ sym (kept w cached)
  ]
  load_rows-finds ((j, v) ∷ rows) cache k s sound kept all_in =
      load_rows-finds rows (set_key j v cache) k s (λ i w m. sound i w (Memᴰ.tail m))
        (λ w e. ground (arith, eq_iff j k, sound j v (Memᴰ.head refl), kept w))
        (λ w found. elim (all_in w found) [
          | inl e ↦ inl (ground (arith, eq_iff j k, sound j v (Memᴰ.head refl)))
          | inr m ↦ elim (mem_cons_cases k j w v rows m) [
            | inl (same, agree) ↦ inl (ground (arith, eq_iff j k))
            | inr later ↦ inr later
          ]
        ])

  -- Every key but the language's has the value of the table, and so has the language if one is set.
  pub record IsCoherent (s : Settings db) : Type 0 where
    pub plain : (k : String) → k ≢ "defaultLang" → s.cache k ≡ db.find k s.rows
    pub lang :
        (v : String)
        → v ≢ ""
        → db.find "defaultLang" s.rows ≡ some v
        → s.cache "defaultLang" ≡ some v

  pub on_module_init-IsCoherent :
      (env : Environment) (rows : db.State String) → IsCoherent (on_module_init db env rows)
  unfolding on_module_init
  on_module_init-IsCoherent env rows =
      let loaded = load_rows db (db.find_many (λ _ _. true) rows) empty_dict in
      let agrees : (k : String) → loaded k ≡ db.find k rows = (λ k.
        load_rows-finds (db.find_many (λ _ _. true) rows) empty_dict k rows
          (λ j w m. (db.find_many_sound j w (λ _ _. true) rows m).0) (λ w e. absurd (ground arith))
          (λ w found. inr (db.find_many_complete k w (λ _ _. true) rows found refl))) in
      elim (Option-cases (truthy (loaded "defaultLang"))) [
        | inl e ↦
            rw (e, on_module_init)
              (record {
                plain = λ k other. ground (arith, eq_iff "defaultLang" k, agrees k);
                lang = λ v full found. absurd (ground (arith, agrees "defaultLang", eq_iff v ""));
              })
        | inr (v, e) ↦
            rw (e, on_module_init)
              (record {
                plain = λ k other. agrees k;
                lang = λ v full found. agrees "defaultLang" ∙ found;
              })
      ]

  pub set-IsCoherent :
      (key value : String) (s : Settings db) → IsCoherent s → IsCoherent (set db key value s)
  unfolding set
  set-IsCoherent key value s v = record {
    plain = λ k other. ground (arith, v.plain k other, db.find-put k key value s.rows);
    lang =
        λ w full found. ground (arith, v.lang w full, db.find-put "defaultLang" key value s.rows);
  }

  abbrev is_retention : String → String → Bool
  is_retention k v = any (λ t. t =s= k) ("recordingRetentionValue" ∷ "recordingRetentionUnit" ∷ [])

  pub clear-IsCoherent :
      (s : Settings db) → IsCoherent s → IsCoherent (clear_recording_retention db s)
  unfolding clear_recording_retention
  clear-IsCoherent s v = record {
    plain = λ k other. ground (arith, v.plain k other, db.find-delete_many k is_retention s.rows);
    lang = λ w full found.
        ground (arith, v.lang w full, db.find-delete_many "defaultLang" is_retention s.rows);
  }

  pub data Operation : Type 0 where
    speaks : String → Operation
    retains : Numerals → ℕ → String → Operation
    clears : Operation
    enables : Protocol → Bool → Operation

  unfoldable pub apply : Operation → Settings db → Settings db
  apply (speaks lang) s = (set_default_lang db lang s).0
  apply (retains numerals value unit) s = (set_recording_retention db numerals value unit s).0
  apply clears s = clear_recording_retention db s
  apply (enables protocol enabled) s = set_recording_enabled db protocol enabled s

  abbrev pub run_operations : List Operation → Settings db → Settings db
  run_operations [] s = s
  run_operations (o ∷ os) s = run_operations os (apply o s)

  set_default_lang-IsCoherent :
      (lang : String) (s : Settings db) → IsCoherent s → IsCoherent (set_default_lang db lang s).0
  unfolding set_default_lang
  set_default_lang-IsCoherent lang s v = elim (Bool-cases (any (λ t. t =s= lang) allowed_langs)) [
    | inl known ↦ rw (known, set_default_lang) (set-IsCoherent "defaultLang" lang s v)
    | inr unknown ↦ rw (unknown, set_default_lang) v
  ]

  set_recording_retention-IsCoherent :
      (numerals : Numerals) (value : ℕ) (unit : String) (s : Settings db)
      → IsCoherent s
      → IsCoherent (set_recording_retention db numerals value unit s).0
  unfolding set_recording_retention
  set_recording_retention-IsCoherent numerals value unit s v =
      elim (Option-cases (unit_named unit)) [
        | inl unknown ↦ rw (unknown, set_recording_retention) v
        | inr (u, known) ↦ elim (Bool-cases (ltb value 1 || ltb 365 value)) [
          | inl out ↦ rw (known, out, set_recording_retention) v
          | inr within ↦
              rw (known, within, set_recording_retention)
                (set-IsCoherent "recordingRetentionUnit" unit
                  (set db "recordingRetentionValue" (numerals.show value) s)
                  (set-IsCoherent "recordingRetentionValue" (numerals.show value) s v))
        ]
      ]

  apply-IsCoherent : (o : Operation) (s : Settings db) → IsCoherent s → IsCoherent (apply o s)
  unfolding apply set_recording_enabled
  apply-IsCoherent (speaks lang) s v = set_default_lang-IsCoherent lang s v
  apply-IsCoherent (retains numerals value unit) s v =
      set_recording_retention-IsCoherent numerals value unit s v
  apply-IsCoherent clears s v = clear-IsCoherent s v
  apply-IsCoherent (enables protocol enabled) s v =
      set-IsCoherent (enabled_key protocol) (if enabled then "true" else "false") s v

  run_operations-IsCoherent :
      (os : List Operation) (s : Settings db) → IsCoherent s → IsCoherent (run_operations os s)
  run_operations-IsCoherent [] s v = v
  run_operations-IsCoherent (o ∷ os) s v =
      run_operations-IsCoherent os (apply o s) (apply-IsCoherent o s v)

  IsCoherent-finds :
      (k t : String) (s : Settings db)
      → IsCoherent s
      → t ≢ ""
      → db.find k s.rows ≡ some t
      → s.cache k ≡ some t
  IsCoherent-finds k t s v full found = elim (Bool-cases (k =s= "defaultLang")) [
    | inl lang ↦
        let e = (eq_iff k "defaultLang").0 lang in
        subst (λ j. s.cache j ≡ some t) (sym e)
          (v.lang t full (subst (λ j. db.find j s.rows ≡ some t) e found))
    | inr other ↦ v.plain k (λ e. ground (arith, eq_iff k "defaultLang")) ∙ found
  ]

  on_module_init-rows :
      (env : Environment) (rows : db.State String) → (on_module_init db env rows).rows ≡ rows
  unfolding on_module_init
  on_module_init-rows env rows = ground (arith)

  -- After any operations, a restart finds every setting as it was, in whatever environment; of the
  -- language this holds if one that is not empty is stored.
  pub restart_same :
      (before after : Environment) (rows : db.State String) (os : List Operation) (k : String)
      → let s = run_operations os (on_module_init db before rows) in
        (k ≢ "defaultLang") ⊎ ((v : String) × (v ≢ "") × (db.find k s.rows ≡ some v))
        → let s = run_operations os (on_module_init db before rows) in
          get db k (on_module_init db after s.rows) ≡ get db k s
  unfolding get
  restart_same before after rows os k h =
      let s = run_operations os (on_module_init db before rows) in
      let v =
        run_operations-IsCoherent os (on_module_init db before rows)
          (on_module_init-IsCoherent before rows) in
      let w = on_module_init-IsCoherent after s.rows in
      let kept = on_module_init-rows after s.rows in
      elim h [
        | inl other ↦
            ap (λ o. get_or o "")
              (w.plain k other ∙ (ap (λ t. db.find k t) kept ∙ sym (v.plain k other)))
        | inr (t, full, found) ↦
            ap (λ o. get_or o "")
              (IsCoherent-finds k t (on_module_init db after s.rows) w full
                  (ap (λ u. db.find k u) kept ∙ found)
                ∙ sym (IsCoherent-finds k t s v full found))
      ]
