-- ===== src/Settings/Retention.antt =====
-- The retention of recordings in backend/src/settings/settings.service.ts.
use open_bastion.Base.{
  Bool-cases, Option-cases, String, ap, arith, bad_request, eq_iff, err, false, inl, inr, ltb, none,
  ok, refl, some, subst, ℕ, ◌*◌, ◌<◌, ◌||◌, ◌∙◌, ◌≡◌, ◌≢◌, ◌≤◌, ◌⊎◌,
}
use open_bastion.Database.{Database}
use open_bastion.Settings.{
  Settings, RetentionUnit, Numerals, unit_named, unit_to_ms, set, get_recording_retention,
  get_recording_retention_ms, set_recording_retention,
}

module _ (db : Database) (numerals : Numerals) where
  unit_named-ne-empty :
      (name : String) (unit : RetentionUnit) → unit_named name ≡ some unit → name ≢ ""
  unfolding unit_named
  unit_named-ne-empty name unit h empty =
      let g = subst (λ n. unit_named n ≡ some unit) empty h in cc

  retention_of_cache :
      (value : ℕ) (name : String) (unit : RetentionUnit) (s : Settings db)
      → s.cache "recordingRetentionValue" ≡ some (numerals.show value)
      → s.cache "recordingRetentionUnit" ≡ some name
      → unit_named name ≡ some unit
      → 1 ≤ value
      → get_recording_retention db numerals s ≡ some (value, unit)
  unfolding get_recording_retention
  retention_of_cache value name unit s e e' named low = ground (
    arith,
    eq_iff name "",
    eq_iff (numerals.show value) "",
    numerals.show-ne-empty value,
    numerals.read-show value,
    unit_named-ne-empty name unit named,
  )

  abbrev written : ℕ → String → Settings db → Settings db
  written value name s =
      set db "recordingRetentionUnit" name
        (set db "recordingRetentionValue" (numerals.show value) s)

  set_recording_retention-accepts :
      (value : ℕ) (name : String) (unit : RetentionUnit) (s : Settings db)
      → unit_named name ≡ some unit
      → (ltb value 1 || ltb 365 value) ≡ false
      → set_recording_retention db numerals value name s ≡ (written value name s, ok tt)
  unfolding set_recording_retention
  set_recording_retention-accepts value name unit s named within = ground (arith)

  written_retention :
      (value : ℕ) (name : String) (unit : RetentionUnit) (s : Settings db)
      → unit_named name ≡ some unit
      → 1 ≤ value
      → get_recording_retention db numerals (written value name s) ≡ some (value, unit)
  unfolding set
  written_retention value name unit s named low =
      retention_of_cache value name unit (written value name s) refl refl named low

  -- A retention is accepted exactly if it is 1 to 365 of a known unit, and is then the one in
  -- force, in milliseconds too, whatever was set before; a refused one changes nothing.
  pub set_recording_retention-get :
      (value : ℕ) (name : String) (s : Settings db)
      → let r = set_recording_retention db numerals value name s in
        ((unit : RetentionUnit) × (unit_named name ≡ some unit)
          × (1 ≤ value)
          × (value ≤ 365)
          × (r.1 ≡ ok tt)
          × (get_recording_retention db numerals r.0 ≡ some (value, unit))
          × (get_recording_retention_ms db numerals r.0 ≡ some (value * unit_to_ms unit)))
        ⊎ ((r ≡ (s, err bad_request)) × ((unit_named name ≡ none) ⊎ ((value < 1) ⊎ (365 < value))))
  unfolding set_recording_retention get_recording_retention_ms
  set_recording_retention-get value name s = elim (Option-cases (unit_named name)) [
    | inl unknown ↦ inr (ground (arith), inl unknown)
    | inr (unit, named) ↦ elim (Bool-cases (ltb value 1 || ltb 365 value)) [
      | inl out ↦ inr (
        ground (arith),
        inr (elim (Bool-cases (ltb value 1)) [
          | inl low ↦ inl (ground arith)
          | inr high ↦ inr (ground arith)
        ]),
      )
      | inr within ↦
          let accepted = set_recording_retention-accepts value name unit s named within in
          let stored = written_retention value name unit s named (ground (arith, within)) in
          let shown : get_recording_retention db numerals
                (set_recording_retention db numerals value name s).0
              ≡ some (value, unit) =
            (ap (λ r. get_recording_retention db numerals r.0) accepted ∙ stored) in
          inl (
            unit,
            named,
            ground (arith),
            ground (arith),
            ap (λ r. r.1) accepted,
            shown,
            ground (arith),
          )
    ]
  ]
