-- ===== src/Settings.antt =====
-- backend/src/settings/settings.service.ts: the cache of the settings and the table GlobalSetting
-- (its value, by `key`) that it is read from when the service starts. `Number` and `String` on
-- numbers are parameters.
pub mod Coherence
pub mod Retention
use open_bastion.Base.{
  Bool, Dict, List, Option, Result, String, [], any, bad_request, delete_key, empty_dict, err,
  false, get_or, if◌then◌else◌, is_some, ltb, none, not, ok, same_text, set_key, some, true, ℕ,
  ◌&&◌, ◌*◌, ◌==◌, ◌=s=◌, ◌||◌, ◌∷◌, ◌≡◌, ◌≢◌,
}
use open_bastion.Database.{Database}

abbrev pub allowed_langs : List String
allowed_langs = "fr" ∷ "en" ∷ []

pub data RetentionUnit : Type 0 where
  hour day month year : RetentionUnit

abbrev pub unit_name : RetentionUnit → String
unit_name hour = "hour"
unit_name day = "day"
unit_name month = "month"
unit_name year = "year"

-- ALLOWED_RETENTION_UNITS.includes(unit)
unfoldable pub unit_named : String → Option RetentionUnit
unit_named t =
    if t =s= "hour"
    then some hour
    else (if t =s= "day"
        then some day
        else (if t =s= "month" then some month else (if t =s= "year" then some year else none)))

abbrev pub unit_to_ms : RetentionUnit → ℕ
unit_to_ms hour = 3_600_000
unit_to_ms day = 86_400_000
unit_to_ms month = 30 * 86_400_000
unit_to_ms year = 365 * 86_400_000

-- `Number` gives `none` for what is not finite, or is negative.
pub record Numerals : Type 0 where
  pub show : ℕ → String
  pub read : String → Option ℕ
  pub read-show : (n : ℕ) → read (show n) ≡ some n
  pub show-ne-empty : (n : ℕ) → show n ≢ ""

pub data Protocol : Type 0 where
  ssh rdp : Protocol

abbrev pub enabled_key : Protocol → String
enabled_key ssh = "recordingSSHEnabled"
enabled_key rdp = "recordingRDPEnabled"

-- RECORDINGS_PATH, RECORDINGS_ENABLED and DEFAULT_LANG, as far as they are read.
pub record Environment : Type 0 where
  pub recordings_path : Option String
  pub recordings_enabled : Option String
  pub default_lang : Option String

-- A value that is neither missing nor empty.
abbrev pub truthy : Option String → Option String
truthy none = none
truthy (some t) = if t =s= "" then none else some t

module _ (db : Database) where
  pub record Settings : Type 0 where
    pub cache : Dict String
    pub rows : db.State String

  -- The loop of `onModuleInit`.
  abbrev pub load_rows : List (String × String) → Dict String → Dict String
  load_rows [] cache = cache
  load_rows ((k, v) ∷ rest) cache = load_rows rest (set_key k v cache)

  unfoldable pub on_module_init : Environment → db.State String → Settings
  on_module_init env rows =
      let loaded = load_rows (db.find_many (λ _ _. true) rows) empty_dict in
      (elim (truthy (loaded "defaultLang")) [
        | some _ ↦ record { cache = loaded; rows = rows }
        | none ↦ record {
          cache = set_key "defaultLang" (get_or (truthy env.default_lang) "fr") loaded;
          rows = rows;
        }
      ])

  unfoldable pub get : String → Settings → String
  get key s = get_or (s.cache key) ""

  unfoldable pub set : String → String → Settings → Settings
  set key value s = record { cache = set_key key value s.cache; rows = db.put key value s.rows }

  unfoldable pub get_default_lang : Settings → String
  get_default_lang s = elim (truthy (s.cache "defaultLang")) [
    | none ↦ "fr"
    | some lang ↦ if any (λ t. t =s= lang) allowed_langs then lang else "fr"
  ]

  unfoldable pub set_default_lang : String → Settings → Settings × Result (Unit {0})
  unfolding set
  set_default_lang lang s =
      if any (λ t. t =s= lang) allowed_langs
      then (set "defaultLang" lang s, ok tt)
      else (s, err bad_request)

  module _ (numerals : Numerals) where
    unfoldable pub get_recording_retention : Settings → Option (ℕ × RetentionUnit)
    get_recording_retention s = elim (truthy (s.cache "recordingRetentionValue")) [
      | none ↦ none
      | some raw ↦ elim (truthy (s.cache "recordingRetentionUnit")) [
        | none ↦ none
        | some name ↦ elim (unit_named name) [
          | none ↦ none
          | some unit ↦ elim (numerals.read raw) [
            | none ↦ none
            | some value ↦ if value == 0 then none else some (value, unit)
          ]
        ]
      ]
    ]

    unfoldable pub get_recording_retention_ms : Settings → Option ℕ
    unfolding get_recording_retention
    get_recording_retention_ms s = elim (get_recording_retention s) [
      | none ↦ none
      | some (value, unit) ↦ some (value * unit_to_ms unit)
    ]

    unfoldable pub set_recording_retention : ℕ → String → Settings → Settings × Result (Unit {0})
    unfolding set
    set_recording_retention value unit s = elim (unit_named unit) [
      | none ↦ (s, err bad_request)
      | some _ ↦ if ltb value 1 || ltb 365 value then (s, err bad_request) else (
        set "recordingRetentionUnit" unit (set "recordingRetentionValue" (numerals.show value) s),
        ok tt,
      )
    ]

  unfoldable pub clear_recording_retention : Settings → Settings
  clear_recording_retention s = record {
    cache = delete_key "recordingRetentionUnit" (delete_key "recordingRetentionValue" s.cache);
    rows =
        db.delete_many
          (λ k _. any (λ t. t =s= k) ("recordingRetentionValue" ∷ "recordingRetentionUnit" ∷ []))
          s.rows;
  }

  unfoldable pub is_recording_enabled : Environment → Protocol → Settings → Bool
  is_recording_enabled env protocol s =
      let stored = s.cache (enabled_key protocol) in
      if same_text stored (some "false")
      then false
      else (if same_text stored (some "true")
          then true
          else (is_some (truthy env.recordings_path)
              && not (same_text env.recordings_enabled (some "false"))))

  unfoldable pub set_recording_enabled : Protocol → Bool → Settings → Settings
  unfolding set
  set_recording_enabled protocol enabled s =
      set (enabled_key protocol) (if enabled then "true" else "false") s
