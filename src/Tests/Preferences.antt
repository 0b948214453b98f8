-- ===== src/Tests/Preferences.antt =====
-- The theorems on the settings and the sweep of recordings at concrete inputs.
use open_bastion.Base.{
  String, [], ap, arith, bad_request, empty_dict, eq_iff, err, false, inl, none, ok, refl, set_key,
  some, suc, sym, true, zero, ℕ, ◌*◌, ◌+◌, ◌-◌, ◌<◌, ◌∙◌, ◌∷◌, ◌≡◌, ◌≢◌, ◌≤◌, ◌⊎◌,
}
use Prim.Native.String.{◌++◌ as append, count as char_count}
use text.Mathlib.TextLemmas.{length-append as count-append}
use open_bastion.Database.{memory}
use open_bastion.Settings.{
  Settings, Environment, Numerals, RetentionUnit, ssh, unit_named, unit_to_ms,
  set_recording_retention, get_recording_retention, get_recording_retention_ms, on_module_init, get,
}
use open_bastion.Terminal.RecordingCleanup.{Recording, unlinked, sweep}
use open_bastion.Terminal.RecordingCleanup.Spared.{IsExpired, IsGone, sweep-IsExpired}
use open_bastion.Settings.Retention.{set_recording_retention-get}
use open_bastion.Settings.Coherence.{retains, clears, enables, run_operations, restart_same}

-- Numbers as tallies.
abbrev tally : ℕ → String
tally zero = "0"
tally (suc n) = append "I" (tally n)

count-tally : (n : ℕ) → char_count (tally n) ≡ n + 1
count-tally zero = refl
count-tally (suc n) = count-append "I" (tally n) ∙ rw (count-tally n) (omega arith)

read-tally : (n : ℕ) → some (char_count (tally n) - 1) ≡ some n
read-tally n = rw (count-tally n) (ap (λ m. some m) (omega arith))

tally-ne-empty : (n : ℕ) → tally n ≢ ""
tally-ne-empty n h = omega (arith, sym (count-tally n) ∙ ap (λ t. char_count t) h)

abbrev tallies : Numerals
tallies = record {
  show = tally;
  read = λ t. some (char_count t - 1);
  read-show = read-tally;
  show-ne-empty = tally-ne-empty;
}

abbrev no_variables : Environment
no_variables = record { recordings_path = none; recordings_enabled = none; default_lang = none }

abbrev stored : Settings memory
stored = record {
  cache = set_key "recordingRetentionValue" "0" empty_dict;
  rows = ("recordingRetentionValue", "0") ∷ [];
}

set_recording_retention-get_example :
    let r = set_recording_retention memory tallies 30 "day" stored in
    ((unit : RetentionUnit) × (unit_named "day" ≡ some unit)
      × (1 ≤ 30)
      × (30 ≤ 365)
      × (r.1 ≡ ok tt)
      × (get_recording_retention memory tallies r.0 ≡ some (30, unit))
      × (get_recording_retention_ms memory tallies r.0 ≡ some (30 * unit_to_ms unit)))
    ⊎ ((r ≡ (stored, err bad_request)) × ((unit_named "day" ≡ none) ⊎ ((30 < 1) ⊎ (365 < 30))))
set_recording_retention-get_example = set_recording_retention-get memory tallies 30 "day" stored

abbrev settings_after : Settings memory
settings_after =
    run_operations memory (retains tallies 30 "day" ∷ enables ssh true ∷ clears ∷ [])
      (on_module_init memory no_variables [])

restart_same_example :
    get memory "recordingSSHEnabled" (on_module_init memory no_variables settings_after.rows)
    ≡ get memory "recordingSSHEnabled" settings_after
restart_same_example =
    restart_same memory no_variables no_variables []
      (retains tallies 30 "day" ∷ enables ssh true ∷ clears ∷ []) "recordingSSHEnabled"
      (inl (λ e. ground (arith, eq_iff "recordingSSHEnabled" "defaultLang")))

abbrev daily : Settings memory
daily = (set_recording_retention memory tallies 1 "day" stored).0

abbrev old_recording : Recording
old_recording = record {
  session_id = "s1";
  file_path = "/recordings/s1";
  started_at = 0;
  ended_at = some 5;
  pinned = false;
}

sweep-IsExpired_example :
    (memory.find "r1"
        (sweep memory tallies 100_000_000 daily [] (λ f. unlinked) (("r1", old_recording) ∷ []))
      ≡ some old_recording)
    ⊎ ((retention : ℕ) × (memory.find "r1"
            (sweep memory tallies 100_000_000 daily [] (λ f. unlinked) (("r1", old_recording) ∷ []))
          ≡ none)
        × (get_recording_retention_ms memory tallies daily ≡ some retention)
        × (retention ≢ 0)
        × IsExpired memory 100_000_000 retention [] old_recording
        × IsGone memory (λ f. unlinked) "/recordings/s1")
sweep-IsExpired_example =
    sweep-IsExpired memory tallies 100_000_000 daily [] (λ f. unlinked) (("r1", old_recording) ∷ [])
      "r1" old_recording refl
