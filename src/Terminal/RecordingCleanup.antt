-- ===== src/Terminal/RecordingCleanup.antt =====
-- backend/src/terminal/recording/recording-cleanup.service.ts: the hourly sweep. The file system
-- answers each `unlink`; what the sweep writes to the audit log is left out.
pub mod Spared
use open_bastion.Base.{
  >>=-eq-ok, Bool, Bool-cases, Dict, HttpException, List, Memᴰ, Option, Option-cases, Result,
  Result-cases, String, [], all, any, any-mem, ap, arith, bad_request, conflict, delete_key, drop,
  empty_dict, eq_iff, eq_refl, err, false, forbidden, get_or, guard, guard-eq-ok, head_of, if_false,
  if_true, if◌then◌else◌, inl, inr, internal_server_error, is_some, is_white_space, leb, length,
  length-append, ltb, ltb→lt, lt→ltb, map, max, mem_cons_cases, mem_of_any, min, none, not,
  not_found, ok, ok-injective, or_throw, or_throw-eq-ok, refl, same_text, same_text_iff, set_key,
  some, str_eq, subst, suc, sym, take, true, unauthorized, zero, zero-cases, ℕ, ◌%◌, ◌&&◌, ◌*◌,
  ◌++◌, ◌+◌, ◌-◌, ◌/◌, ◌<◌, ◌==◌, ◌=s=◌, ◌>>=◌, ◌>>◌, ◌^◌, ◌||◌, ◌↔◌, ◌∙◌, ◌∷◌, ◌≡◌, ◌≢◌, ◌≤◌, ◌⊎◌,
}
use open_bastion.Database.{Database}
use open_bastion.Settings.{Settings, Numerals, get_recording_retention_ms}
use open_bastion.Settings.{Settings, get_recording_retention_ms}

pub record Recording : Type 0 where
  pub session_id : String
  pub file_path : String
  pub started_at : ℕ
  pub ended_at : Option ℕ
  pub pinned : Bool

-- How `fs.unlink` ends: done, with ENOENT, or with another error.
pub data Unlink : Type 0 where
  unlinked missing failed : Unlink

abbrev pub batch_size : ℕ
batch_size = 200

-- The `where` of the candidates.
unfoldable pub is_candidate : ℕ → List String → String → Recording → Bool
is_candidate cutoff active id r =
    not r.pinned
    && (elim r.ended_at [ none ↦ false | some t ↦ ltb t cutoff ])
    && not (any (str_eq r.session_id) active)

-- `orderBy: { startedAt: 'asc' }`
unfoldable pub insert_by_start :
    String × Recording → List (String × Recording) → List (String × Recording)
insert_by_start x [] = x ∷ []
insert_by_start x (y ∷ ys) =
    let rest = insert_by_start x ys in
    if leb x.1.started_at y.1.started_at then x ∷ y ∷ ys else y ∷ rest

unfoldable pub by_start : List (String × Recording) → List (String × Recording)
unfolding insert_by_start
by_start [] = []
by_start (x ∷ xs) = insert_by_start x (by_start xs)

-- Whether the file is gone, or there is none.
unfoldable pub file_gone : (String → Unlink) → String → Bool
file_gone unlink path =
    if path =s= "" then true else (elim (unlink path) [ failed ↦ false | _ ↦ true ])

module _ (db : Database) where
  -- The loop; a row that is gone already is an error, which is logged.
  unfoldable pub delete_batch :
      (String → Unlink) → List (String × Recording) → db.State Recording → db.State Recording
  unfolding file_gone
  delete_batch unlink [] s = s
  delete_batch unlink ((id, r) ∷ rs) s =
      delete_batch unlink rs
        (if file_gone unlink r.file_path then db.delete_many (λ k _. k =s= id) s else s)

  unfoldable pub candidates : ℕ → List String → db.State Recording → List (String × Recording)
  unfolding by_start
  candidates cutoff active s =
      take batch_size (by_start (db.find_many (is_candidate cutoff active) s))

  -- `if (!retentionMs) return`
  unfoldable pub sweep_after :
      ℕ → Option ℕ → List String → (String → Unlink) → db.State Recording → db.State Recording
  unfolding delete_batch candidates
  sweep_after now none active unlink s = s
  sweep_after now (some retention) active unlink s =
      if retention == 0 then s else delete_batch unlink (candidates (now - retention) active s) s

  unfoldable pub sweep :
      Numerals
      → ℕ
      → Settings db
      → List String
      → (String → Unlink)
      → db.State Recording
      → db.State Recording
  unfolding sweep_after
  sweep numerals now settings active unlink s =
      sweep_after now (get_recording_retention_ms db numerals settings) active unlink s
