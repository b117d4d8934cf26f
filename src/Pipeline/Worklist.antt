-- ===== src/Pipeline/Worklist.antt =====
-- The worklist and the batch of src/lcp/pipeline.py, and `counts_by_state` of job_store.py.
pub mod Summary
pub mod Batch
use local_content_processor.Prelude.{
  ℕ, suc, ◌+◌, String, Bool, true, false, ◌&&◌, Option, none, some, List, [], ◌∷◌, ◌++◌, length,
  ltb, keep, map, is_empty, if◌then◌else◌,
}
use local_content_processor.Prelude.Texts.{Text, codes, text_eq, Unicode, strip}
use local_content_processor.Core.Errors.{Result, ok, err, input_validation, unknown_state}
use local_content_processor.Core.State.{
  JobState, new, crawled, crawled_warn, process_failed, crawl_failed, processed, blocked, duplicate,
  needs_human_review, needs_revision, review_pending, approved, rejected, superseded,
  published_recorded, value, all_states, state_eq, state_mem, transient_states,
}
use local_content_processor.Storage.Json.{Json, num, str, obj, Obj, members}
use local_content_processor.Storage.World.{World, JobRecord, Host}
use local_content_processor.Storage.Exec.{Exec, pure, lift, gets, attempt, ◌>>=◌, ◌>>◌}
use local_content_processor.Storage.Audit.{append}
use local_content_processor.Storage.JobStore.{list_all, list_by_state}
use local_content_processor.Processor.DraftLinter.{gate_event}
use local_content_processor.Pipeline.{Stage2Tools, ProcessResult, process}

abbrev state_aliases : List (String × JobState)
state_aliases =
    ("pending", review_pending)
    ∷ ("review-pending", review_pending)
    ∷ ("blocked", blocked)
    ∷ ("duplicate", duplicate)
    ∷ ("needs-review", needs_human_review)
    ∷ ("needs-human-review", needs_human_review)
    ∷ ("needs-revision", needs_revision)
    ∷ ("approved", approved)
    ∷ ("processed", processed)
    ∷ ("rejected", rejected)
    ∷ ("published", published_recorded)
    ∷ ("published-recorded", published_recorded)
    ∷ ("superseded", superseded)
    ∷ ("new", new)
    ∷ ("crawled", crawled)
    ∷ ("crawled-warn", crawled_warn)
    ∷ ("crawl-failed", crawl_failed)
    ∷ ("process-failed", process_failed)
    ∷ []

abbrev by_alias : Text → List (String × JobState) → Option JobState
by_alias key [] = none
by_alias key ((alias, s) ∷ rest) =
    let later = by_alias key rest in if text_eq (codes alias) key then some s else later

-- `JobState(key)`
abbrev by_value : Text → List JobState → Option JobState
by_value key [] = none
by_value key (s ∷ rest) =
    let later = by_value key rest in if text_eq (codes (value s)) key then some s else later

abbrev or_value : Option JobState → Option JobState → Result JobState
or_value (some s) v = ok s
or_value none (some s) = ok s
or_value none none = err (input_validation unknown_state)

unfoldable pub resolve_state : Unicode → Text → Result JobState
resolve_state u name =
    let key = u.lower (strip u name) in
    or_value (by_alias key state_aliases) (by_value key all_states)

-- A state filter: none, a text, or a state.
pub data StateFilter : Type 0 where
  no_filter : StateFilter
  named : Text → StateFilter
  exactly : JobState → StateFilter

unfoldable pub list_jobs : Unicode → StateFilter → Exec (List JobRecord)
unfolding resolve_state list_by_state list_all
list_jobs u no_filter = list_all
list_jobs u (exactly s) = list_by_state s
list_jobs u (named name) = do s ← lift (resolve_state u name); list_by_state s

-- `counts_by_state`: the number of rows that GROUP BY finds with a state.
unfoldable pub counts_by_state : List JobRecord → JobState → ℕ
counts_by_state rows s = length (keep (λ r. state_eq r.state s) rows)

-- The loop of `batch_summary` over the states.
abbrev summary_rows : List JobRecord → List JobState → List (String × ℕ)
summary_rows rows [] = []
summary_rows rows (s ∷ states) =
    let rest = summary_rows rows states in
    if state_mem s transient_states
    then rest
    else if ltb 0 (counts_by_state rows s)
    then (value s, counts_by_state rows s) ∷ rest
    else rest

abbrev pub sum_values : List (String × ℕ) → ℕ
sum_values [] = 0
sum_values ((k, n) ∷ rest) = n + sum_values rest

-- `batch_summary`: the counts, and the total.
unfoldable pub batch_summary : List JobRecord → List (String × ℕ) × ℕ
unfolding counts_by_state
batch_summary rows = let summary = summary_rows rows all_states in (summary, sum_values summary)

-- `counts[key] = counts.get(key, 0) + 1`
abbrev count_one : JobState → List (JobState × ℕ) → List (JobState × ℕ)
count_one s [] = (s, 1) ∷ []
count_one s ((t, n) ∷ counts) =
    let rest = count_one s counts in if state_eq t s then (t, suc n) ∷ counts else (t, n) ∷ rest

abbrev pub count_states : List ProcessResult → List (JobState × ℕ) → List (JobState × ℕ)
count_states [] counts = counts
count_states (r ∷ rs) counts = count_states rs (count_one r.final_state counts)

abbrev pub completed : Result ProcessResult → List ProcessResult → List ProcessResult
completed (ok r) rs = r ∷ rs
completed (err e) rs = rs

module _ (host : Host) (t : Stage2Tools) (u : Unicode) (ts : String) (title : Text)
    (ai_copy : Bool) where
  -- The loop of `process_batch`: a job that raises is passed over.
  unfoldable pub process_rows : List JobRecord → Exec (List ProcessResult)
  unfolding process
  process_rows [] = pure []
  process_rows (rec ∷ recs) = do
    let later = process_rows recs
    out ← attempt (process host t rec.job_id ts title none ai_copy false)
    rest ← later
    pure (completed out rest)

  -- The event of a batch in which a job was completed.
  unfoldable pub record_batch : JobState → List ProcessResult → Exec (Unit {0})
  record_batch s results = if is_empty results then pure tt else (do
    append host (
        gate_event ts "batch" "BATCH_SUMMARY" "batch" "system" (
          ("source_state", str (value s))
          ∷ ("processed", num (length results))
          ∷ ("outcomes", obj (members (map (λ c. (value c.0, num c.1)) (count_states results []))))
          ∷ []))
    pure tt)

  -- The state is given by its name, as the shells do.
  unfoldable pub process_batch : Text → Exec (List ProcessResult)
  unfolding resolve_state process_rows record_batch
  process_batch name = do
    s ← lift (resolve_state u name)
    jobs ← list_by_state s
    results ← process_rows jobs
    record_batch s results
    pure results
