-- ===== src/Storage/JobStore.antt =====
-- src/lcp/adapters/storage/job_store.py: the table of jobs, the folder of each job with its marker
-- and its crash counter, and the deletion. A transaction is one change of the table, since a raise
-- inside it rolls back and the lock keeps other writers out.
pub mod Rows
pub mod Lifecycle
pub mod Table
pub mod Deletion
pub mod Invariant
use local_content_processor.Prelude.{
  ℕ, ◌+◌, String, Bool, true, false, not, ◌&&◌, Option, none, some, List, [], ◌∷◌, ◌++◌, is_some,
  length, str_eq, if◌then◌else◌,
}
use local_content_processor.Prelude.Integers.{ℤ, pos, next}
use local_content_processor.Core.Errors.{
  Result, ok, err, input_validation, transient_state, unknown_job, job_exists,
}
use local_content_processor.Core.State.{
  JobState, ReviewReason, processing, value, state_mem, transient_states, validate_transition,
}
use local_content_processor.Storage.Json.{Json, bool, num, str, Obj}
use local_content_processor.Storage.World.{World, JobRecord, JobDir, no_dir, Host, set_dir}
use local_content_processor.Storage.Exec.{
  Exec, pure, raise, lift, gets, modify, modify_dir, refuse, refuse_if, some_or, ◌>>=◌, ◌>>◌,
}
use local_content_processor.Storage.Audit.{Event, append}
use local_content_processor.Storage.JobStore.Rows.{
  find_row, update_row, delete_rows, count_rows, select_state, order_by_created,
}

-- `ensure_job_dir`: the folder and its three subfolders are there.
unfoldable pub ensure_job_dir : String → Exec (Unit {0})
ensure_job_dir job_id = modify_dir job_id (λ d. record d { exists = true })

-- A row that INSERT makes.
abbrev pub new_row : String → String → JobState → JobRecord
new_row job_id created_at state = record {
  job_id = job_id;
  state = state;
  created_at = created_at;
  updated_at = created_at;
  source_html_sha256 = none;
  source_text_sha256 = none;
  error_code = none;
  review_reason = none;
}

-- `job_id` is the primary key, so an INSERT of a second row raises `IntegrityError`.
unfoldable pub insert_row : JobRecord → Exec (Unit {0})
insert_row row w =
    if is_some (find_row row.job_id w.jobs)
    then (err (input_validation job_exists), w)
    else (ok tt, record w { jobs = w.jobs ++ row ∷ [] })

unfoldable pub create_job : String → String → JobState → Exec JobRecord
unfolding ensure_job_dir insert_row
create_job job_id created_at state = do
  refuse_if (state_mem state transient_states) transient_state
  ensure_job_dir job_id
  insert_row (new_row job_id created_at state)
  pure (new_row job_id created_at state)

unfoldable pub get_job : String → Exec (Option JobRecord)
get_job job_id = gets (λ w. find_row job_id w.jobs)

-- `SELECT … WHERE job_id = ?`, and the refusal of an unknown job.
unfoldable pub select_job : String → Exec JobRecord
select_job job_id w = some_or unknown_job (find_row job_id w.jobs) w

-- `UPDATE jobs SET … WHERE job_id = ?`
unfoldable pub update_job : String → (JobRecord → JobRecord) → Exec (Unit {0})
update_job job_id f = modify (λ w. record w { jobs = update_row job_id f w.jobs })

-- The columns that `set_state` and `persist_from_processing` write.
abbrev pub with_state :
    JobState → String → Option String → Option ReviewReason → JobRecord → JobRecord
with_state state updated_at error_code review_reason r = record r {
  state = state;
  updated_at = updated_at;
  error_code = error_code;
  review_reason = review_reason;
}

unfoldable pub set_state :
    String → JobState → String → Option String → Option ReviewReason → Exec JobRecord
unfolding select_job update_job
set_state job_id new_state updated_at error_code review_reason = do
  current ← select_job job_id
  lift (validate_transition current.state new_state)
  refuse_if (state_mem new_state transient_states) transient_state
  update_job job_id (with_state new_state updated_at error_code review_reason)
  pure (with_state new_state updated_at error_code review_reason current)

-- `COALESCE(?, column)`
abbrev pub coalesce : Option String → Option String → Option String
coalesce none old = old
coalesce (some new) old = some new

-- The columns that `persist_crawl_result` writes.
abbrev pub with_hashes : JobState → String → Option String → Option String → JobRecord → JobRecord
with_hashes state updated_at html text r = record r {
  state = state;
  updated_at = updated_at;
  source_html_sha256 = coalesce html r.source_html_sha256;
  source_text_sha256 = coalesce text r.source_text_sha256;
}

unfoldable pub persist_crawl_result :
    String → JobState → String → Option String → Option String → Exec JobRecord
unfolding select_job update_job
persist_crawl_result job_id target updated_at html text = do
  refuse_if (state_mem target transient_states) transient_state
  current ← select_job job_id
  lift (validate_transition current.state target)
  update_job job_id (with_hashes target updated_at html text)
  pure (with_hashes target updated_at html text current)

-- The marker file `.processing`, stamped with the process's PID.
unfoldable pub mark_processing : Host → String → Exec (Unit {0})
mark_processing host job_id =
    modify_dir job_id (λ d. record d { exists = true; marker = some (some host.pid) })

unfoldable pub clear_processing : String → Exec (Unit {0})
clear_processing job_id = modify_dir job_id (λ d. record d { marker = none })

unfoldable pub is_processing : String → Exec Bool
is_processing job_id = gets (λ w. is_some (w.dirs job_id).marker)

-- No marker, or one whose content is no number, gives no owner.
abbrev pub pid_of : Option (Option ℕ) → Option ℕ
pid_of none = none
pid_of (some owner) = owner

unfoldable pub processing_owner_pid : String → Exec (Option ℕ)
processing_owner_pid job_id = gets (λ w. pid_of (w.dirs job_id).marker)

-- A missing or unreadable counter reads as 0.
abbrev pub count_of : Option (Option ℤ) → ℤ
count_of (some (some n)) = n
count_of _ = pos 0

unfoldable pub read_interrupt_count : String → Exec ℤ
read_interrupt_count job_id = gets (λ w. count_of (w.dirs job_id).interrupt_count)

-- The lock makes the read and the write one step.
unfoldable pub bump_interrupt_count : String → Exec ℤ
unfolding read_interrupt_count
bump_interrupt_count job_id = do
  modify_dir job_id (λ d. record d { exists = true })
  n ← read_interrupt_count job_id
  modify_dir job_id (λ d. record d { interrupt_count = some (some (next n)) })
  pure (next n)

unfoldable pub clear_interrupt_count : String → Exec (Unit {0})
clear_interrupt_count job_id = modify_dir job_id (λ d. record d { interrupt_count = none })

-- The predecessor must reach PROCESSING, and PROCESSING the target; the marker goes after the commit.
unfoldable pub persist_from_processing :
    String → JobState → String → Option ReviewReason → Option String → Exec JobRecord
unfolding select_job update_job clear_processing
persist_from_processing job_id target updated_at review_reason error_code = do
  refuse_if (state_mem target transient_states) transient_state
  current ← select_job job_id
  lift (validate_transition current.state processing)
  lift (validate_transition processing target)
  update_job job_id (with_state target updated_at error_code review_reason)
  clear_processing job_id
  pure (with_state target updated_at error_code review_reason current)

unfoldable pub list_by_state : JobState → Exec (List JobRecord)
list_by_state state = gets (λ w. select_state state w.jobs)

unfoldable pub list_all : Exec (List JobRecord)
list_all = gets (λ w. order_by_created w.jobs)

-- The events of a deletion: the intent, and the outcome.
abbrev pub erasure : String → String → String → Obj → Event
erasure job_id ts actor extra = record {
  ts = ts;
  stage = "storage";
  event = "ERASURE";
  job_id = job_id;
  actor = actor;
  artifact_sha256 = none;
  extra = extra;
}

abbrev pub erasure_method : Obj
erasure_method = ("method", str "best_effort_unlink") ∷ ("cryptographic_erasure", bool false) ∷ []

-- `rmtree` of a folder that is there; what cannot be removed stays.
abbrev pub remove_dir : Host → JobDir → JobDir
remove_dir host d = if d.exists then host.rmtree d else d

-- With an audit log outside the job's folder. The result is `removed`.
unfoldable pub delete_job : Host → String → String → String → Exec Bool
delete_job host job_id ts actor = do
  existed ← gets (λ w. (w.dirs job_id).exists)
  append host (erasure job_id ts actor erasure_method)
  modify_dir job_id (remove_dir host)
  removed ← gets (λ w. existed && not (w.dirs job_id).exists)
  deleted ← gets (λ w. count_rows job_id w.jobs)
  modify (λ w. record w { jobs = delete_rows job_id w.jobs })
  append host (
      erasure job_id ts actor (
        erasure_method
        ++ ("dir_existed", bool existed)
          ∷ ("removed", bool removed)
          ∷ ("rows_deleted", num deleted)
          ∷ []))
  pure removed
