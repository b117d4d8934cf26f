-- ===== src/Storage/JobStore/Deletion.antt =====
-- What `delete_job` of job_store.py removes and records.
use local_content_processor.Prelude.{
  ℕ, String, ◌≡◌, Bool, true, not, ◌&&◌, none, [], ◌∷◌, ◌++◌, str_eq, if◌then◌else◌,
}
use local_content_processor.Core.Errors.{ok}
use local_content_processor.Storage.Json.{bool, num}
use local_content_processor.Storage.World.{World, JobDir, Host}
use local_content_processor.Storage.Audit.{Event, tail, line_of, add_line}
use local_content_processor.Storage.JobStore.Rows.{find_row, count_rows}
use local_content_processor.Storage.JobStore.Invariant.{IsValid}
use local_content_processor.Storage.JobStore.{erasure, erasure_method, remove_dir}

-- One event more in the log.
abbrev pub logged : Host → Event → ℕ → String → World → World
logged host e seq prev_hash w = record w {
  audit = add_line w.audit_ended w.audit (line_of host seq prev_hash e);
  audit_ended = true;
}

module _ (host : Host) (job_id ts actor : String) (w : World) where
  abbrev pub intent : Event
  intent = erasure job_id ts actor erasure_method

  -- The folder as the deletion leaves it.
  abbrev pub left : JobDir
  left = remove_dir host (w.dirs job_id)

  abbrev pub is_removed : Bool
  is_removed = (w.dirs job_id).exists && not left.exists

  -- The second event, with what has come of the deletion.
  abbrev pub confirmation : Event
  confirmation = erasure job_id ts actor (
      erasure_method
      ++ ("dir_existed", bool (w.dirs job_id).exists)
        ∷ ("removed", bool is_removed)
        ∷ ("rows_deleted", num (count_rows job_id w.jobs))
        ∷ [])

  -- The store between the two events: the log has the first one, the job has no row, the other
  -- rows are found as before, a valid table stays valid, and of the folders only the job's is touched.
  pub record Erased (v : World) : Type 0 where
    pub seq : ℕ
    pub prev_hash : String
    pub last : tail w.audit ≡ ok (seq, prev_hash)
    pub recorded : v.audit ≡ add_line w.audit_ended w.audit (line_of host seq prev_hash intent)
    pub rows :
        (j : String) → find_row j v.jobs ≡ (if str_eq job_id j then none else find_row j w.jobs)
    pub valid : IsValid w.jobs → IsValid v.jobs
    pub dirs : (j : String) → v.dirs j ≡ (if str_eq job_id j then left else w.dirs j)
