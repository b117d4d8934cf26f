-- ===== src/Pipeline/Worklist/Batch.antt =====
-- `process_batch` of src/lcp/pipeline.py: one job does not stop the others, and the store stays in
-- order.
use local_content_processor.Prelude.{◌≡◌, refl, String, Bool, false, none, List, [], ◌∷◌}
use local_content_processor.Prelude.Texts.{Text, Unicode}
use local_content_processor.Core.Errors.{Result, ok}
use local_content_processor.Core.State.{JobState}
use local_content_processor.Storage.World.{World, JobRecord, Host}
use local_content_processor.Storage.Exec.{attempt, pure, ◌>>=◌}
use local_content_processor.Storage.Exec.Respects.{Respects, Respects-bind}
use local_content_processor.Storage.JobStore.{list_by_state}
use local_content_processor.Storage.Orderly.{Orderly, Orderly-preorder, store_rules}
use local_content_processor.Pipeline.{Stage2Tools, ProcessResult, process}
use local_content_processor.Pipeline.Effects.{process-Orderly}
use local_content_processor.Pipeline.Worklist.{process_rows, record_batch, process_batch, completed}

module _ (host : Host) (t : Stage2Tools) (u : Unicode) (ts : String) (title : Text)
    (ai : Bool) where
  -- One run of Stage 2 after the other: the outcomes, returned or raised, and the last store.
  abbrev pub run_each : List JobRecord → World → List (Result ProcessResult) × World
  run_each [] w = ([], w)
  run_each (r ∷ rows) w =
      let one = process host t r.job_id ts title none ai false w in
      let rest = run_each rows one.1 in (one.0 ∷ rest.0, rest.1)

  abbrev pub returned : List (Result ProcessResult) → List ProcessResult
  returned [] = []
  returned (out ∷ outs) = completed out (returned outs)

  -- The loop over the jobs of a batch runs Stage 2 on each of them, whatever the single runs return or
  -- raise, and returns the results of those that returned.
  pub process_rows-run_each :
      (rows : List JobRecord) (w : World)
      → process_rows host t u ts title ai rows w
        ≡ (ok (returned (run_each rows w).0), (run_each rows w).1)
  unfolding process_rows ◌>>=◌ attempt pure
  process_rows-run_each [] w = refl
  process_rows-run_each (r ∷ rows) w =
      rw (process_rows-run_each rows (process host t r.job_id ts title none ai false w).1)

  process_rows-Orderly :
      (rows : List JobRecord) → Respects (Orderly host) (process_rows host t u ts title ai rows)
  unfolding process_rows
  process_rows-Orderly [] = search store_rules
  process_rows-Orderly (r ∷ rows) =
      Respects-bind (Orderly-preorder host)
        (attempt (process host t r.job_id ts title none ai false)) _
        (search (store_rules, process-Orderly host t))
        (λ out. search (store_rules, process_rows-Orderly rows))

  record_batch-Orderly :
      (s : JobState) (rs : List ProcessResult)
      → Respects (Orderly host) (record_batch host t u ts title ai s rs)
  unfolding record_batch
  record_batch-Orderly s rs = search store_rules depth 9

  -- A batch keeps the contract of the store, whether it returns or raises.
  pub process_batch-Orderly :
      (name : Text) → Respects (Orderly host) (process_batch host t u ts title ai name)
  unfolding process_batch list_by_state
  process_batch-Orderly name =
      search (store_rules, process_rows-Orderly, record_batch-Orderly) depth 12
