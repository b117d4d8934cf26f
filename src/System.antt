-- ===== src/System.antt =====
-- The program as a whole: the operations that the shells call on one store, in any order
-- (src/lcp/pipeline.py, src/lcp/adapters/publisher, src/lcp/adapters/storage).
use local_content_processor.Prelude.{
  String, arith, ◌≡◌, refl, Bool, true, Option, some, ℕ, List, [],
}
use local_content_processor.Prelude.Texts.{Text, Unicode}
use local_content_processor.Core.Errors.{ok}
use local_content_processor.Core.State.{JobState, state_mem}
use local_content_processor.Core.State.Lifecycle.{frozen_states, frozen_for_good}
use local_content_processor.Core.Draft.{Draft}
use local_content_processor.Core.Risk.{RiskInput}
use local_content_processor.Storage.World.{World, JobRecord, Host, empty_world}
use local_content_processor.Storage.Audit.{verify_chain}
use local_content_processor.Storage.JobStore.Rows.{find_row, count_rows}
use local_content_processor.Storage.JobStore.Invariant.{IsValid}
use local_content_processor.Storage.JobStore.{create_job}
use local_content_processor.Storage.Orderly.{Orderly, Orderly-preorder, create_job-Orderly}
use local_content_processor.Publisher.ReviewPacket.{build_review_packet}
use local_content_processor.Publisher.Signoff.{approve, reject}
use local_content_processor.Publisher.Hold.{resolve}
use local_content_processor.Publisher.Publication.{backfill_published_url}
use local_content_processor.Publisher.Supersession.{supersede}
use local_content_processor.Publisher.Effects.{
  approve-Orderly, reject-Orderly, resolve-Orderly, backfill-Orderly, supersede-Orderly,
  build_review_packet-Orderly,
}
use local_content_processor.Pipeline.{Stage2Tools, process, reconcile}
use local_content_processor.Pipeline.Stage1.{SourceSpec, Stage1Tools, stage1, run_until}
use local_content_processor.Pipeline.Crawl.{CrawlerLaws, stage1-Orderly, run_until-Orderly}
use local_content_processor.Pipeline.Worklist.{process_batch}
use local_content_processor.Pipeline.Worklist.Batch.{process_batch-Orderly}
use local_content_processor.Pipeline.Effects.{process-Orderly, reconcile-Orderly}

-- One call on the store, whether it returns or raises. The deletion is not among them.
pub data Step (host : Host) (t1 : Stage1Tools) (t : Stage2Tools) (w : World) : World → Type 0 where
  creating : (job_id ts : String) (s : JobState) → Step host t1 t w (create_job job_id ts s w).1
  crawling : (spec : SourceSpec) (ts : String) → Step host t1 t w (stage1 t1 spec ts w).1
  running :
      (spec : SourceSpec) (ts target : String) (title : Text) (urls : List Text)
      (cover : Option (Option Text)) (ai v : Bool)
      → Step host t1 t w (run_until host t1 t spec ts target title urls cover ai v w).1
  processing_job :
      (job_id ts : String) (title : Text) (i : Option RiskInput) (ai v : Bool)
      → Step host t1 t w (process host t job_id ts title i ai v w).1
  batching :
      (u : Unicode) (ts : String) (title : Text) (ai : Bool) (name : Text)
      → Step host t1 t w (process_batch host t u ts title ai name w).1
  reconciling : (max : ℕ) → Step host t1 t w (reconcile host max w).1
  packing :
      (job_id : String) (d : Draft) (ts : String) (urls : List Text) (cover : Option (Option Text))
      (actor : String)
      → Step host t1 t w (build_review_packet host job_id d ts urls cover actor w).1
  approving :
      (job_id reviewer ts : String) (d : Option Draft)
      → Step host t1 t w (approve host job_id reviewer ts d w).1
  rejecting :
      (job_id reviewer reason ts : String)
      → Step host t1 t w (reject host job_id reviewer reason ts w).1
  resolving :
      (job_id reviewer ts : String) (relinting : Bool) (reason : Option String)
      → Step host t1 t w (resolve host t.lint job_id reviewer ts relinting reason w).1
  recording :
      (u : Unicode) (job_id : String) (url : Text) (ts : String) (attested : Bool)
      (reviewer : String)
      → Step host t1 t w (backfill_published_url host u job_id url ts attested reviewer w).1
  superseding :
      (job_id ts : String) (new : Option String) (actor : String) (redline : Bool)
      → Step host t1 t w (supersede host job_id ts new actor redline w).1

-- Calls one after the other.
pub data Run (host : Host) (t1 : Stage1Tools) (t : Stage2Tools) : World → World → Type 0 where
  done : {w : World} → Run host t1 t w w
  next : {u v w : World} → Step host t1 t u v → Run host t1 t v w → Run host t1 t u w

module _ (host : Host) (t1 : Stage1Tools) (crawls : CrawlerLaws host t1) (t : Stage2Tools) where
  Step-Orderly : {w w' : World} → Step host t1 t w w' → Orderly host w w'
  Step-Orderly {w} (creating j ts s) = (create_job-Orderly host j ts s).at w
  Step-Orderly {w} (crawling spec ts) = (stage1-Orderly host t1 spec crawls ts).at w
  Step-Orderly {w} (running spec ts target title urls c ai v) =
      (run_until-Orderly host t1 t spec ts crawls target title urls c ai v).at w
  Step-Orderly {w} (processing_job j ts title i ai v) =
      (process-Orderly host t j ts title i ai v).at w
  Step-Orderly {w} (batching u ts title ai name) =
      (process_batch-Orderly host t u ts title ai name).at w
  Step-Orderly {w} (reconciling max) = (reconcile-Orderly host max).at w
  Step-Orderly {w} (packing j d ts urls c a) =
      (build_review_packet-Orderly host j d ts urls c a).at w
  Step-Orderly {w} (approving j r ts d) = (approve-Orderly host j r ts d).at w
  Step-Orderly {w} (rejecting j r why ts) = (reject-Orderly host j r why ts).at w
  Step-Orderly {w} (resolving j r ts b why) = (resolve-Orderly host t.lint j r ts b why).at w
  Step-Orderly {w} (recording u j url ts b r) = (backfill-Orderly host u j url ts b r).at w
  Step-Orderly {w} (superseding j ts n a b) = (supersede-Orderly host j ts n a b).at w

  -- Where the crawler writes by the store's operations, any
  -- sequence of calls, with any outcome of each, moves every job along the transition table,
  -- keeps the table valid, and keeps an audit log whose last line is ended so, with its chain intact,
  -- and only adds to it.
  pub run-Orderly : {w w' : World} → Run host t1 t w w' → Orderly host w w'
  run-Orderly {w} done = (Orderly-preorder host).same w
  run-Orderly (next {u} {v} {w} s r) =
      (Orderly-preorder host).chain u v w (Step-Orderly s) (run-Orderly r)

  -- Where the crawler writes by the store's operations, a job
  -- that is in REVIEW_PENDING, APPROVED, REJECTED, SUPERSEDED or PUBLISHED_RECORDED still has its row
  -- after any sequence of calls, and is again in one of these states.
  pub frozen_job_stays :
      {w w' : World} (job_id : String) (r : JobRecord)
      → Run host t1 t w w'
      → find_row job_id w.jobs ≡ some r
      → state_mem r.state frozen_states ≡ true
      → (now : JobRecord) × (find_row job_id w'.jobs ≡ some now)
        × (state_mem now.state frozen_states ≡ true)
  frozen_job_stays job_id r run found frozen =
      let m = (run-Orderly run).follows.moved job_id r found in
      (m.row, m.is_found, frozen_for_good frozen m.leads)

  empty-IsValid : IsValid []
  unfolding find_row count_rows
  empty-IsValid = record { rests = λ j r f. cc; unique = λ j. omega arith }

  -- Where the crawler writes by the store's operations, every
  -- store that calls reach from the empty one has a valid table and an audit log that verifies.
  pub reachable_sound :
      {w : World}
      → Run host t1 t empty_world w
      → IsValid w.jobs × (verify_chain host w.audit ≡ ok true)
  unfolding verify_chain
  reachable_sound run =
      let o = run-Orderly run in (o.keeps_valid.keeps empty-IsValid, o.keeps_chain refl refl)
