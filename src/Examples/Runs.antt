-- ===== src/Examples/Runs.antt =====
-- The theorems on the handlers and on whole runs, at values.
use local_content_processor.Prelude.{◌≡◌, ◌⊎◌, refl, true, none, some, []}
use local_content_processor.Core.Errors.{ok}
use local_content_processor.Core.State.{
  processed, validate_transition, is_legal_transition, review_pending, blocked, new, state_mem,
}
use local_content_processor.Core.State.Lifecycle.{frozen_states}
use local_content_processor.Storage.World.{JobRecord, empty_world}
use local_content_processor.Storage.Audit.{verify_chain}
use local_content_processor.Storage.JobStore.Rows.{find_row}
use local_content_processor.Storage.Audit.{append, tail, is_sha256, hex_run}
use local_content_processor.Storage.JobStore.{get_job, set_state, select_job, update_job}
use local_content_processor.Storage.JobStore.Invariant.{IsValid}
use local_content_processor.Storage.JobStore.{create_job}
use local_content_processor.Storage.Orderly.{Orderly}
use local_content_processor.Publisher.Signoff.{approve}
use local_content_processor.Publisher.Supersession.{supersede}
use local_content_processor.Publisher.Approval.{Bound, approve_outcome}
use local_content_processor.Publisher.ReviewPacket.{build_review_packet}
use local_content_processor.Publisher.Binding.{BoundPacket, build_review_packet-BoundPacket}
use local_content_processor.Storage.Exec.{◌>>=◌}
use local_content_processor.Publisher.Redo.{Redone, supersede_outcome}
use local_content_processor.Storage.JobStore.Table.{Refused}
use local_content_processor.Pipeline.Stage1.{stage1}
use local_content_processor.Pipeline.Crawl.{stage1-Refused}
use local_content_processor.System.{Step, Run, run-Orderly, frozen_job_stays, reachable_sound}
use local_content_processor.Examples.Fixtures.{
  host, tools, crawl_tools, crawl_tools-Laws, spec, row, store, draft,
}

abbrev approval :
    Run host crawl_tools tools
      (store review_pending)
      (approve host "job-1" "Ann" "t" none (store review_pending)).1
approval = Run.next (Step.approving "job-1" "Ann" "t" none) Run.done

frozen_job_stays_example :
    (now : JobRecord) × (find_row "job-1"
        (approve host "job-1" "Ann" "t" none (store review_pending)).1.jobs
      ≡ some now)
    × (state_mem now.state frozen_states ≡ true)
unfolding find_row
frozen_job_stays_example =
    frozen_job_stays host crawl_tools crawl_tools-Laws tools "job-1" (row review_pending) approval
      refl refl

run-Orderly_example :
    Orderly host
      (store review_pending)
      (approve host "job-1" "Ann" "t" none (store review_pending)).1
run-Orderly_example = run-Orderly host crawl_tools crawl_tools-Laws tools approval

reachable_sound_example :
    IsValid (create_job "job-1" "t" new empty_world).1.jobs
    × (verify_chain host (create_job "job-1" "t" new empty_world).1.audit ≡ ok true)
reachable_sound_example =
    reachable_sound host crawl_tools crawl_tools-Laws tools
      (Run.next (Step.creating "job-1" "t" new) Run.done)

approve_outcome_example :
    Refused (approve host "job-1" "Ann" "t" none (store review_pending)) (store review_pending)
    ⊎ Bound host "job-1" "Ann" "t" none (store review_pending)
approve_outcome_example = approve_outcome host "job-1" "Ann" "t" none (store review_pending)

supersede_outcome_example :
    ((supersede host "job-1" "t" none "Ann" true (store blocked)).1.jobs ≡ (store blocked).jobs)
    ⊎ Redone "job-1" "t" true
        (store blocked)
        (supersede host "job-1" "t" none "Ann" true (store blocked)).1
supersede_outcome_example = supersede_outcome host "job-1" "t" none "Ann" true (store blocked)

build_review_packet-BoundPacket_example :
    BoundPacket host "job-1" draft none
      (build_review_packet host "job-1" draft "t" [] none "operator" (store processed)).1
unfolding build_review_packet ◌>>=◌ get_job find_row set_state select_job update_job
    validate_transition is_legal_transition append tail is_sha256 hex_run
build_review_packet-BoundPacket_example =
    build_review_packet-BoundPacket host "job-1" draft "t" [] none "operator" (store processed) none
      refl

stage1-Refused_example : Refused (stage1 crawl_tools spec "t" (store processed)) (store processed)
unfolding find_row
stage1-Refused_example =
    stage1-Refused crawl_tools spec "t" (store processed) (row processed) refl refl
