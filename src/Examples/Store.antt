-- ===== src/Examples/Store.antt =====
-- The theorems on the store and on the worklist, at values.
use local_content_processor.Prelude.{
  Bool, length, leb, if◌then◌else◌, ◌≡◌, ◌⊎◌, refl, true, false, none, some, List, [], ◌∷◌, ◌++◌,
}
use local_content_processor.Core.Errors.{ok, err, uncaught}
use local_content_processor.Core.State.{
  crawled, processed, approved, review_pending, new, is_legal_transition, state_mem,
  transient_states,
}
use local_content_processor.Storage.Json.{Obj}
use local_content_processor.Storage.World.{World, Line, JobRecord, object, empty_world}
use local_content_processor.Storage.Exec.Respects.{Respects}
use local_content_processor.Storage.Audit.{
  tail, iter_events, genesis_hash, append, verify_chain, verify_from, is_linked, line_hash, line_of,
}
use local_content_processor.Storage.Audit.Chain.{next_line, append_keeps_chain, append-verifies}
use local_content_processor.Prelude.Texts.{codes}
use local_content_processor.Storage.Audit.Chain.Tampering.{
  HashLaws, SameOrCollides, tampering_collides,
}
use local_content_processor.Storage.Audit.Chain.Unended.{append_unended_breaks}
use local_content_processor.Storage.JobStore.Rows.{find_row, update_row}
use local_content_processor.Storage.JobStore.Table.{
  Refused, set_state_outcome, persist_crawl_result_outcome, persist_from_processing_exact,
  CanPersist, gate_written,
}
use local_content_processor.Storage.JobStore.{
  set_state, persist_crawl_result, persist_from_processing, with_state, with_hashes,
}
use local_content_processor.Pipeline.{reconcile}
use local_content_processor.Pipeline.Reconcile.{Passive, reconcile-Passive}
use local_content_processor.Examples.Fixtures.{host, short_hash, long_hash, event, store}

set_state_outcome_example :
    Refused (set_state "job-1" approved "t" none none (store review_pending)) (store review_pending)
    ⊎ ((current : JobRecord) × (find_row "job-1" (store review_pending).jobs ≡ some current)
        × (is_legal_transition current.state approved ≡ true)
        × (state_mem approved transient_states ≡ false)
        × (set_state "job-1" approved "t" none none (store review_pending) ≡ (
          ok (with_state approved "t" none none current),
          record (store review_pending) {
            jobs =
                update_row "job-1" (with_state approved "t" none none) (store review_pending).jobs;
          },
        )))
set_state_outcome_example = set_state_outcome "job-1" approved "t" none none (store review_pending)

persist_crawl_result_outcome_example :
    Refused (persist_crawl_result "job-1" crawled "t" (some "h") none (store new)) (store new)
    ⊎ ((current : JobRecord) × (find_row "job-1" (store new).jobs ≡ some current)
        × (is_legal_transition current.state crawled ≡ true)
        × (state_mem crawled transient_states ≡ false)
        × (persist_crawl_result "job-1" crawled "t" (some "h") none (store new) ≡ (
          ok (with_hashes crawled "t" (some "h") none current),
          record (store new) {
            jobs = update_row "job-1" (with_hashes crawled "t" (some "h") none) (store new).jobs;
          },
        )))
persist_crawl_result_outcome_example =
    persist_crawl_result_outcome "job-1" crawled "t" (some "h") none (store new)

reconcile-Passive_example : Respects (Passive host) (reconcile host 3)
reconcile-Passive_example = reconcile-Passive host 3

append_keeps_chain_example : verify_chain host (append host event empty_world).1.audit ≡ ok true
unfolding verify_chain
append_keeps_chain_example = append_keeps_chain host event empty_world refl refl

append-verifies_example :
    (append host event empty_world ≡ (
      ok (next_line host empty_world event),
      record empty_world {
        audit = [] ++ object (next_line host empty_world event) ∷ [];
        audit_ended = true;
      },
    ))
    × (verify_chain host (append host event empty_world).1.audit ≡ ok true)
unfolding verify_chain
append-verifies_example = append-verifies host event empty_world refl refl (refl, refl, refl)

-- The log of one event whose newline is gone.
abbrev unended : World
unended = record empty_world {
  audit = object (line_of host 0 genesis_hash event) ∷ [];
  audit_ended = false;
}

append_unended_breaks_example :
    ((rec : Obj) × ((append host event unended).0 ≡ ok rec))
    × (verify_chain host (append host event unended).1.audit ≡ err uncaught)
unfolding verify_chain verify_from line_of is_linked line_hash
append_unended_breaks_example =
    append_unended_breaks host event (object (line_of host 0 genesis_hash event)) [] unended refl
      refl refl (refl, refl, refl)

persist_from_processing_exact_example :
    ((current : JobRecord) × CanPersist "job-1" processed "t" current (store crawled)
      × (persist_from_processing "job-1" processed "t" none none (store crawled) ≡ (
        ok (with_state processed "t" none none current),
        gate_written "job-1" processed "t" none none (store crawled),
      )))
    ⊎ (((current : JobRecord) → CanPersist "job-1" processed "t" current (store crawled) → ⊥)
        × Refused
            (persist_from_processing "job-1" processed "t" none none (store crawled))
            (store crawled))
persist_from_processing_exact_example =
    persist_from_processing_exact "job-1" processed "t" none none (store crawled)

host-HashLaws : HashLaws host
host-HashLaws = record { digits = λ t. digits_of (leb (length t) 3) }
  where
    digits_of : (b : Bool) → length (codes (if b then short_hash else long_hash)) ≡ 64
    digits_of true = refl
    digits_of false = refl

abbrev log : List Line
log = object (line_of host 0 genesis_hash event) ∷ []

-- The host gives one hash to all long texts, so another event in its place goes unseen.
abbrev other_log : List Line
other_log = object (line_of host 0 genesis_hash (record event { ts = "later" })) ∷ []

tampering_collides_example : SameOrCollides host (iter_events log) (iter_events other_log)
unfolding verify_chain verify_from line_of is_linked line_hash tail
tampering_collides_example = tampering_collides host host-HashLaws log other_log refl refl refl
