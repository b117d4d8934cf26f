-- ===== src/Pipeline/Worklist/Summary.antt =====
-- What `batch_summary` of src/lcp/pipeline.py counts.
use local_content_processor.Prelude.{
  ℕ, ◌+◌, ◌≡◌, refl, ◌∙◌, Bool, not, List, [], ◌∷◌, keep, length, arith, if◌then◌else◌,
}
use local_content_processor.Core.State.{
  JobState, all_states, state_eq, state_mem, transient_states, new, crawled, crawled_warn,
  processing, process_failed, crawl_failed, processed, blocked, duplicate, needs_human_review,
  needs_revision, review_pending, approved, rejected, superseded, published_recorded,
}
use local_content_processor.Storage.World.{JobRecord}
use local_content_processor.Pipeline.Worklist.{
  counts_by_state, summary_rows, sum_values, batch_summary,
}

abbrev is_transient : JobState → Bool
is_transient s = state_mem s transient_states

-- The rows that a pass over some states counts.
abbrev weight : List JobRecord → List JobState → ℕ
weight rows [] = 0
weight rows (s ∷ states) =
    (if is_transient s then 0 else counts_by_state rows s) + weight rows states

-- How often such a pass counts one state.
abbrev hits : JobState → List JobState → ℕ
hits s [] = 0
hits s (t ∷ states) = (if is_transient t then 0 else if state_eq s t then 1 else 0) + hits s states

sum_values-weight :
    (rows : List JobRecord) (states : List JobState)
    → sum_values (summary_rows rows states) ≡ weight rows states
sum_values-weight rows [] = refl
sum_values-weight rows (s ∷ states) = ground (arith, sum_values-weight rows states)

weight-cons :
    (r : JobRecord) (rows : List JobRecord) (states : List JobState)
    → weight (r ∷ rows) states ≡ hits r.state states + weight rows states
unfolding counts_by_state
weight-cons r rows [] = refl
weight-cons r rows (s ∷ states) = ground (arith, weight-cons r rows states)

weight-nil : (states : List JobState) → weight [] states ≡ 0
unfolding counts_by_state
weight-nil [] = refl
weight-nil (s ∷ states) = ground (arith, weight-nil states)

hits_once : (s : JobState) → hits s all_states ≡ (if is_transient s then 0 else 1)
hits_once new = refl
hits_once crawled = refl
hits_once crawled_warn = refl
hits_once processing = refl
hits_once process_failed = refl
hits_once crawl_failed = refl
hits_once processed = refl
hits_once blocked = refl
hits_once duplicate = refl
hits_once needs_human_review = refl
hits_once needs_revision = refl
hits_once review_pending = refl
hits_once approved = refl
hits_once rejected = refl
hits_once superseded = refl
hits_once published_recorded = refl

weight-resting :
    (rows : List JobRecord)
    → weight rows all_states ≡ length (keep (λ r. not (is_transient r.state)) rows)
weight-resting [] = weight-nil all_states
weight-resting (r ∷ rows) =
    weight-cons r rows all_states ∙ ground (arith, hits_once r.state, weight-resting rows)

-- The total of a summary is the number of the rows that are in no transient state: each of them is
-- counted once, under its state, and no other row is.
pub batch_summary-total :
    (rows : List JobRecord)
    → (batch_summary rows).1 ≡ length (keep (λ r. not (state_mem r.state transient_states)) rows)
unfolding batch_summary
batch_summary-total rows = sum_values-weight rows all_states ∙ weight-resting rows
