-- ===== src/Core/State.antt =====
-- src/lcp/core/state.py: the job states, the transition table and its validation.
pub mod Lifecycle
use local_content_processor.Prelude.{
  ℕ, String, Bool, true, false, Option, none, some, List, [], ◌∷◌, any, ◌==◌, str_eq, if◌then◌else◌,
}
use local_content_processor.Core.Errors.{Result, ok, err, input_validation, illegal_transition}

pub data JobState : Type 0 where
  new crawled crawled_warn processing process_failed crawl_failed processed blocked : JobState
  duplicate needs_human_review needs_revision review_pending approved rejected : JobState
  superseded published_recorded : JobState

pub data ReviewReason : Type 0 where
  risk dedup grounding classification : ReviewReason

-- All the states, in the order of the enum.
abbrev pub all_states : List JobState
all_states =
    new ∷ crawled ∷ crawled_warn ∷ processing ∷ process_failed ∷ crawl_failed ∷ processed ∷ blocked
    ∷ duplicate ∷ needs_human_review ∷ needs_revision ∷ review_pending ∷ approved ∷ rejected
    ∷ superseded ∷ published_recorded ∷ []

-- `state.value`, which is what SQLite and the audit log hold.
abbrev pub value : JobState → String
value new = "new"
value crawled = "crawled"
value crawled_warn = "crawled_warn"
value processing = "processing"
value process_failed = "process_failed"
value crawl_failed = "crawl_failed"
value processed = "processed"
value blocked = "blocked"
value duplicate = "duplicate"
value needs_human_review = "needs_human_review"
value needs_revision = "needs_revision"
value review_pending = "review_pending"
value approved = "approved"
value rejected = "rejected"
value superseded = "superseded"
value published_recorded = "published_recorded"

abbrev pub reason_value : ReviewReason → String
reason_value risk = "risk"
reason_value dedup = "dedup"
reason_value grounding = "grounding"
reason_value classification = "classification"

-- The first of the states that has the value.
unfoldable pub find_value : List JobState → String → Option JobState
find_value [] text = none
find_value (s ∷ rest) text = if str_eq (value s) text then some s else find_value rest text

-- `JobState(text)`: the member with that value, if there is one.
unfoldable pub of_value : String → Option JobState
unfolding find_value
of_value text = find_value all_states text

abbrev ordinal : JobState → ℕ
ordinal new = 0
ordinal crawled = 1
ordinal crawled_warn = 2
ordinal processing = 3
ordinal process_failed = 4
ordinal crawl_failed = 5
ordinal processed = 6
ordinal blocked = 7
ordinal duplicate = 8
ordinal needs_human_review = 9
ordinal needs_revision = 10
ordinal review_pending = 11
ordinal approved = 12
ordinal rejected = 13
ordinal superseded = 14
ordinal published_recorded = 15

-- `a is b`
abbrev pub state_eq : JobState → JobState → Bool
state_eq a b = ordinal a == ordinal b

-- `s in states`
abbrev pub state_mem : JobState → List JobState → Bool
state_mem s states = any (state_eq s) states

abbrev pub transient_states : List JobState
transient_states = processing ∷ []

abbrev pub terminal_states : List JobState
terminal_states = rejected ∷ superseded ∷ published_recorded ∷ []

-- The rows of `_TRANSITIONS`.
unfoldable pub allowed_transitions : JobState → List JobState
allowed_transitions new = crawled ∷ crawled_warn ∷ needs_revision ∷ crawl_failed ∷ []
allowed_transitions crawl_failed = new ∷ []
allowed_transitions crawled = crawled_warn ∷ processing ∷ []
allowed_transitions crawled_warn = processing ∷ []
allowed_transitions processing =
    process_failed ∷ blocked ∷ duplicate ∷ needs_human_review ∷ needs_revision ∷ processed ∷ []
allowed_transitions process_failed = processing ∷ []
allowed_transitions needs_human_review = processed ∷ rejected ∷ superseded ∷ []
allowed_transitions needs_revision = processing ∷ superseded ∷ []
allowed_transitions processed = review_pending ∷ []
allowed_transitions review_pending = approved ∷ rejected ∷ superseded ∷ []
allowed_transitions approved = published_recorded ∷ superseded ∷ []
allowed_transitions blocked = superseded ∷ []
allowed_transitions duplicate = superseded ∷ []
allowed_transitions rejected = []
allowed_transitions superseded = []
allowed_transitions published_recorded = []

unfoldable pub is_legal_transition : JobState → JobState → Bool
unfolding allowed_transitions
is_legal_transition from_state to_state = state_mem to_state (allowed_transitions from_state)

unfoldable pub validate_transition : JobState → JobState → Result (Unit {0})
unfolding is_legal_transition
validate_transition from_state to_state =
    if is_legal_transition from_state to_state
    then ok tt
    else err (input_validation illegal_transition)
