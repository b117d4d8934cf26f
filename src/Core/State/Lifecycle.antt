-- ===== src/Core/State/Lifecycle.antt =====
-- What the transition table promises (src/lcp/core/state.py).
use local_content_processor.Prelude.{
  String, ◌≡◌, refl, ap, ◌∙◌, ◌≢◌, ◌↔◌, true, some, List, [], ◌∷◌, arith, str_eq_iff,
}
use local_content_processor.Core.State.{
  JobState, new, crawled, crawled_warn, processing, process_failed, crawl_failed, processed,
  blocked, duplicate, needs_human_review, needs_revision, review_pending, approved, rejected,
  superseded, published_recorded, all_states, find_value, value, of_value, state_mem,
  terminal_states, allowed_transitions, is_legal_transition,
}

-- `t` can be reached from `s` by legal transitions.
pub data Leads : JobState → JobState → Type 0 where
  here : {s : JobState} → Leads s s
  step : {s t u : JobState} → is_legal_transition s t ≡ true → Leads t u → Leads s u

-- The same by a way that is never in the state `x`.
pub data LeadsAvoiding (x : JobState) : JobState → JobState → Type 0 where
  here : {s : JobState} → s ≢ x → LeadsAvoiding x s s
  step :
      {s t u : JobState}
      → s ≢ x
      → is_legal_transition s t ≡ true
      → LeadsAvoiding x t u
      → LeadsAvoiding x s u

pub Leads-trans : {s t u : JobState} → Leads s t → Leads t u → Leads s u
Leads-trans here l = l
Leads-trans (step e k) l = Leads.step e (Leads-trans k l)

-- A set of states that no transition leaves.
abbrev IsClosed : List JobState → Type 0
IsClosed states =
    (s t : JobState)
    → state_mem s states ≡ true
    → is_legal_transition s t ≡ true
    → state_mem t states ≡ true

Leads-mem :
    (states : List JobState) {s t : JobState}
    → IsClosed states
    → Leads s t
    → state_mem s states ≡ true
    → state_mem t states ≡ true
Leads-mem states c here h = h
Leads-mem states c (step {s} {t} e l) h = Leads-mem states c l (c s t h e)

-- The states of a job whose packet is frozen.
abbrev pub frozen_states : List JobState
frozen_states = review_pending ∷ approved ∷ rejected ∷ superseded ∷ published_recorded ∷ []

frozen-IsClosed : IsClosed frozen_states
unfolding is_legal_transition
frozen-IsClosed review_pending t h e = ground arith
frozen-IsClosed approved t h e = ground arith
frozen-IsClosed _ t h e = ground arith

abbrev recovered_states : List JobState
recovered_states = blocked ∷ duplicate ∷ superseded ∷ []

recovered-IsClosed : IsClosed recovered_states
unfolding is_legal_transition
recovered-IsClosed blocked t h e = ground arith
recovered-IsClosed _ t h e = ground arith

-- From a state whose packet is frozen, every state that legal transitions can reach is again one of
-- REVIEW_PENDING, APPROVED, REJECTED, SUPERSEDED and PUBLISHED_RECORDED: a frozen job is never
-- processed again.
pub frozen_for_good :
    {s t : JobState}
    → state_mem s frozen_states ≡ true
    → Leads s t
    → state_mem t frozen_states ≡ true
frozen_for_good h l = Leads-mem frozen_states frozen-IsClosed l h

-- From BLOCKED or DUPLICATE only the same two states and SUPERSEDED can be reached: recovery never
-- reopens such a job.
pub recovery_never_reopens :
    {s t : JobState}
    → state_mem s (blocked ∷ duplicate ∷ []) ≡ true
    → Leads s t
    → state_mem t (blocked ∷ duplicate ∷ superseded ∷ []) ≡ true
recovery_never_reopens {s} h l = Leads-mem recovered_states recovered-IsClosed l (ground arith)

-- The states on the only way to publication.
abbrev pub publication_gates : List JobState
publication_gates = processing ∷ processed ∷ review_pending ∷ approved ∷ []

-- The states in which no gate has been passed.
abbrev unprocessed_states : List JobState
unprocessed_states = new ∷ crawled ∷ crawled_warn ∷ needs_revision ∷ crawl_failed ∷ superseded ∷ []

-- The states in which Stage 2 may have been entered and has not been passed.
abbrev unfinished_states : List JobState
unfinished_states =
    processing ∷ process_failed ∷ blocked ∷ duplicate ∷ needs_human_review ∷ rejected
    ∷ unprocessed_states

-- What can be reached from NEW by a way that avoids the gate.
abbrev before : JobState → List JobState
before processing = unprocessed_states
before processed = unfinished_states
before review_pending = processed ∷ unfinished_states
before approved = review_pending ∷ processed ∷ unfinished_states
before x = all_states

before-step :
    (x s t : JobState)
    → state_mem x publication_gates ≡ true
    → state_mem s (before x) ≡ true
    → is_legal_transition s t ≡ true
    → t ≢ x
    → state_mem t (before x) ≡ true
unfolding is_legal_transition
before-step processing s t g h e a = ground arith
before-step processed s t g h e a = ground arith
before-step review_pending s t g h e a = ground arith
before-step approved s t g h e a = ground arith
before-step _ s t g h e a = ground arith

LeadsAvoiding-start : {x s t : JobState} → LeadsAvoiding x s t → s ≢ x
LeadsAvoiding-start (here n) = n
LeadsAvoiding-start (step n e l) = n

LeadsAvoiding-mem :
    {x s t : JobState}
    → state_mem x publication_gates ≡ true
    → LeadsAvoiding x s t
    → state_mem s (before x) ≡ true
    → state_mem t (before x) ≡ true
LeadsAvoiding-mem g (here n) h = h
LeadsAvoiding-mem {x} g (step {s} {t} n e l) h =
    LeadsAvoiding-mem g l (before-step x s t g h e (LeadsAvoiding-start l))

-- No way from NEW to PUBLISHED_RECORDED avoids PROCESSING, PROCESSED, REVIEW_PENDING or APPROVED.
pub publication_passes_every_gate :
    (x : JobState) → state_mem x publication_gates ≡ true → ¬ LeadsAvoiding x new published_recorded
publication_passes_every_gate processing g l = cc (LeadsAvoiding-mem g l refl)
publication_passes_every_gate processed g l = cc (LeadsAvoiding-mem g l refl)
publication_passes_every_gate review_pending g l = cc (LeadsAvoiding-mem g l refl)
publication_passes_every_gate approved g l = cc (LeadsAvoiding-mem g l refl)
publication_passes_every_gate _ g l = cc

-- A state has no successor exactly if it is one of the terminal states.
pub terminal_iff_no_successor :
    (s : JobState) → (allowed_transitions s ≡ []) ↔ (state_mem s terminal_states ≡ true)
unfolding allowed_transitions
terminal_iff_no_successor new = ground arith
terminal_iff_no_successor _ = ground arith

to_superseded : {s : JobState} → is_legal_transition s superseded ≡ true → Leads s superseded
to_superseded e = Leads.step e Leads.here

-- From every state legal transitions lead to a terminal state: no job is stuck for good.
pub terminal_reachable :
    (s : JobState) → (t : JobState) × (state_mem t terminal_states ≡ true) × Leads s t
unfolding is_legal_transition
terminal_reachable rejected = (rejected, refl, Leads.here)
terminal_reachable superseded = (superseded, refl, Leads.here)
terminal_reachable published_recorded = (published_recorded, refl, Leads.here)
terminal_reachable needs_revision = (superseded, refl, to_superseded refl)
terminal_reachable needs_human_review = (superseded, refl, to_superseded refl)
terminal_reachable review_pending = (superseded, refl, to_superseded refl)
terminal_reachable approved = (superseded, refl, to_superseded refl)
terminal_reachable blocked = (superseded, refl, to_superseded refl)
terminal_reachable duplicate = (superseded, refl, to_superseded refl)
terminal_reachable processing =
    (superseded, refl, Leads.step {t = needs_revision} refl (to_superseded refl))
terminal_reachable new =
    (superseded, refl, Leads.step {t = needs_revision} refl (to_superseded refl))
terminal_reachable processed =
    (superseded, refl, Leads.step {t = review_pending} refl (to_superseded refl))
terminal_reachable process_failed = (
  superseded,
  refl,
  Leads.step {t = processing} refl (Leads.step {t = needs_revision} refl (to_superseded refl)),
)
terminal_reachable crawled = (
  superseded,
  refl,
  Leads.step {t = processing} refl (Leads.step {t = needs_revision} refl (to_superseded refl)),
)
terminal_reachable crawled_warn = (
  superseded,
  refl,
  Leads.step {t = processing} refl (Leads.step {t = needs_revision} refl (to_superseded refl)),
)
terminal_reachable crawl_failed = (
  superseded,
  refl,
  Leads.step {t = new} refl (Leads.step {t = needs_revision} refl (to_superseded refl)),
)

find_value_sound :
    (states : List JobState) (text : String) (s : JobState)
    → find_value states text ≡ some s
    → text ≡ value s
unfolding find_value
find_value_sound [] text s h = cc
find_value_sound (x ∷ rest) text s h =
    ground (arith, str_eq_iff (value x) text, find_value_sound rest text s)

of_value-value : (s : JobState) → of_value (value s) ≡ some s
unfolding of_value
of_value-value new = refl
of_value-value _ = refl

-- A text is read as a state, by `JobState(text)`, exactly if it is the value of that state.
pub value-round_trip : (s : JobState) (text : String) → (of_value text ≡ some s) ↔ (text ≡ value s)
unfolding of_value find_value
value-round_trip s text =
    (find_value_sound all_states text s, λ e. ap of_value e ∙ of_value-value s)
