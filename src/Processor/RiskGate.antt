-- ===== src/Processor/RiskGate.antt =====
-- src/lcp/adapters/processor/risk_checker.py and _persist.py: the risk gate of Stage 2.
use local_content_processor.Prelude.{
  String, Option, none, some, List, [], ◌∷◌, map, length, str_eq, if◌then◌else◌,
}
use local_content_processor.Core.State.{
  JobState, ReviewReason, risk, blocked, needs_human_review, reason_value,
}
use local_content_processor.Core.Risk.{
  RiskCategory, category_value, RiskStatus, RiskInput, RiskDetector, RiskResult, action_value,
  assess_risk,
}
use local_content_processor.Core.Risk
use local_content_processor.Prelude.Texts.{Unicode}
use local_content_processor.Storage.Json.{Json, null, num, str, arr, items}
use local_content_processor.Storage.World.{Host, JobRecord}
use local_content_processor.Storage.Exec.{Exec, pure, ◌>>◌}
use local_content_processor.Storage.Audit.{append}
use local_content_processor.Storage.JobStore.Rows.{str_lt}
use local_content_processor.Storage.JobStore.{persist_from_processing}
use local_content_processor.Processor.DraftLinter.{gate_event}

-- `persist_gate_state`
unfoldable pub persist_gate_state :
    String → JobState → String → Option ReviewReason → Option String → Exec JobRecord
persist_gate_state job_id target updated_at review_reason error_code =
    persist_from_processing job_id target updated_at review_reason error_code

abbrev pub risk_status_value : RiskStatus → String
risk_status_value Risk.pass = "pass"
risk_status_value Risk.needs_human_review = "needs_human_review"
risk_status_value Risk.blocked = "blocked"

-- `_map_to_state`
unfoldable pub map_to_state : RiskStatus → Option JobState × Option ReviewReason
map_to_state Risk.blocked = (some blocked, none)
map_to_state Risk.needs_human_review = (some needs_human_review, some risk)
map_to_state Risk.pass = (none, none)

-- A text goes to its place among sorted ones; one that is there is not repeated.
abbrev insert_sorted : String → List String → List String
insert_sorted s [] = s ∷ []
insert_sorted s (t ∷ ts) =
    let rest = insert_sorted s ts in
    if str_eq s t then t ∷ ts else if str_lt t s then t ∷ rest else s ∷ t ∷ ts

-- `sorted(set(…))`
abbrev pub sorted_set : List String → List String
sorted_set [] = []
sorted_set (s ∷ ss) = insert_sorted s (sorted_set ss)

abbrev pub reason_json : Option ReviewReason → Json
reason_json none = null
reason_json (some r) = str (reason_value r)

-- A state is persisted, where there is one.
unfoldable pub park :
    String → String → Option ReviewReason → Option JobState → Exec (Option JobState)
unfolding persist_gate_state
park job_id ts reason none = pure none
park job_id ts reason (some state) = do
  persist_gate_state job_id state ts reason none
  pure (some state)

-- The gate writes its event before the state.
unfoldable pub run_risk_gate :
    Host
    → Unicode
    → String
    → RiskInput
    → String
    → String
    → RiskDetector
    → Option (List RiskCategory)
    → Exec (Option JobState)
unfolding map_to_state park
run_risk_gate host u job_id content ts actor detector enabled = do
  let result = assess_risk u content detector enabled
  let target = map_to_state result.status
  append host (
      gate_event ts "risk" "RISK_GATE" job_id actor (
        ("status", str (risk_status_value result.status))
        ∷ (
          "flag_categories",
          arr (items (sorted_set (map (λ f. category_value f.category) result.flags))),
        )
        ∷ ("flag_count", num (length result.flags))
        ∷ ("review_reason", reason_json target.1)
        ∷ ("recommended_action", str (action_value result.recommended_action))
        ∷ []))
  park job_id ts target.1 target.0
