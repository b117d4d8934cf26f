-- ===== src/Pipeline.antt =====
-- src/lcp/pipeline.py and src/lcp/adapters/processor/gate_registry.py: Stage 2, and the
-- reconciliation of crashed jobs.
pub mod Worklist
pub mod Reconcile
pub mod Stage1
pub mod Crawl
pub mod Effects
use local_content_processor.Prelude.{
  ℕ, String, Bool, true, false, not, ◌&&◌, ◌||◌, Option, none, some, List, [], ◌∷◌, ltb, ◌==◌,
  is_some, if◌then◌else◌,
}
use local_content_processor.Prelude.Texts.{Text}
use local_content_processor.Prelude.Integers.{ℤ, exceeds}
use local_content_processor.Storage.Json.{int}
use local_content_processor.Core.Errors.{
  Error, Result, ok, err, external_service, dependency, unknown_job, not_processable,
}
use local_content_processor.Core.State.{
  JobState, crawled, crawled_warn, process_failed, processed, blocked, duplicate, needs_revision,
  value, state_mem, terminal_states,
}
use local_content_processor.Core.Draft.{Draft, DraftStatus, drafted}
use local_content_processor.Core.Draft
use local_content_processor.Core.Lint.{LintConfig}
use local_content_processor.Core.Risk.{RiskInput, keyword_detector, baseline}
use local_content_processor.Storage.Json.{num, str}
use local_content_processor.Storage.World.{JobRecord, Host}
use local_content_processor.Storage.Exec.{
  Exec, pure, lift, gets, modify_dir, refuse_if, some_or, attempt, ◌>>=◌, ◌>>◌,
}
use local_content_processor.Storage.Audit.{append}
use local_content_processor.Storage.JobStore.{
  get_job, is_processing, bump_interrupt_count, mark_processing, clear_processing,
  clear_interrupt_count, processing_owner_pid, read_interrupt_count, list_all,
}
use local_content_processor.Processor.DraftLinter.{
  LintTools, source_of, gate_event, run_draft_lint_gate,
}
use local_content_processor.Processor.MediaGate.{MediaConfig, MediaTools, run_media_gate}
use local_content_processor.Processor.DedupGate.{DedupGateTools, run_dedup_gate}
use local_content_processor.Processor.RiskGate.{persist_gate_state, run_risk_gate}

-- What the gates leave in `ctx.reports`: the image count of the media gate, where it ran.
abbrev pub Reports : Type 0
Reports = Option ℕ

-- A gate of the chain: its name, and what it does with the reports so far.
pub record GateSpec : Type 0 where
  pub name : String
  pub run : Reports → Exec (Option JobState × Reports)

-- What the chain ends in: the state and the name of the gate that parked the job, and the reports.
pub record ChainEnd : Type 0 where
  pub parked : Option (JobState × String)
  pub reports : Reports

-- A gate that passes hands on to the rest of the chain; one that parks ends it.
unfoldable pub chain_step :
    (Reports → Exec ChainEnd) → String → Option JobState × Reports → Exec ChainEnd
chain_step rest name (none, reports) = rest reports
chain_step rest name (some state, reports) =
    pure (record { parked = some (state, name); reports = reports })

-- `run_gate_chain`, without the callback of the UI.
unfoldable pub run_gate_chain : List GateSpec → Reports → Exec ChainEnd
unfolding chain_step
run_gate_chain [] reports = pure (record { parked = none; reports = reports })
run_gate_chain (gate ∷ gates) reports = do
  let rest = run_gate_chain gates
  out ← gate.run reports
  chain_step rest gate.name out

-- What Stage 2 takes from its surroundings: the lint tools, what media_checker and
-- dedup_checker take from their libraries, and the two calls of the language model.
pub record Stage2Tools : Type 0 where
  pub lint : LintTools
  pub media : MediaTools
  pub dedup : DedupGateTools
  -- `assemble` of a source and a title, and `generate_structural_copy` applied to a draft
  pub assemble : Text → Text → Result Draft
  pub structural_copy : Text → Draft → Result Draft

-- The resting states from which Stage 2 may start.
abbrev pub process_entries : List JobState
process_entries = crawled ∷ crawled_warn ∷ process_failed ∷ needs_revision ∷ []

pub record ProcessResult : Type 0 where
  pub draft : Option Draft
  pub final_state : JobState
  pub stopped_at : Option String

abbrev stopped : Option Draft → JobState → String → ProcessResult
stopped d s gate = record { draft = d; final_state = s; stopped_at = some gate }

abbrev is_drafted : DraftStatus → Bool
is_drafted drafted = true
is_drafted _ = false

abbrev lacks_text : DraftStatus → Bool
lacks_text Draft.needs_revision = true
lacks_text _ = false

abbrev has_some : Reports → Bool
has_some none = false
has_some (some n) = ltb 0 n

module _ (host : Host) (t : Stage2Tools) (job_id ts : String) (title : Text) where
  abbrev risk_input : Option RiskInput → Text → RiskInput
  risk_input (some i) source = i
  risk_input none source = record {
    title = title;
    body = source;
    has_source = true;
    contains_serious_claim = false;
    available = true;
  }

  -- `PARK_GATES`, in order: risk, media, dedup.
  unfoldable pub risk_gate : Option RiskInput → Text → Reports → Exec (Option JobState × Reports)
  risk_gate given source reports = do
    out ←
        run_risk_gate host t.lint.unicode job_id (risk_input given source) ts "system"
          (keyword_detector t.lint.unicode baseline) none
    pure (out, reports)

  -- Without a configuration the gate passes and writes no report.
  unfoldable pub media_gate_with : Option MediaConfig → Reports → Exec (Option JobState × Reports)
  media_gate_with none reports = pure (none, reports)
  media_gate_with (some c) reports = do
    out ← run_media_gate host t.media c job_id ts "system"
    pure (out.0, some out.1)

  unfoldable pub media_gate : Reports → Exec (Option JobState × Reports)
  unfolding media_gate_with
  media_gate reports = media_gate_with t.media.config reports

  unfoldable pub dedup_gate : Text → Reports → Exec (Option JobState × Reports)
  dedup_gate source reports = do
    out ← run_dedup_gate host t.dedup job_id title source ts [] "system" none
    pure (out, reports)

  unfoldable pub park_gates : Option RiskInput → Text → List GateSpec
  unfolding risk_gate media_gate dedup_gate
  park_gates given source =
      record { name = "risk"; run = risk_gate given source }
      ∷ record { name = "media"; run = media_gate }
      ∷ record { name = "dedup"; run = dedup_gate source }
      ∷ []

  -- `assemble`, and the structural copy of a drafted article where it is asked for.
  unfoldable pub write_draft : Bool → Text → Exec Draft
  write_draft ai_copy source = do
    d ← lift (t.assemble source title)
    if ai_copy && is_drafted d.status then lift (t.structural_copy source d) else pure d

  -- A draft that passes is PROCESSED.
  unfoldable pub finish_draft : Draft → Option JobState → Exec ProcessResult
  finish_draft d (some s) = pure (stopped (some d) s "lint")
  finish_draft d none = do
    persist_gate_state job_id processed ts none none
    pure (record { draft = some d; final_state = processed; stopped_at = none })

  -- Grounding and lint of a complete draft.
  unfoldable pub judge_draft : Bool → Text → Reports → Draft → Exec ProcessResult
  unfolding finish_draft
  judge_draft has_videos source reports d = do
    config ← lift t.lint.config
    parked ←
        run_draft_lint_gate host t.lint job_id ts "system" config d source has_videos
          (has_some reports)
    finish_draft d parked

  -- What follows the chain where no gate has parked the job.
  unfoldable pub draft_stage : Bool → Bool → Text → Reports → Exec ProcessResult
  unfolding write_draft judge_draft
  draft_stage ai_copy has_videos source reports = do
    d ← write_draft ai_copy source
    modify_dir job_id (λ f. record f { draft = some d })
    if lacks_text d.status
        then (do
          persist_gate_state job_id needs_revision ts none none
          pure (stopped (some d) needs_revision "assemble"))
        else judge_draft has_videos source reports d

  unfoldable pub after_chain :
      Bool → Bool → Text → Reports → Option (JobState × String) → Exec ProcessResult
  unfolding draft_stage
  after_chain ai_copy has_videos source reports (some (s, gate)) = pure (stopped none s gate)
  after_chain ai_copy has_videos source reports none = draft_stage ai_copy has_videos source reports

  -- `_process_inner`
  unfoldable pub process_inner : Option RiskInput → Bool → Bool → Exec ProcessResult
  unfolding run_gate_chain park_gates after_chain
  process_inner given ai_copy has_videos = do
    source ← gets (λ w. source_of (w.dirs job_id).source_text)
    end ← run_gate_chain (park_gates given source) none
    after_chain ai_copy has_videos source end.reports end.parked

  -- A marker at entry is the trace of a crash: the retry is counted and recorded.
  unfoldable pub note_crash : Bool → JobState → Exec (Unit {0})
  note_crash crashed s =
      if crashed
      then (do
        attempts ← bump_interrupt_count job_id
        append host (
            gate_event ts "process" "INTERRUPTED_DETECTED" job_id "system"
              (("attempts", int attempts) ∷ ("state", str (value s)) ∷ []))
        pure tt)
      else pure tt

  abbrev pub is_service_error : Result ProcessResult → Bool
  is_service_error (err external_service) = true
  is_service_error (err dependency) = true
  is_service_error _ = false

  -- The `except` clause: a failure of a service parks the job where it can be retried.
  unfoldable pub recover : Result ProcessResult → Exec ProcessResult
  recover out =
      if is_service_error out
      then (do
        persist_gate_state job_id process_failed ts none (some "llm_external_error")
        pure (stopped none process_failed "error"))
      else lift out

  -- The `finally` clause.
  unfoldable pub clean_up : Bool → Exec (Unit {0})
  clean_up keep_count = do
    clear_processing job_id
    if keep_count then pure tt else clear_interrupt_count job_id

  unfoldable pub process : Option RiskInput → Bool → Bool → Exec ProcessResult
  unfolding process_inner note_crash recover clean_up
  process given ai_copy has_videos = do
    found ← get_job job_id
    current ← some_or unknown_job found
    refuse_if (not (state_mem current.state process_entries)) not_processable
    crashed ← is_processing job_id
    note_crash crashed current.state
    mark_processing host job_id
    out ← attempt (process_inner given ai_copy has_videos)
    handled ← attempt (recover out)
    clean_up (crashed && is_service_error out)
    lift handled

pub record InterruptedJob : Type 0 where
  pub job_id : String
  pub state : JobState
  pub attempts : ℤ
  pub exhausted : Bool

abbrev pub reconcilable_states : List JobState
reconcilable_states = crawled ∷ crawled_warn ∷ process_failed ∷ needs_revision ∷ []

abbrev pub marker_only_clear_states : List JobState
marker_only_clear_states = blocked ∷ duplicate ∷ terminal_states

-- `_pid_alive`
abbrev pub pid_alive : Host → ℕ → Bool
pid_alive host p = ltb 0 p && host.pid_alive p

-- Whether a running process owns the marker.
abbrev pub is_live : Host → Option ℕ → Bool
is_live host none = false
is_live host (some p) = (p == host.pid) || pid_alive host p

module _ (host : Host) (max_attempts : ℕ) where
  -- The stale marker of one row: surfaced, cleared, or left.
  unfoldable pub surface : JobRecord → Exec (Option InterruptedJob)
  surface r =
      if state_mem r.state reconcilable_states
      then (do
        attempts ← read_interrupt_count r.job_id
        pure (
            some (record {
              job_id = r.job_id;
              state = r.state;
              attempts = attempts;
              exhausted = exceeds attempts max_attempts;
            })))
      else if state_mem r.state marker_only_clear_states
      then (do clear_processing r.job_id; pure none)
      else pure none

  -- The body of the loop of `reconcile`.
  unfoldable pub check_row : JobRecord → Exec (Option InterruptedJob)
  unfolding surface
  check_row r = do
    marked ← is_processing r.job_id
    owner ← processing_owner_pid r.job_id
    if not marked || is_live host owner then pure none else surface r

  unfoldable pub check_rows : List JobRecord → Exec (List InterruptedJob)
  unfolding check_row
  check_rows [] = pure []
  check_rows (r ∷ rows) = do
    let later = check_rows rows
    here ← check_row r
    rest ← later
    pure (elim here [ none ↦ rest | some x ↦ x ∷ rest ])

  unfoldable pub reconcile : Exec (List InterruptedJob)
  unfolding check_rows
  reconcile = do rows ← list_all; check_rows rows

  unfoldable pub check_found : Option JobRecord → Exec (Option InterruptedJob)
  unfolding check_row
  check_found none = pure none
  check_found (some r) = check_row r

  unfoldable pub reconcile_one : String → Exec (Option InterruptedJob)
  unfolding check_found
  reconcile_one job_id = do found ← get_job job_id; check_found found
