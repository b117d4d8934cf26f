-- ===== src/Pipeline/Effects.antt =====
-- Stage 2 and the reconciliation keep the store in order (src/lcp/pipeline.py).
use local_content_processor.Prelude.{String, Bool, Option, none, some, List, [], ◌∷◌, ℕ}
use local_content_processor.Prelude.Texts.{Text, Unicode}
use local_content_processor.Core.State.{JobState, ReviewReason}
use local_content_processor.Core.Draft.{Draft}
use local_content_processor.Core.Risk.{RiskInput, RiskDetector, RiskCategory}
use local_content_processor.Storage.World.{Host, JobRecord}
use local_content_processor.Storage.Exec.{Exec}
use local_content_processor.Storage.Exec.Respects.{Respects, Respects-bind}
use local_content_processor.Storage.JobStore.{
  is_processing, processing_owner_pid, read_interrupt_count, list_all,
}
use local_content_processor.Storage.Orderly.{
  Orderly, Orderly-preorder, store_rules, keep_cache-Orderly,
}
use local_content_processor.Processor.RiskGate.{persist_gate_state, park, run_risk_gate}
use local_content_processor.Core.Dedup.{DedupQuery}
use local_content_processor.Core.Dedup.Cache.{LshCache}
use local_content_processor.Core.Dedup.Cascade.{DedupResult, ScoreParams}
use local_content_processor.Processor.MediaGate.{
  MediaTools, MediaConfig, draw_cover, report_media, conclude_media, run_media_gate,
}
use local_content_processor.Processor.DedupGate.{
  DedupGateTools, take_result, record_result, run_dedup_gate,
}
use local_content_processor.Publisher.Effects.{run_draft_lint_gate-Orderly}
use local_content_processor.Pipeline.{
  Reports, GateSpec, ChainEnd, chain_step, run_gate_chain, Stage2Tools, risk_gate, media_gate_with,
  media_gate, dedup_gate, park_gates, check_row, check_rows, surface, reconcile, write_draft,
  finish_draft, judge_draft, draft_stage, after_chain, process_inner, note_crash, recover, clean_up,
  process,
}

-- A gate of the chain keeps the store in order.
pub record GateLaw (host : Host) (g : GateSpec) : Type 0 where
  pub law : (r : Reports) → Respects (Orderly host) (g.run r)

pub data GateLaws (host : Host) : List GateSpec → Type 0 where
  nil : GateLaws host []
  cons :
      {g : GateSpec} {gs : List GateSpec}
      → GateLaw host g
      → GateLaws host gs
      → GateLaws host (g ∷ gs)

module _ (host : Host) where
  persist_gate_state-Orderly :
      (job_id : String) (s : JobState) (ts : String) (r : Option ReviewReason) (e : Option String)
      → Respects (Orderly host) (persist_gate_state job_id s ts r e)
  unfolding persist_gate_state
  persist_gate_state-Orderly job_id s ts r e = search store_rules

  park-Orderly :
      (job_id ts : String) (r : Option ReviewReason) (s : Option JobState)
      → Respects (Orderly host) (park job_id ts r s)
  unfolding park
  park-Orderly job_id ts r none = search store_rules
  park-Orderly job_id ts r (some s) = unfold persist_gate_state in search store_rules

ruleset stage_rules = (store_rules, persist_gate_state-Orderly, park-Orderly)

module _ (host : Host) where
  run_risk_gate-Orderly :
      (u : Unicode) (job_id : String) (i : RiskInput) (ts actor : String) (det : RiskDetector)
      (enabled : Option (List RiskCategory))
      → Respects (Orderly host) (run_risk_gate host u job_id i ts actor det enabled)
  unfolding run_risk_gate
  run_risk_gate-Orderly u job_id i ts actor det enabled = search stage_rules depth 9

  take_result-Orderly :
      (r : Option (DedupResult × LshCache)) → Respects (Orderly host) (take_result r)
  unfolding take_result
  take_result-Orderly none = search stage_rules
  take_result-Orderly (some (r, c)) = search (stage_rules, keep_cache-Orderly)

  run_dedup_gate-Orderly :
      (t : DedupGateTools) (job_id : String) (title body : Text) (ts : String)
      (queries : List DedupQuery) (actor : String) (p : Option ScoreParams)
      → Respects (Orderly host) (run_dedup_gate host t job_id title body ts queries actor p)
  unfolding run_dedup_gate record_result
  run_dedup_gate-Orderly t job_id title body ts queries actor p =
      search (stage_rules, take_result-Orderly) depth 12

  draw_cover-Orderly :
      (t : MediaTools) (c : MediaConfig) (job_id : String) (ps : List Text)
      → Respects (Orderly host) (draw_cover t c job_id ps)
  unfolding draw_cover
  draw_cover-Orderly t c job_id [] = search stage_rules
  draw_cover-Orderly t c job_id (p ∷ ps) = search stage_rules depth 16

  run_media_gate-Orderly :
      (t : MediaTools) (c : MediaConfig) (job_id ts actor : String)
      → Respects (Orderly host) (run_media_gate host t c job_id ts actor)
  unfolding run_media_gate conclude_media report_media
  run_media_gate-Orderly t c job_id ts actor = search (stage_rules, draw_cover-Orderly) depth 24

  chain_step-Orderly :
      (rest : Reports → Exec ChainEnd) (name : String) (out : Option JobState × Reports)
      → ((r : Reports) → Respects (Orderly host) (rest r))
      → Respects (Orderly host) (chain_step rest name out)
  unfolding chain_step
  chain_step-Orderly rest name (none, r) h = h r
  chain_step-Orderly rest name (some s, r) h = search stage_rules

  pub run_gate_chain-Orderly :
      (gs : List GateSpec)
      → GateLaws host gs
      → (r : Reports) → Respects (Orderly host) (run_gate_chain gs r)
  unfolding run_gate_chain
  run_gate_chain-Orderly [] GateLaws.nil r = search stage_rules
  run_gate_chain-Orderly (g ∷ gs) (GateLaws.cons l ls) r =
      search (stage_rules, chain_step-Orderly, run_gate_chain-Orderly gs ls, l.law)

module _ (host : Host) (t : Stage2Tools) (job_id ts : String) (title : Text) where
  media_gate_with-Orderly :
      (c : Option MediaConfig) (r : Reports)
      → Respects (Orderly host) (media_gate_with host t job_id ts title c r)
  unfolding media_gate_with
  media_gate_with-Orderly none r = search stage_rules
  media_gate_with-Orderly (some c) r = search (stage_rules, run_media_gate-Orderly)

  media_gate-Orderly : (r : Reports) → Respects (Orderly host) (media_gate host t job_id ts title r)
  unfolding media_gate
  media_gate-Orderly r = media_gate_with-Orderly t.media.config r

  park_gates-Orderly :
      (given : Option RiskInput) (source : Text)
      → GateLaws host (park_gates host t job_id ts title given source)
  unfolding park_gates risk_gate media_gate dedup_gate
  park_gates-Orderly given source =
      GateLaws.cons (record { law = λ r. search (stage_rules, run_risk_gate-Orderly) })
        (GateLaws.cons (record { law = media_gate-Orderly })
          (GateLaws.cons (record { law = λ r. search (stage_rules, run_dedup_gate-Orderly) })
            GateLaws.nil))

  finish_draft-Orderly :
      (d : Draft) (s : Option JobState)
      → Respects (Orderly host) (finish_draft host t job_id ts title d s)
  unfolding finish_draft
  finish_draft-Orderly d none = search stage_rules
  finish_draft-Orderly d (some s) = search stage_rules

  draft_stage-Orderly :
      (ai v : Bool) (source : Text) (r : Reports)
      → Respects (Orderly host) (draft_stage host t job_id ts title ai v source r)
  unfolding draft_stage write_draft judge_draft
  draft_stage-Orderly ai v source r =
      search (stage_rules, finish_draft-Orderly, run_draft_lint_gate-Orderly) depth 20

  after_chain-Orderly :
      (ai v : Bool) (source : Text) (r : Reports) (o : Option (JobState × String))
      → Respects (Orderly host) (after_chain host t job_id ts title ai v source r o)
  unfolding after_chain
  after_chain-Orderly ai v source r none = draft_stage-Orderly ai v source r
  after_chain-Orderly ai v source r (some (s, g)) = search stage_rules

  process_inner-Orderly :
      (given : Option RiskInput) (ai v : Bool)
      → Respects (Orderly host) (process_inner host t job_id ts title given ai v)
  unfolding process_inner
  process_inner-Orderly given ai v =
      search (stage_rules, run_gate_chain-Orderly, park_gates-Orderly, after_chain-Orderly) depth 20

  -- Stage 2 keeps the contract of the store (`Orderly`), whether it returns or raises.
  pub process-Orderly :
      (given : Option RiskInput) (ai v : Bool)
      → Respects (Orderly host) (process host t job_id ts title given ai v)
  unfolding process note_crash recover clean_up is_processing
  process-Orderly given ai v = search (stage_rules, process_inner-Orderly) depth 30

module _ (host : Host) (max : ℕ) where
  check_row-Orderly : (r : JobRecord) → Respects (Orderly host) (check_row host max r)
  unfolding check_row surface is_processing processing_owner_pid read_interrupt_count
  check_row-Orderly r = search stage_rules depth 20

  check_rows-Orderly : (rs : List JobRecord) → Respects (Orderly host) (check_rows host max rs)
  unfolding check_rows
  check_rows-Orderly [] = search stage_rules
  check_rows-Orderly (r ∷ rs) =
      Respects-bind (Orderly-preorder host) (check_row host max r) _ (check_row-Orderly r)
        (λ here. search (stage_rules, check_rows-Orderly rs))

  pub reconcile-Orderly : Respects (Orderly host) (reconcile host max)
  unfolding reconcile list_all
  reconcile-Orderly = search (stage_rules, check_rows-Orderly)
