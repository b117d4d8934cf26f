-- ===== src/Processor/DedupGate/Passing.antt =====
-- What a job must be to pass the gate of dedup_checker.py.
use local_content_processor.Prelude.{◌≡◌, refl, sym, ◌∙◌, String, Option, none, some, List}
use local_content_processor.Prelude.Texts.{Text}
use local_content_processor.Core.Errors.{ok}
use local_content_processor.Core.State.{JobState, ReviewReason}
use local_content_processor.Core.Dedup.{DedupIndex, DedupQuery}
use local_content_processor.Core.Dedup.Cache.Invariant.{Synced}
use local_content_processor.Core.Dedup.Cache.Fresh.{Genuine, NoClash}
use local_content_processor.Core.Dedup.Cascade.{
  DedupStatus, DedupResult, ScoreParams, default_params, unique, assess_dedup,
}
use local_content_processor.Core.Dedup.Cascade
use local_content_processor.Core.Dedup.Cascade.Verdict.{IsNew, assess_dedup-unique}
use local_content_processor.Storage.World.{World, Host}
use local_content_processor.Storage.Exec.{pure, gets, modify, ◌>>=◌, bind_returns}
use local_content_processor.Processor.RiskGate.{park, persist_gate_state}
use local_content_processor.Processor.DedupGate.{
  DedupGateTools, map_to_state, params_of, load_site_index, take_result, run_dedup_gate,
  record_result,
}

park-some :
    (job_id ts : String) (r : Option ReviewReason) (s : JobState) (w : World)
    → (park job_id ts r (some s) w).0 ≡ ok none
    → ⊥
unfolding park pure
park-some job_id ts r s w h =
    let last = bind_returns (persist_gate_state job_id s ts r none) (λ a. pure (some s)) none w h in
    cc (last.2)

-- A job goes on only where the result is unique.
record_result-unique :
    (host : Host) (job_id ts actor : String) (r : DedupResult) (w : World)
    → (record_result host job_id ts actor r w).0 ≡ ok none
    → r.status ≡ unique
unfolding record_result map_to_state
record_result-unique host job_id ts actor r w h =
    let last =
      bind_returns _ (λ a. park job_id ts (map_to_state r.status).1 (map_to_state r.status).0) none
        w h in
    passed r.status last.1 last.2
  where
    passed :
        (s : DedupStatus) (v : World)
        → (park job_id ts (map_to_state s).1 (map_to_state s).0 v).0 ≡ ok none
        → s ≡ unique
    passed unique v h = refl
    passed Cascade.duplicate v h = absurd (park-some job_id ts _ _ v h)
    passed Cascade.uncertain v h = absurd (park-some job_id ts _ _ v h)

module _ (host : Host) (t : DedupGateTools) (job_id : String) (title body : Text) (ts : String)
    (queries : List DedupQuery) (actor : String) (score_params : Option ScoreParams) where
  module _ (asked : List DedupIndex) (w : World) where
    -- A job passes the gate only where its article is new: the site index is there and can be trusted,
    -- no entry has the title, and no candidate is similar; for a cache that calls with one size of
    -- shingles have filled, none of whose indexes has the fingerprint of the site index and other
    -- signatures.
    pub run_dedup_gate-IsNew :
        let index = load_site_index t w.site_index in
        let p = params_of score_params in
        let tools = t.cascade in
        Synced w.lsh_cache
        → Genuine tools.unicode tools.sha256 p.k asked w.lsh_cache
        → NoClash tools.unicode tools.sha256 p.k asked index p.lsh_threshold p.num_perm
        → (run_dedup_gate host t job_id title body ts queries actor score_params w).0 ≡ ok none
        → IsNew tools p title body index queries
    unfolding run_dedup_gate ◌>>=◌ gets modify pure take_result
    run_dedup_gate-IsNew synced genuine no_clash h =
        let index = load_site_index t w.site_index in
        let p = params_of score_params in
        let out =
          assess_dedup-unique t.cascade p title body index queries asked w.lsh_cache synced genuine
            no_clash in
        let step : (run_dedup_gate host t job_id title body ts queries actor score_params w).0
            ≡ (record_result host job_id ts actor out.0 (record w { lsh_cache = out.1 })).0 =
          rw out.2 in
        let after_cascade = record w { lsh_cache = out.1 } in
        out.5.0 (record_result-unique host job_id ts actor out.0 after_cascade (sym step ∙ h))
