-- ===== src/Publisher/Effects.antt =====
-- Each handler of the publisher keeps the store in order (src/lcp/adapters/publisher).
use local_content_processor.Prelude.{String, Bool, Option, List}
use local_content_processor.Prelude.Texts.{Text, Unicode}
use local_content_processor.Core.Errors.{no_freeze}
use local_content_processor.Core.State.{JobState, ReviewReason}
use local_content_processor.Core.Draft.{Draft}
use local_content_processor.Core.Lint.{LintConfig}
use local_content_processor.Storage.World.{Host}
use local_content_processor.Storage.Exec.Respects.{Respects, Respects-some_or}
use local_content_processor.Storage.Orderly.{Orderly, Orderly-preorder, store_rules}
use local_content_processor.Processor.DraftLinter.{
  LintTools, relint_clears_hold, run_lint, run_draft_lint_gate,
}
use local_content_processor.Publisher.ReviewPacket.{build_review_packet, freeze_of}
use local_content_processor.Publisher.Signoff.{
  approve, reject, freeze_hashes, freeze_to_reject, require_job,
}
use local_content_processor.Publisher.Hold.{resolve, relint, override, clear_hold}
use local_content_processor.Publisher.Publication.{backfill_published_url}
use local_content_processor.Publisher.Supersession.{supersede, void_signoff, record_supersession}

module _ (host : Host) where
  pub freeze_hashes-Orderly : (job_id : String) → Respects (Orderly host) (freeze_hashes job_id)
  unfolding freeze_hashes
  freeze_hashes-Orderly job_id = record {
    at = λ w.
        (Respects-some_or (Orderly-preorder host) no_freeze
            (freeze_of (w.dirs job_id).review_manifest)).at
          w;
  }

  pub require_job-Orderly : (job_id : String) → Respects (Orderly host) (require_job job_id)
  unfolding require_job
  require_job-Orderly job_id = search store_rules

pub ruleset signoff_rules = (store_rules, freeze_hashes-Orderly, require_job-Orderly)

module _ (host : Host) where
  pub approve-Orderly :
      (job_id reviewer ts : String) (d : Option Draft)
      → Respects (Orderly host) (approve host job_id reviewer ts d)
  unfolding approve
  approve-Orderly job_id reviewer ts d = search signoff_rules depth 30

  freeze_to_reject-Orderly :
      (job_id : String) (s : JobState) → Respects (Orderly host) (freeze_to_reject job_id s)
  unfolding freeze_to_reject
  freeze_to_reject-Orderly job_id s = search signoff_rules

  pub reject-Orderly :
      (job_id reviewer reason ts : String)
      → Respects (Orderly host) (reject host job_id reviewer reason ts)
  unfolding reject
  reject-Orderly job_id reviewer reason ts =
      search (signoff_rules, freeze_to_reject-Orderly) depth 20

  pub backfill-Orderly :
      (u : Unicode) (job_id : String) (url : Text) (ts : String) (attested : Bool)
      (reviewer : String)
      → Respects (Orderly host) (backfill_published_url host u job_id url ts attested reviewer)
  unfolding backfill_published_url
  backfill-Orderly u job_id url ts attested reviewer = search signoff_rules depth 20

  void_signoff-Orderly :
      (job_id ts actor : String) (s : JobState)
      → Respects (Orderly host) (void_signoff host job_id ts actor s)
  unfolding void_signoff
  void_signoff-Orderly job_id ts actor s = search signoff_rules depth 9

  record_supersession-Orderly :
      (job_id ts : String) (new : Option String) (actor : String) (s : JobState)
      → Respects (Orderly host) (record_supersession host job_id ts new actor s)
  unfolding record_supersession
  record_supersession-Orderly job_id ts new actor s = search signoff_rules depth 12

  pub supersede-Orderly :
      (job_id ts : String) (new : Option String) (actor : String) (redline : Bool)
      → Respects (Orderly host) (supersede host job_id ts new actor redline)
  unfolding supersede
  supersede-Orderly job_id ts new actor redline =
      search (signoff_rules, void_signoff-Orderly, record_supersession-Orderly) depth 20

  pub build_review_packet-Orderly :
      (job_id : String) (d : Draft) (ts : String) (urls : List Text) (cover : Option (Option Text))
      (actor : String)
      → Respects (Orderly host) (build_review_packet host job_id d ts urls cover actor)
  unfolding build_review_packet
  build_review_packet-Orderly job_id d ts urls cover actor = search signoff_rules depth 20

  run_lint-Orderly :
      (t : LintTools) (job_id ts actor : String) (c : LintConfig) (d : Draft) (source : Text)
      (v i : Bool)
      → Respects (Orderly host) (run_lint host t job_id ts actor c d source v i)
  unfolding run_lint
  run_lint-Orderly t job_id ts actor c d source v i = search store_rules depth 9

ruleset gate_rules = (signoff_rules, run_lint-Orderly)

module _ (host : Host) (t : LintTools) where
  relint_clears_hold-Orderly :
      (job_id ts actor : String) (c : LintConfig) (d : Draft) (source : Text) (v i : Bool)
      → Respects (Orderly host) (relint_clears_hold host t job_id ts actor c d source v i)
  unfolding relint_clears_hold
  relint_clears_hold-Orderly job_id ts actor c d source v i = search gate_rules depth 9

  pub run_draft_lint_gate-Orderly :
      (job_id ts actor : String) (c : LintConfig) (d : Draft) (source : Text) (v i : Bool)
      → Respects (Orderly host) (run_draft_lint_gate host t job_id ts actor c d source v i)
  unfolding run_draft_lint_gate
  run_draft_lint_gate-Orderly job_id ts actor c d source v i = search gate_rules depth 20

  relint-Orderly :
      (job_id reviewer ts : String) → Respects (Orderly host) (relint host t job_id reviewer ts)
  unfolding relint
  relint-Orderly job_id reviewer ts = search (gate_rules, relint_clears_hold-Orderly) depth 20

  clear_hold-Orderly :
      (job_id reviewer ts : String) (r : Bool) (hold : Option ReviewReason) (reason : Option String)
      → Respects (Orderly host) (clear_hold host t job_id reviewer ts r hold reason)
  unfolding clear_hold override
  clear_hold-Orderly job_id reviewer ts r hold reason = search (gate_rules, relint-Orderly) depth 9

  pub resolve-Orderly :
      (job_id reviewer ts : String) (r : Bool) (reason : Option String)
      → Respects (Orderly host) (resolve host t job_id reviewer ts r reason)
  unfolding resolve
  resolve-Orderly job_id reviewer ts r reason = search (gate_rules, clear_hold-Orderly) depth 20
