-- ===== src/Publisher/Hold.antt =====
-- `resolve` of src/lcp/adapters/publisher/signoff.py: the way out of NEEDS_HUMAN_REVIEW.
use local_content_processor.Prelude.{
  String, Bool, true, false, not, ◌&&◌, Option, none, some, ◌∷◌, [], is_empty, if◌then◌else◌,
}
use local_content_processor.Prelude.Texts.{codes, strip}
use local_content_processor.Core.Errors.{draft_not_found, not_held, relint_fails, reason_required}
use local_content_processor.Core.State.{
  ReviewReason, grounding, needs_human_review, processed, reason_value, state_eq,
}
use local_content_processor.Storage.Json.{Json, null, str}
use local_content_processor.Storage.World.{Host}
use local_content_processor.Storage.Exec.{Exec, pure, lift, gets, refuse_if, some_or, ◌>>=◌, ◌>>◌}
use local_content_processor.Storage.Audit.{append}
use local_content_processor.Storage.JobStore.{set_state}
use local_content_processor.Processor.MediaGate.{media_presence}
use local_content_processor.Processor.DraftLinter.{LintTools, source_of, relint_clears_hold}
use local_content_processor.Publisher.Signoff.{
  SignoffRecord, resolved_it, disclaimer, signoff_event, require_job,
}

pub data Mode : Type 0 where
  relint_clean human_override : Mode

abbrev pub is_grounding : Option ReviewReason → Bool
is_grounding (some grounding) = true
is_grounding _ = false

abbrev mode_value : Mode → String
mode_value relint_clean = "relint_clean"
mode_value human_override = "human_override"

abbrev hold_value : Option ReviewReason → Json
hold_value none = null
hold_value (some r) = str (reason_value r)

-- The reason is recorded where a human overrides.
abbrev override_note : Mode → Option String → Json
override_note human_override (some reason) = str reason
override_note _ _ = null

-- `not reason or not reason.strip()`
abbrev pub no_reason : LintTools → Option String → Bool
no_reason t none = true
no_reason t (some reason) = is_empty (strip t.unicode (codes reason))

module _ (host : Host) (t : LintTools) (job_id : String) (reviewer : String) (ts : String) where
  -- A human has vouched for the grounding; the lint must be clean.
  unfoldable pub relint : Exec Mode
  relint = do
    saved ← gets (λ w. (w.dirs job_id).draft)
    d ← some_or draft_not_found saved
    config ← lift t.config
    media ← gets (λ w. media_presence (w.dirs job_id))
    source ← gets (λ w. source_of (w.dirs job_id).source_text)
    cleared ← relint_clears_hold host t job_id ts reviewer config d source media.1 media.0
    refuse_if (not cleared) relint_fails
    pure relint_clean

  unfoldable pub override : Option String → Exec Mode
  override reason = do refuse_if (no_reason t reason) reason_required; pure human_override

  unfoldable pub clear_hold : Bool → Option ReviewReason → Option String → Exec Mode
  unfolding relint override
  clear_hold relinting hold reason =
      if relinting && is_grounding hold then relint else override reason

  unfoldable pub resolve : Bool → Option String → Exec SignoffRecord
  unfolding clear_hold require_job
  resolve relinting reason = do
    current ← require_job job_id
    refuse_if (not (state_eq current.state needs_human_review)) not_held
    mode ← clear_hold relinting current.review_reason reason
    set_state job_id processed ts none none
    append host (
        signoff_event ts "NHR_RESOLVED" job_id host.os_user none (
          ("reviewer_stated", str reviewer)
          ∷ ("observed_os_user", str host.os_user)
          ∷ ("resolved_from_reason", hold_value current.review_reason)
          ∷ ("mode", str (mode_value mode))
          ∷ ("override_note", override_note mode reason)
          ∷ ("disclaimer", str disclaimer)
          ∷ []))
    pure (record {
      job_id = job_id;
      decision = resolved_it;
      reviewer_stated = reviewer;
      observed_os_user = host.os_user;
      body_sha256 = "";
      title_sha256 = "";
      cover_sha256 = none;
      new_state = processed;
    })
