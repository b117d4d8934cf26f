-- ===== src/Publisher/Publication.antt =====
-- `backfill_published_url` of src/lcp/adapters/publisher/signoff.py: the end of the loop.
use local_content_processor.Prelude.{String, Bool, true, not, none, some, ◌∷◌, ◌++◌, [], is_empty}
use local_content_processor.Prelude.Texts.{Text, Unicode, strip}
use local_content_processor.Core.Errors.{not_approved, url_required, attestation_required}
use local_content_processor.Core.State.{JobState, approved, published_recorded, state_eq}
use local_content_processor.Storage.Json.{bool, str}
use local_content_processor.Storage.World.{Host}
use local_content_processor.Storage.Exec.{Exec, pure, modify_dir, refuse_if, ◌>>=◌, ◌>>◌}
use local_content_processor.Storage.Audit.{append}
use local_content_processor.Storage.JobStore.{set_state}
use local_content_processor.Publisher.Signoff.{signoff_event, freeze_hashes, require_job}

-- The URL file is written before the state, as in the code.
unfoldable pub backfill_published_url :
    Host → Unicode → String → Text → String → Bool → String → Exec JobState
unfolding freeze_hashes require_job
backfill_published_url host u job_id url ts attested reviewer = do
  current ← require_job job_id
  refuse_if (not (state_eq current.state approved)) not_approved
  refuse_if (is_empty (strip u url)) url_required
  refuse_if (not attested) attestation_required
  freeze ← freeze_hashes job_id
  modify_dir job_id (λ d. record d { published_url = some (strip u url ++ 10 ∷ []) })
  set_state job_id published_recorded ts none none
  append host (
      signoff_event ts "PUBLISHED_RECORDED" job_id host.os_user freeze.body_sha256 (
        ("reviewer_stated", str reviewer)
        ∷ ("observed_os_user", str host.os_user)
        ∷ ("published_url_recorded", bool true)
        ∷ ("operator_attested", bool true)
        ∷ []))
  pure published_recorded
