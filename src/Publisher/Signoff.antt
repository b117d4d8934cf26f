-- ===== src/Publisher/Signoff.antt =====
-- src/lcp/adapters/publisher/signoff.py: approval, rejection, the way out of a hold, the record of a
-- publication, and supersession.

use local_content_processor.Prelude.{
  String, Bool, true, false, not, Option, none, some, List, [], ◌∷◌, str_eq, if◌then◌else◌,
}
use local_content_processor.Core.Errors.{
  unknown_job, no_freeze, missing_frozen_hash, draft_not_found, body_mismatch, title_mismatch,
  cover_mismatch,
}
use local_content_processor.Core.State.{
  JobState, blocked, duplicate, needs_human_review, needs_revision, review_pending, approved,
  rejected, value, state_eq,
}
use local_content_processor.Core.Draft.{Draft}
use local_content_processor.Storage.Json.{str, Obj, opt_str}
use local_content_processor.Storage.World.{JobDir, JobRecord, Freeze, Host}
use local_content_processor.Storage.Exec.{Exec, pure, gets, refuse_if, some_or, ◌>>=◌, ◌>>◌}
use local_content_processor.Storage.Audit.{Event, append}
use local_content_processor.Storage.JobStore.{get_job, set_state}
use local_content_processor.Publisher.ReviewPacket.{
  freeze_of, compute_body_sha256, compute_title_sha256, compute_review_cover_sha256,
}

pub data Decision : Type 0 where
  approved_it rejected_it resolved_it : Decision

pub record SignoffRecord : Type 0 where
  pub job_id : String
  pub decision : Decision
  pub reviewer_stated : String
  pub observed_os_user : String
  pub body_sha256 : String
  pub title_sha256 : String
  pub cover_sha256 : Option String
  pub new_state : JobState

-- The text of `DISCLAIMER`.
abbrev pub disclaimer : String
disclaimer =
    "ATTRIBUTION, NOT AUTHENTICATION: this sign-off records who STATED they reviewed this content on a single-user local machine. It is NOT identity verification and provides no cryptographic proof of who acted. The stated reviewer and the observed OS user are recorded for accountability only."

abbrev pub supersedable : List JobState
supersedable =
    review_pending ∷ approved ∷ needs_revision ∷ needs_human_review ∷ blocked ∷ duplicate ∷ []

abbrev pub never_signed_off : List JobState
never_signed_off = blocked ∷ duplicate ∷ needs_revision ∷ needs_human_review ∷ []

-- An event of the stage "signoff".
abbrev pub signoff_event : String → String → String → String → Option String → Obj → Event
signoff_event ts name job_id actor artifact extra = record {
  ts = ts;
  stage = "signoff";
  event = name;
  job_id = job_id;
  actor = actor;
  artifact_sha256 = artifact;
  extra = extra;
}

-- `_freeze_hashes`
unfoldable pub freeze_hashes : String → Exec Freeze
freeze_hashes job_id w = some_or no_freeze (freeze_of (w.dirs job_id).review_manifest) w

-- The record of a job, or a refusal.
unfoldable pub require_job : String → Exec JobRecord
unfolding get_job
require_job job_id = do found ← get_job job_id; some_or unknown_job found

-- The caller's draft, or the one of Stage 2.
abbrev pub given_or_saved : Option Draft → JobDir → Option Draft
given_or_saved none d = d.draft
given_or_saved (some draft) d = some draft

-- A frozen cover must have the hash of the cover that is there.
abbrev pub cover_differs : Option String → Option String → Bool
cover_differs none current = false
cover_differs (some frozen) none = true
cover_differs (some frozen) (some current) = not (str_eq current frozen)

abbrev pub approve_event : Host → String → String → String → String → String → Option String → Event
approve_event host ts job_id reviewer body_sha title_sha cover_sha =
    signoff_event ts "SIGNOFF_APPROVE" job_id host.os_user (some body_sha) (
      ("reviewer_stated", str reviewer)
      ∷ ("observed_os_user", str host.os_user)
      ∷ ("bound_title_sha256", str title_sha)
      ∷ ("bound_cover_sha256", opt_str cover_sha)
      ∷ ("disclaimer", str disclaimer)
      ∷ [])

unfoldable pub approve : Host → String → String → String → Option Draft → Exec SignoffRecord
unfolding freeze_hashes compute_body_sha256 compute_title_sha256 compute_review_cover_sha256
approve host job_id reviewer ts draft = do
  freeze ← freeze_hashes job_id
  body_sha ← some_or missing_frozen_hash freeze.body_sha256
  title_sha ← some_or missing_frozen_hash freeze.title_sha256
  found ← gets (λ w. given_or_saved draft (w.dirs job_id))
  d ← some_or draft_not_found found
  refuse_if (not (str_eq (compute_body_sha256 host d) body_sha)) body_mismatch
  refuse_if (not (str_eq (compute_title_sha256 host d) title_sha)) title_mismatch
  cover ← gets (compute_review_cover_sha256 host job_id)
  refuse_if (cover_differs freeze.cover_sha256 cover) cover_mismatch
  set_state job_id approved ts none none
  append host (approve_event host ts job_id reviewer body_sha title_sha freeze.cover_sha256)
  pure (record {
    job_id = job_id;
    decision = approved_it;
    reviewer_stated = reviewer;
    observed_os_user = host.os_user;
    body_sha256 = body_sha;
    title_sha256 = title_sha;
    cover_sha256 = freeze.cover_sha256;
    new_state = approved;
  })

abbrev no_freeze_record : Freeze
no_freeze_record = record { body_sha256 = none; title_sha256 = none; cover_sha256 = none }

-- Only a job that is held has no packet.
unfoldable pub freeze_to_reject : String → JobState → Exec Freeze
unfolding freeze_hashes
freeze_to_reject job_id state =
    if state_eq state needs_human_review then pure no_freeze_record else freeze_hashes job_id

abbrev or_empty : Option String → String
or_empty none = ""
or_empty (some s) = s

unfoldable pub reject : Host → String → String → String → String → Exec SignoffRecord
unfolding require_job freeze_to_reject
reject host job_id reviewer reason ts = do
  current ← require_job job_id
  freeze ← freeze_to_reject job_id current.state
  set_state job_id rejected ts none none
  append host (
      signoff_event ts "SIGNOFF_REJECT" job_id host.os_user freeze.body_sha256 (
        ("reviewer_stated", str reviewer)
        ∷ ("observed_os_user", str host.os_user)
        ∷ ("reject_note", str reason)
        ∷ ("rejected_from_state", str (value current.state))
        ∷ ("disclaimer", str disclaimer)
        ∷ []))
  pure (record {
    job_id = job_id;
    decision = rejected_it;
    reviewer_stated = reviewer;
    observed_os_user = host.os_user;
    body_sha256 = or_empty freeze.body_sha256;
    title_sha256 = or_empty freeze.title_sha256;
    cover_sha256 = freeze.cover_sha256;
    new_state = rejected;
  })
