-- ===== src/Core/Errors.antt =====
-- src/lcp/core/errors.py: the error hierarchy and its exit codes, and what a fallible call returns.
use local_content_processor.Prelude.{ℕ, ◌≡◌, refl, ◌⊎◌, inl, inr}

-- The place that raised an `InputValidationError`. The text of the message is not modelled.
pub data Reason : Type 0 where
  illegal_transition transient_state unknown_job job_exists : Reason
  pii_field bad_artifact_hash : Reason
  no_freeze missing_frozen_hash draft_not_found body_mismatch title_mismatch : Reason
  cover_mismatch : Reason
  not_held relint_fails reason_required : Reason
  not_approved url_required attestation_required : Reason
  not_supersedable redline_unconfirmed : Reason
  not_processed bad_target no_crawler already_crawled not_processable bad_lint_config
        unknown_state :
      Reason

-- The classes of `errors.py`, and any exception that is not an `LcpError`.
pub data Error : Type 0 where
  lcp : Error
  usage : Error
  input_validation : Reason → Error
  dependency : Error
  external_service : Error
  uncaught : Error

-- `exit_code` of each class; an exception from outside the hierarchy ends as an internal error.
pub exit_code : Error → ℕ
exit_code lcp = 5
exit_code usage = 1
exit_code (input_validation r) = 2
exit_code dependency = 3
exit_code external_service = 4
exit_code uncaught = 5

pub data Result {ℓ} (A : Type ℓ) : Type ℓ where
  ok : A → Result A
  err : Error → Result A

pub Result-cases {ℓ} :
    {A : Type ℓ} (r : Result A) → ((a : A) × (r ≡ ok a)) ⊎ ((e : Error) × (r ≡ err e))
Result-cases (ok a) = inl (a, refl)
Result-cases (err e) = inr (e, refl)
