-- ===== src/Processor/DraftLinter.antt =====
-- src/lcp/adapters/processor/draft_linter.py: the grounding and lint gate, and the second lint of a
-- job that a human releases.
use local_content_processor.Prelude.{
  ℕ, String, Bool, true, false, not, ◌&&◌, ◌||◌, Option, none, some, List, [], ◌∷◌, is_empty,
  length, keep, ltb, leb, if◌then◌else◌,
}
use local_content_processor.Prelude.Texts.{Text, Unicode, strip, text_mem}
use local_content_processor.Core.Errors.{Result, ok, err, input_validation, bad_lint_config}
use local_content_processor.Core.State.{
  JobState, grounding, classification, needs_human_review, needs_revision, reason_value,
}
use local_content_processor.Core.Draft.{Draft}
use local_content_processor.Core.Lint.{
  LintStatus, pass, blocked, LintConfig, LintResult, paragraphs, lint_draft,
}
use local_content_processor.Core.Lint
use local_content_processor.Core.Clean.{sanitize_source}
use local_content_processor.Core.Grounding.{
  GroundingStatus, GroundingStrategy, is_quote, is_claim, verify_grounding,
}
use local_content_processor.Core.Grounding
use local_content_processor.Storage.Json.{Json, null, num, thousandths, str, Obj}
use local_content_processor.Storage.World.{Host}
use local_content_processor.Storage.Exec.{Exec, pure, ◌>>=◌, ◌>>◌}
use local_content_processor.Storage.Audit.{Event, append}
use local_content_processor.Storage.JobStore.{persist_from_processing}

-- The part of `ContentConfig` that lint reads; 0 stands for "use the default".
pub record ContentConfig : Type 0 where
  pub title_min_chars : ℕ
  pub title_max_chars : ℕ
  pub tag_min_count : ℕ
  pub tag_max_count : ℕ
  pub hype_words : List Text
  pub min_copy_chars : ℕ
  pub intro_min_chars : ℕ
  pub intro_max_chars : ℕ
  pub event_body_min_chars : ℕ
  pub event_body_max_chars : ℕ
  pub summary_warn_chars : ℕ
  pub summary_error_chars : ℕ
  pub faq_min_count : ℕ
  pub faq_max_count : ℕ
  pub quick_facts_min_count : ℕ
  pub quick_facts_max_count : ℕ

-- `val if val > 0 else default`
abbrev pub or_default : ℕ → ℕ → ℕ
or_default val default = if ltb 0 val then val else default

abbrev or_words : List Text → List Text → List Text
or_words [] default = default
or_words (w ∷ ws) default = w ∷ ws

unfoldable pub build_lint_config : List Text → ContentConfig → List Text → Result LintConfig
build_lint_config default_hype_words c categories =
    if leb (or_default c.summary_error_chars 150) (or_default c.summary_warn_chars 100)
    then err (input_validation bad_lint_config)
    else ok (record {
      title_min_chars = c.title_min_chars;
      title_max_chars = c.title_max_chars;
      tag_min_count = c.tag_min_count;
      tag_max_count = c.tag_max_count;
      categories = categories;
      hype_words = or_words c.hype_words default_hype_words;
      min_copy_chars = or_default c.min_copy_chars 40;
      block_copy_num = 1;
      block_copy_den = 2;
      intro_min_chars = or_default c.intro_min_chars 80;
      intro_max_chars = or_default c.intro_max_chars 120;
      event_body_min_chars = or_default c.event_body_min_chars 100;
      event_body_max_chars = or_default c.event_body_max_chars 200;
      summary_warn_chars = or_default c.summary_warn_chars 100;
      summary_error_chars = or_default c.summary_error_chars 150;
      faq_min_count = or_default c.faq_min_count 3;
      faq_max_count = or_default c.faq_max_count 5;
      quick_facts_min_count = or_default c.quick_facts_min_count 3;
      quick_facts_max_count = or_default c.quick_facts_max_count 7;
    })

-- What the gate takes from its surroundings: the character tables, the configuration, and the strategy
-- for claims.
pub record LintTools : Type 0 where
  pub unicode : Unicode
  pub config : Result LintConfig
  pub grounding_strategy : Option GroundingStrategy

-- `_read_source_text`
abbrev pub source_of : Option Text → Text
source_of none = []
source_of (some t) = t

abbrev pub status_value : LintStatus → String
status_value Lint.pass = "pass"
status_value Lint.needs_revision = "needs_revision"
status_value Lint.blocked = "blocked"

abbrev grounding_value : GroundingStatus → String
grounding_value Grounding.pass = "pass"
grounding_value Grounding.needs_human_review = "needs_human_review"

-- `needs_human_review` of a `GroundingResult`
abbrev pub needs_human : GroundingStatus → Bool
needs_human Grounding.pass = false
needs_human Grounding.needs_human_review = true

-- An event of a gate of Stage 2.
abbrev pub gate_event : String → String → String → String → String → Obj → Event
gate_event ts stage name job_id actor extra = record {
  ts = ts;
  stage = stage;
  event = name;
  job_id = job_id;
  actor = actor;
  artifact_sha256 = none;
  extra = extra;
}

module _ (host : Host) (t : LintTools) (job_id : String) (ts : String) (actor : String) where
  -- `_run_lint`
  unfoldable pub run_lint : LintConfig → Draft → Text → Bool → Bool → Exec LintResult
  run_lint c d source has_videos has_images = do
    let result =
        lint_draft t.unicode c (paragraphs t.unicode (sanitize_source t.unicode source)) has_videos
          has_images d
    append host (
        gate_event ts "lint" "LINT_GATE" job_id actor (
          ("status", str (status_value result.status))
          ∷ ("error_count", num (length result.errors))
          ∷ ("warning_count", num (length result.warnings))
          ∷ ("score", thousandths result.score)
          ∷ []))
    pure result

  abbrev pub is_pass : LintStatus → Bool
  is_pass Lint.pass = true
  is_pass _ = false

  -- `relint_clears_hold`, which writes the event and changes no state.
  unfoldable pub relint_clears_hold : LintConfig → Draft → Text → Bool → Bool → Exec Bool
  unfolding run_lint
  relint_clears_hold c d source has_videos has_images = do
    result ← run_lint c d source has_videos has_images
    pure (is_pass result.status)

  abbrev grounding_reason : Bool → Json
  grounding_reason true = str (reason_value grounding)
  grounding_reason false = null

  abbrev unclassified : LintConfig → Option Text → Bool
  unclassified c category =
      not (is_empty c.categories)
      && (is_empty (strip t.unicode (source_of category))
          || not (text_mem (strip t.unicode (source_of category)) c.categories))

  -- Where the job is parked, or none where the draft passes.
  unfoldable pub run_draft_lint_gate :
      LintConfig → Draft → Text → Bool → Bool → Exec (Option JobState)
  unfolding run_lint
  run_draft_lint_gate c d source has_videos has_images = do
    let g = verify_grounding t.unicode d source t.grounding_strategy
    append host (
        gate_event ts "grounding" "GROUNDING_GATE" job_id actor (
          ("status", str (grounding_value g.status))
          ∷ ("ungrounded_quote_count", num (length (keep is_quote g.ungrounded_claims)))
          ∷ ("ungrounded_claim_count", num (length (keep is_claim g.ungrounded_claims)))
          ∷ ("review_reason", grounding_reason (needs_human g.status))
          ∷ []))
    if needs_human g.status
        then (do
          persist_from_processing job_id needs_human_review ts (some grounding) none
          pure (some needs_human_review))
        else if unclassified c d.category
        then (do
          append host (
              gate_event ts "lint" "LINT_GATE" job_id actor (
                ("status", str "needs_human_review")
                ∷ ("review_reason", str (reason_value classification))
                ∷ []))
          persist_from_processing job_id needs_human_review ts (some classification) none
          pure (some needs_human_review))
        else (do
          result ← run_lint c d source has_videos has_images
          if is_pass result.status then pure none else (do
            persist_from_processing job_id needs_revision ts none none
            pure (some needs_revision)))
