-- ===== src/Core/Lint.antt =====
-- src/lcp/core/rules/lint_rules.py: the structure and the quality of a draft. A message is the value
-- of a data type; a check gives the messages that it appends.
pub mod Verdict
use local_content_processor.Prelude.{
  ℕ, ◌+◌, ◌-◌, ◌*◌, Bool, true, false, not, ◌&&◌, ◌||◌, Option, none, some, List, [], ◌∷◌, ◌++◌,
  map, any, keep, is_empty, length, ltb, leb, ◌==◌, if◌then◌else◌,
}
use local_content_processor.Prelude.Texts.{
  Text, codes, contains, Unicode, strip, collapse, lines, text_mem, distinct, join_lines,
}
use local_content_processor.Core.Draft.{Draft, faq_texts}

pub data LintStatus : Type 0 where
  pass needs_revision blocked : LintStatus

pub data Section : Type 0 where
  intro quick_facts event_body faq summary : Section

-- The texts that lint measures.
pub data Measured : Type 0 where
  title intro_text event_body_text faq_items quick_fact_items tags : Measured

pub data LintError : Type 0 where
  title_missing : LintError
  too_short : Measured → ℕ → ℕ → LintError
  too_long : Measured → ℕ → ℕ → LintError
  missing_section : Section → LintError
  summary_too_long : ℕ → ℕ → LintError
  images_missing videos_missing : LintError
  hype_tags : List Text → LintError
  category_missing : LintError
  category_unknown : Text → LintError
  excessive_copy : ℕ → LintError
  verbatim_copy : ℕ → LintError

pub data LintWarning : Type 0 where
  summary_long : ℕ → ℕ → LintWarning
  videos_absent : LintWarning
  orphan_keywords : List Text → LintWarning
  duplicate_paragraphs : ℕ → LintWarning

-- `score` in thousandths.
pub record LintResult : Type 0 where
  pub status : LintStatus
  pub errors : List LintError
  pub warnings : List LintWarning
  pub score : ℕ

-- `block_copy_ratio` as a fraction.
pub record LintConfig : Type 0 where
  pub title_min_chars : ℕ
  pub title_max_chars : ℕ
  pub tag_min_count : ℕ
  pub tag_max_count : ℕ
  pub categories : List Text
  pub hype_words : List Text
  pub min_copy_chars : ℕ
  pub block_copy_num : ℕ
  pub block_copy_den : ℕ
  pub intro_min_chars : ℕ
  pub intro_max_chars : ℕ
  pub event_body_min_chars : ℕ
  pub event_body_max_chars : ℕ
  pub summary_warn_chars : ℕ
  pub summary_error_chars : ℕ
  pub faq_min_count : ℕ
  pub faq_max_count : ℕ
  pub quick_facts_min_count : ℕ
  pub quick_facts_max_count : ℕ

abbrev pub when : Bool → LintError → List LintError
when true e = e ∷ []
when false e = []

abbrev warn : Bool → LintWarning → List LintWarning
warn true e = e ∷ []
warn false e = []

-- `if n < lo: … elif n > hi: …`
abbrev pub in_range : Measured → ℕ → ℕ → ℕ → List LintError
in_range m lo hi n =
    if ltb n lo then too_short m n lo ∷ [] else if ltb hi n then too_long m n hi ∷ [] else []

abbrev pub status_of : Bool → List LintError → LintStatus
status_of true errors = blocked
status_of false [] = pass
status_of false (e ∷ es) = needs_revision

abbrev pub min_paragraph_chars : ℕ
min_paragraph_chars = 12

module _ (u : Unicode) where
  -- `_paragraphs`. A blank line is a line that collapses to nothing and is dropped by its length, so
  -- to split at every newline gives the same as to split at blank lines first.
  unfoldable pub paragraphs : Text → List Text
  paragraphs text =
      keep (λ p. leb min_paragraph_chars (length p)) (map (collapse u false false) (lines text))

  abbrev pub blank : Text → Bool
  blank t = is_empty (strip u t)

  unfoldable pub lint_title : LintConfig → Text → List LintError
  lint_title c t =
      if blank t
      then title_missing ∷ []
      else in_range title c.title_min_chars c.title_max_chars (length (strip u t))

  -- The loop over `REQUIRED_SECTIONS`.
  unfoldable pub lint_sections : Draft → List LintError
  lint_sections d =
      when (blank d.intro) (missing_section intro)
      ++ (when (is_empty d.quick_facts) (missing_section quick_facts)
          ++ (when (blank d.event_body) (missing_section event_body)
              ++ (when (is_empty d.faq) (missing_section faq)
                  ++ when (blank d.summary) (missing_section summary))))

  -- A text that is not blank must have a length in range.
  abbrev pub lint_length : Measured → ℕ → ℕ → Text → List LintError
  lint_length m lo hi t = if blank t then [] else in_range m lo hi (length (strip u t))

  abbrev pub lint_count : {A : Type 0} → Measured → ℕ → ℕ → List A → List LintError
  lint_count m lo hi [] = []
  lint_count m lo hi (x ∷ xs) = in_range m lo hi (length (x ∷ xs))

  abbrev pub lint_summary : LintConfig → Text → List LintError
  lint_summary c t =
      if blank t
      then []
      else when (ltb c.summary_error_chars (length (strip u t)))
          (summary_too_long (length (strip u t)) c.summary_error_chars)

  -- The checks of lengths and counts.
  unfoldable pub lint_fields : LintConfig → Draft → List LintError
  lint_fields c d =
      lint_length intro_text c.intro_min_chars c.intro_max_chars d.intro
      ++ (lint_length event_body_text c.event_body_min_chars c.event_body_max_chars d.event_body
          ++ (lint_summary c d.summary
              ++ (lint_count faq_items c.faq_min_count c.faq_max_count d.faq
                  ++ lint_count quick_fact_items c.quick_facts_min_count c.quick_facts_max_count
                      d.quick_facts)))

  -- Images and videos: a section is required if and only if the bundle has such assets.
  unfoldable pub lint_media : Bool → Bool → Draft → List LintError
  lint_media has_videos has_images d =
      when (has_images && is_empty d.image_sections) images_missing
      ++ when (has_videos && is_empty d.video_sections) videos_missing

  -- `_hype_tags`
  unfoldable pub hype_hits : List Text → List Text → List Text
  hype_hits words ts = keep (λ t. any (λ w. contains (u.lower w) (u.lower t)) words) ts

  unfoldable pub lint_tags : LintConfig → List Text → List LintError
  unfolding hype_hits
  lint_tags c ts =
      in_range tags c.tag_min_count c.tag_max_count (length ts)
      ++ (if is_empty (hype_hits c.hype_words ts)
          then []
          else hype_tags (hype_hits c.hype_words ts) ∷ [])

  abbrev pub category_of : List Text → Option Text → List LintError
  category_of names none = category_missing ∷ []
  category_of names (some []) = category_missing ∷ []
  category_of names (some (x ∷ t)) =
      if text_mem (x ∷ t) names then [] else category_unknown (x ∷ t) ∷ []

  unfoldable pub lint_category : LintConfig → Option Text → List LintError
  lint_category c category = if is_empty c.categories then [] else category_of c.categories category

  -- The distinct long paragraphs of the source.
  unfoldable pub long_source : LintConfig → List Text → List Text
  long_source c source = distinct (keep (λ p. leb c.min_copy_chars (length p)) source)

  -- `_copied_too_much`: those of them that the body has.
  unfoldable pub copied : LintConfig → List Text → List Text → List Text
  unfolding long_source
  copied c body source = keep (λ p. text_mem p body) (long_source c source)

  -- `copied / len(source_set) >= block_copy_ratio`, multiplied out.
  unfoldable pub is_excessive : LintConfig → List Text → List Text → Bool
  unfolding copied
  is_excessive c body source =
      not (is_empty (copied c body source))
      && leb (c.block_copy_num * length (long_source c source))
          (length (copied c body source) * c.block_copy_den)

  unfoldable pub lint_copy : LintConfig → List Text → List Text → List LintError
  unfolding is_excessive
  lint_copy c body source =
      if is_empty (copied c body source)
      then []
      else if is_excessive c body source
      then excessive_copy (length (copied c body source)) ∷ []
      else verbatim_copy (length (copied c body source)) ∷ []

  -- `_draft_text`
  unfoldable pub draft_text : Draft → Text
  draft_text d = join_lines (
      d.title ∷ d.intro ∷ d.event_body ∷ d.summary ∷ d.quick_facts
      ++ (map (λ s. s.caption) d.image_sections
          ++ (map (λ s. s.caption) d.video_sections
              ++ (faq_texts d.faq ++ map (λ q. q.text) d.quotes))))

  -- `kw.split(":", 1)[-1]`: what stands behind the first colon, or the whole.
  abbrev after_colon : Text → Option Text
  after_colon [] = none
  after_colon (x ∷ t) = let rest = after_colon t in if x == b':' then some t else rest

  abbrev keyword_name : Text → Text
  keyword_name kw = elim (after_colon kw) [ some t ↦ t | none ↦ kw ]

  abbrev is_orphan : Text → Text → Bool
  is_orphan body kw = not (blank kw) && not (contains (u.lower (strip u (keyword_name kw))) body)

  unfoldable pub orphans : Draft → List Text
  unfolding draft_text
  orphans d = keep (is_orphan (u.lower (draft_text d))) d.keywords

  -- `_duplicate_paragraphs`: each occurrence after the first.
  abbrev repeated_from : List Text → List Text → ℕ
  repeated_from seen [] = 0
  repeated_from seen (p ∷ ps) =
      let rest = repeated_from (p ∷ seen) ps in if text_mem p seen then rest + 1 else rest

  unfoldable pub lint_warnings : LintConfig → Bool → Draft → List LintWarning
  unfolding orphans paragraphs
  lint_warnings c has_videos d =
      warn
        (not (blank d.summary)
          && ltb c.summary_warn_chars (length (strip u d.summary))
          && leb (length (strip u d.summary)) c.summary_error_chars)
        (summary_long (length (strip u d.summary)) c.summary_warn_chars)
      ++ warn (not (is_empty d.video_sections) && not has_videos) videos_absent
      ++ warn (not (is_empty (orphans d))) (orphan_keywords (orphans d))
      ++ warn (ltb 0 (repeated_from [] (paragraphs d.event_body)))
          (duplicate_paragraphs (repeated_from [] (paragraphs d.event_body)))

  -- `max(0.0, round(1.0 - penalty, 3))`
  abbrev pub score : ℕ → ℕ → ℕ
  score errors warnings = 1000 - (200 * errors + 50 * warnings)

  -- All the errors, in the order in which the code appends them.
  unfoldable pub lint_errors : LintConfig → List Text → Bool → Bool → Draft → List LintError
  lint_errors c source has_videos has_images d =
      lint_title c d.title
      ++ (lint_sections d
          ++ (lint_fields c d
              ++ (lint_media has_videos has_images d
                  ++ (lint_tags c d.tags
                      ++ (lint_category c d.category
                          ++ lint_copy c (paragraphs d.event_body) source)))))

  unfoldable pub lint_draft : LintConfig → List Text → Bool → Bool → Draft → LintResult
  unfolding lint_warnings
  lint_draft c source has_videos has_images d = record {
    status =
        status_of (is_excessive c (paragraphs d.event_body) source)
          (lint_errors c source has_videos has_images d);
    errors = lint_errors c source has_videos has_images d;
    warnings = lint_warnings c has_videos d;
    score =
        score (length (lint_errors c source has_videos has_images d))
          (length (lint_warnings c has_videos d));
  }
