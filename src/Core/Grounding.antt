-- ===== src/Core/Grounding.antt =====
-- src/lcp/core/rules/grounding.py: whether the source supports the quotes and the claims of a draft.
-- A ratio is compared as a fraction.
pub mod Verdict
use local_content_processor.Prelude.{
  ℕ, ◌*◌, ◌≡◌, refl, Bool, true, false, not, ◌&&◌, ◌||◌, Option, none, some, List, [], ◌∷◌, ◌++◌,
  map, keep, any, is_empty, length, windows, leb, ◌==◌, if◌then◌else◌,
}
use local_content_processor.Prelude.Texts.{
  Text, Unicode, strip, contains, distinct, text_mem, split_at, some_text,
}
use local_content_processor.Core.Draft.{Draft, SourceQuote, FaqItem, MediaSection}
use local_content_processor.Core.Clean.{code_mem, sanitize_source}

pub data GroundingStatus : Type 0 where
  pass needs_human_review : GroundingStatus

pub data ClaimKind : Type 0 where
  quote claim : ClaimKind

-- `detail` is fixed by the kind.
pub record UngroundedClaim : Type 0 where
  pub kind : ClaimKind
  pub text : Text

pub record GroundingResult : Type 0 where
  pub status : GroundingStatus
  pub ungrounded_claims : List UngroundedClaim
  -- the numbers that `reason` prints
  pub reason : Option (ℕ × ℕ)

-- A `SubstringOverlapStrategy` with its threshold as a fraction, or another strategy.
pub data GroundingStrategy : Type 0 where
  substring_overlap : ℕ → ℕ → GroundingStrategy
  custom : (Text → Text → Bool) → GroundingStrategy

abbrev pub is_quote : UngroundedClaim → Bool
is_quote u = elim u.kind [ quote ↦ true | claim ↦ false ]

abbrev pub is_claim : UngroundedClaim → Bool
is_claim u = elim u.kind [ quote ↦ false | claim ↦ true ]

abbrev pub terminator : ℕ → Bool
terminator c = code_mem c (12290 ∷ 65281 ∷ 65311 ∷ b'!' ∷ b'?' ∷ 10 ∷ [])

abbrev faq_answers : List FaqItem → List Text
faq_answers = map (λ item. item.answer)

abbrev captions : List MediaSection → List Text
captions = map (λ s. s.caption)

-- `_keep` of `_split_claims`
abbrev pub long_enough : List Text → List Text
long_enough = keep (λ s. leb 8 (length s))

abbrev pub bad_quote : Text → Text → Bool
bad_quote cleaned t = some_text t && not (contains t cleaned)

abbrev pub strategy_of : Option GroundingStrategy → GroundingStrategy
strategy_of none = substring_overlap 3 5
strategy_of (some s) = s

abbrev pub judged : List UngroundedClaim → GroundingResult
judged [] = record { status = pass; ungrounded_claims = []; reason = none }
judged (c ∷ cs) = record {
  status = needs_human_review;
  ungrounded_claims = c ∷ cs;
  reason = some (length (keep is_quote (c ∷ cs)), length (keep is_claim (c ∷ cs)));
}

abbrev pub failed : ClaimKind → Text → UngroundedClaim
failed k t = record { kind = k; text = t }

abbrev quote_texts : List SourceQuote → List Text
quote_texts = map (λ q. q.text)

module _ (u : Unicode) where
  -- `_normalize`
  unfoldable pub normalize : Text → Text
  normalize text =
      keep (λ c. not (u.is_space c)) (keep (λ c. u.is_word c || u.is_space c) (u.lower text))

  -- `_char_shingles`
  unfoldable pub char_shingles : ℕ → Text → List Text
  unfolding normalize
  char_shingles n text =
      let s = normalize text in
      if leb n (length s) then distinct (windows n s) else if is_empty s then [] else s ∷ []

  -- `SubstringOverlapStrategy._is_grounded`
  unfoldable pub overlaps : ℕ → ℕ → Text → Text → List Text → Bool
  unfolding char_shingles
  overlaps num den text source source_grams =
      let c = strip u text in
      let claim_grams = char_shingles 2 c in
      is_empty c
      || contains c source
      || is_empty claim_grams
      || leb (num * length claim_grams)
          (den * length (keep (λ g. text_mem g source_grams) claim_grams))

  -- `is_grounded` of a strategy
  unfoldable pub is_grounded : GroundingStrategy → Text → Text → Bool
  unfolding overlaps
  is_grounded (substring_overlap num den) text source =
      overlaps num den text source (char_shingles 2 source)
  is_grounded (custom f) text source = f text source

  -- `_sentences`
  unfoldable pub sentences : Text → List Text
  sentences text = keep some_text (map (strip u) (split_at terminator text))

  unfoldable pub split_claims : Draft → List Text
  unfolding sentences
  split_claims d =
      long_enough (sentences d.intro)
      ++ long_enough (sentences d.event_body)
      ++ long_enough (map (strip u) (faq_answers d.faq))
      ++ long_enough (map (strip u) (captions (d.image_sections ++ d.video_sections)))
      ++ long_enough (map (strip u) d.subheads)
      ++ long_enough (map (strip u) d.quick_facts)
      ++ long_enough (sentences d.summary)

  -- The test of a claim in the loop of `verify_grounding`: the baseline reads the shingles of the
  -- source, which are computed before the loop.
  unfoldable pub claim_test : GroundingStrategy → Text → Text → Bool
  unfolding overlaps
  claim_test (substring_overlap num den) cleaned =
      let source_grams = char_shingles 2 cleaned in
      λ text. overlaps num den text cleaned source_grams
  claim_test (custom f) cleaned = λ text. f text cleaned

  -- The texts that the two loops of `verify_grounding` collect.
  unfoldable pub bad_quotes : Draft → Text → List Text
  bad_quotes d cleaned = keep (bad_quote cleaned) (quote_texts d.quotes)

  unfoldable pub bad_claims : Draft → Text → GroundingStrategy → List Text
  unfolding split_claims claim_test
  bad_claims d cleaned s = keep (λ t. not (claim_test s cleaned t)) (split_claims d)

  unfoldable pub verify_grounding : Draft → Text → Option GroundingStrategy → GroundingResult
  unfolding sanitize_source bad_quotes bad_claims
  verify_grounding d source strategy =
      let cleaned = sanitize_source u source in
      judged (
        map (failed quote) (bad_quotes d cleaned)
        ++ map (failed claim) (bad_claims d cleaned (strategy_of strategy)))
