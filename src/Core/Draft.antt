-- ===== src/Core/Draft.antt =====
-- src/lcp/core/draft.py: the article draft that flows from the assembler to the review packet.
use local_content_processor.Prelude.{String, Bool, true, Option, none, List, [], ◌∷◌}
use local_content_processor.Prelude.Texts.{Text}

pub data DraftStatus : Type 0 where
  drafted needs_revision not_executed : DraftStatus

pub record SourceQuote : Type 0 where
  pub text : Text
  pub note : Option Text

pub record FaqItem : Type 0 where
  pub question : Text
  pub answer : Text

pub record MediaSection : Type 0 where
  pub asset_ref : Option Text
  pub caption : Text

pub record Draft : Type 0 where
  pub title : Text
  pub intro : Text
  pub quick_facts : List Text
  pub event_body : Text
  pub image_sections : List MediaSection
  pub video_sections : List MediaSection
  pub faq : List FaqItem
  pub summary : Text
  pub subheads : List Text
  pub title_candidates : List Text
  pub tags : List Text
  pub keywords : List Text
  pub category : Option Text
  pub quotes : List SourceQuote
  pub status : DraftStatus
  pub needs_human_review : Bool
  pub constrained_rewrite : Bool
  pub review_reason : Option String
  pub model : Option String
  pub finish_reason : Option String
  pub executed : Bool

-- The defaults of the model: `Draft()`.
abbrev pub empty_draft : Draft
empty_draft = record {
  title = [];
  intro = [];
  quick_facts = [];
  event_body = [];
  image_sections = [];
  video_sections = [];
  faq = [];
  summary = [];
  subheads = [];
  title_candidates = [];
  tags = [];
  keywords = [];
  category = none;
  quotes = [];
  status = drafted;
  needs_human_review = true;
  constrained_rewrite = true;
  review_reason = none;
  model = none;
  finish_reason = none;
  executed = true;
}

-- The questions and answers, one after the other.
abbrev pub faq_texts : List FaqItem → List Text
faq_texts [] = []
faq_texts (f ∷ fs) = f.question ∷ f.answer ∷ faq_texts fs
