-- ===== src/Core/Dedup.antt =====
-- src/lcp/core/rules/dedup_rules.py: the texts that duplicate detection compares. A similarity is
-- the fraction of two numbers of shingles.
pub mod Cache
pub mod Cascade
pub mod Similarity
use local_content_processor.Prelude.{
  ℕ, ◌+◌, String, Bool, true, false, not, Option, none, some, List, [], ◌∷◌, ◌++◌, map, keep,
  is_empty, length, windows, leb, if◌then◌else◌, any, take, ◌-◌,
}
use local_content_processor.Prelude.Texts.{
  Text, codes, Unicode, starts_with, strip, distinct, text_mem, split_at, some_text,
}
use mathlib.Core.List.{reverse}

-- Which part of the cascade matched; a similarity is `round`ed to ten-thousandths.
pub data Stage : Type 0 where
  title_hash_stage minhash_lsh : Stage

pub record MatchedItem : Type 0 where
  pub job_id : String
  pub stage : Stage
  pub jaccard : Option ℕ

pub record IndexEntry : Type 0 where
  pub job_id : String
  pub title : Text
  pub body : Text

pub record DedupIndex : Type 0 where
  pub entries : List IndexEntry
  pub site_index_available : Bool

pub record DedupQuery : Type 0 where
  pub group : String
  pub terms : List Text

abbrev title_stopwords : List Text
title_stopwords =
    codes "the"
    ∷ codes "a"
    ∷ codes "an"
    ∷ codes "and"
    ∷ codes "or"
    ∷ codes "of"
    ∷ codes "to"
    ∷ codes "in"
    ∷ codes "on"
    ∷ codes "for"
    ∷ codes "與"
    ∷ codes "的"
    ∷ codes "了"
    ∷ []

abbrev site_suffixes : List Text
site_suffixes =
    codes "| ettoday"
    ∷ codes "- 自由時報"
    ∷ codes "｜聯合新聞網"
    ∷ codes "- 中央社"
    ∷ codes "| 蘋果新聞網"
    ∷ codes "- youtube"
    ∷ []

abbrev ends_with : Text → Text → Bool
ends_with p s = starts_with (reverse p) (reverse s)

-- `" ".join(tokens)`
unfoldable pub join_words : List Text → Text
join_words [] = []
join_words (t ∷ []) = t
join_words (t ∷ s ∷ ts) = let rest = join_words (s ∷ ts) in t ++ 32 ∷ rest

module _ (u : Unicode) where
  -- The loop of `normalize_title` over the suffixes.
  abbrev strip_suffixes : List Text → Text → Text
  strip_suffixes [] t = t
  strip_suffixes (p ∷ ps) t =
      strip_suffixes ps (if ends_with p t then strip u (take (length t - length p) t) else t)

  -- `_PUNCT_RE.sub(" ", t)`
  abbrev spaced : Text → Text
  spaced t = map (λ c. if u.is_word c then c else if u.is_space c then c else 32) t

  -- `[tok for tok in _WS_RE.split(t) if tok]`
  abbrev words : Text → List Text
  words t = keep some_text (split_at u.is_space t)

  unfoldable pub normalize_title : Text → Text
  unfolding join_words
  normalize_title title = join_words (
      keep (λ w. not (text_mem w title_stopwords))
        (words (spaced (strip_suffixes site_suffixes (u.lower (strip u title))))))

  -- `_shingles`
  unfoldable pub shingles : Text → ℕ → List Text
  unfolding join_words
  shingles text k =
      let tokens = words (spaced (u.lower text)) in
      if leb k (length tokens)
      then distinct (map join_words (windows k tokens))
      else if is_empty tokens
      then []
      else join_words tokens ∷ []

  -- The numbers of elements of `sa & sb` and of `sa | sb`.
  unfoldable pub intersection_size : List Text → List Text → ℕ
  intersection_size sa sb = length (keep (λ s. text_mem s sb) sa)

  unfoldable pub union_size : List Text → List Text → ℕ
  union_size sa sb = length sa + length (keep (λ s. not (text_mem s sa)) sb)

  abbrev fraction : List Text → List Text → ℕ × ℕ
  fraction [] [] = (1, 1)
  fraction [] (b ∷ sb) = (0, 1)
  fraction (a ∷ sa) [] = (0, 1)
  fraction (a ∷ sa) (b ∷ sb) = (intersection_size (a ∷ sa) (b ∷ sb), union_size (a ∷ sa) (b ∷ sb))

  unfoldable pub exact_jaccard : Text → Text → ℕ → ℕ × ℕ
  unfolding shingles intersection_size union_size
  exact_jaccard a b k = fraction (shingles a k) (shingles b k)

abbrev given : Option Text → List Text
given none = []
given (some t) = if some_text t then t ∷ [] else []

unfoldable pub build_queries :
    Option Text → Option Text → Option Text → Option Text → List DedupQuery
build_queries person_or_account event place_or_platform_or_school core_event =
    record { group = "person_account_event"; terms = given person_or_account ++ given event }
    ∷ record {
      group = "place_platform_school_event";
      terms = given place_or_platform_or_school ++ given core_event;
    }
    ∷ []
