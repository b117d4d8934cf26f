-- ===== src/Core/Risk.antt =====
-- src/lcp/core/rules/risk_rules.py: the judgement of risky content. The detector is a parameter of
-- the gate; the keyword baseline is one.
pub mod Verdict
use local_content_processor.Prelude.{
  String, Bool, true, false, not, ◌&&◌, ◌||◌, Option, none, some, List, [], ◌∷◌, ◌++◌, map, any,
  keep, is_empty, ℕ, ◌==◌, if◌then◌else◌,
}
use local_content_processor.Prelude.Texts.{Text, codes, starts_with, contains, Unicode, strip}

pub data RiskCategory : Type 0 where
  minor ncii hidden_cam political violence human_rights : RiskCategory
  unclear_source unsupported_claim : RiskCategory
  defamation private_pii copyright_source_missing ambiguous_redline campus_student : RiskCategory

-- The values of the enumeration.
unfoldable pub category_value : RiskCategory → String
category_value minor = "minor"
category_value ncii = "ncii"
category_value hidden_cam = "hidden_cam"
category_value political = "political"
category_value violence = "violence"
category_value human_rights = "human_rights"
category_value unclear_source = "unclear_source"
category_value unsupported_claim = "unsupported_claim"
category_value defamation = "defamation"
category_value private_pii = "private_pii"
category_value copyright_source_missing = "copyright_source_missing"
category_value ambiguous_redline = "ambiguous_redline"
category_value campus_student = "campus_student"

-- The position in the enumeration, which tells two categories apart.
abbrev rank : RiskCategory → ℕ
rank minor = 0
rank ncii = 1
rank hidden_cam = 2
rank political = 3
rank violence = 4
rank human_rights = 5
rank unclear_source = 6
rank unsupported_claim = 7
rank defamation = 8
rank private_pii = 9
rank copyright_source_missing = 10
rank ambiguous_redline = 11
rank campus_student = 12

abbrev pub category_eq : RiskCategory → RiskCategory → Bool
category_eq a b = rank a == rank b

abbrev pub category_mem : RiskCategory → List RiskCategory → Bool
category_mem c cs = any (λ x. category_eq x c) cs

abbrev pub redline_categories : List RiskCategory
redline_categories =
    minor ∷ ncii ∷ hidden_cam ∷ political ∷ violence ∷ human_rights ∷ unclear_source
    ∷ unsupported_claim ∷ []

abbrev pub daily_check_categories : List RiskCategory
daily_check_categories =
    defamation ∷ private_pii ∷ copyright_source_missing ∷ ambiguous_redline ∷ []

abbrev disabled_by_default_categories : List RiskCategory
disabled_by_default_categories = campus_student ∷ []

-- `is_category_enabled`
abbrev pub is_category_enabled : RiskCategory → Option (List RiskCategory) → Bool
is_category_enabled c none = not (category_mem c disabled_by_default_categories)
is_category_enabled c (some enabled) =
    not (category_mem c disabled_by_default_categories) || category_mem c enabled

pub data RiskStatus : Type 0 where
  pass needs_human_review blocked : RiskStatus

pub record RiskFlag : Type 0 where
  pub category : RiskCategory
  pub reason : Text
  pub confident : Bool

pub data Action : Type 0 where
  detector_unavailable block_redline category_disabled daily_check pass_on : Action

-- `recommended_action`
abbrev pub action_value : Action → String
action_value detector_unavailable = "route_to_human:risk_detector_unavailable"
action_value block_redline = "block:redline"
action_value category_disabled = "route_to_human:category_disabled"
action_value daily_check = "route_to_human:daily_check"
action_value pass_on = "pass"

pub record RiskResult : Type 0 where
  pub status : RiskStatus
  pub flags : List RiskFlag
  pub blocking_reasons : List Text
  pub recommended_action : Action

pub record RiskInput : Type 0 where
  pub title : Text
  pub body : Text
  pub has_source : Bool
  pub contains_serious_claim : Bool
  pub available : Bool

-- `RiskDetector`: the flags of an input and its haystack, and whether the detector could run; and
-- the field `campus_keywords` where it has one.
pub record RiskDetector : Type 0 where
  pub detect : RiskInput → Text → List RiskFlag × Bool
  pub own_campus_keywords : Option (List Text)

pub record KeywordRiskDetector : Type 0 where
  pub redline_keywords : List (RiskCategory × List Text)
  pub footgun_keywords : List (RiskCategory × List Text)
  pub defamation_keywords : List Text
  pub pii_keywords : List Text
  pub campus_keywords : List Text

-- The baseline lists.
abbrev pub campus_default : List Text
campus_default =
    map codes
      ("國中" ∷ "高中" ∷ "大學" ∷ "校園" ∷ "學生" ∷ "campus" ∷ "high school" ∷ "university student" ∷ [])

abbrev pub baseline : KeywordRiskDetector
baseline = record {
  redline_keywords =
      (minor, map codes ("未成年" ∷ "兒少" ∷ "minor" ∷ "underage" ∷ []))
      ∷ (ncii, map codes ("外流" ∷ "私密照" ∷ "復仇式" ∷ "ncii" ∷ "revenge porn" ∷ "leaked nude" ∷ []))
      ∷ (hidden_cam, map codes ("偷拍" ∷ "針孔" ∷ "上空偷" ∷ "hidden cam" ∷ "upskirt" ∷ "voyeur" ∷ []))
      ∷ (political, map codes ("選舉" ∷ "政黨" ∷ "election" ∷ []))
      ∷ (violence, map codes ("血腥" ∷ "凌虐" ∷ "斬首" ∷ "gore" ∷ "graphic violence" ∷ []))
      ∷ (human_rights, map codes ("人口販運" ∷ "強迫勞動" ∷ "trafficking" ∷ "forced labor" ∷ []))
      ∷ [];
  footgun_keywords = (minor, map codes ("童" ∷ [])) ∷ (political, map codes ("政治" ∷ [])) ∷ [];
  defamation_keywords =
      map codes ("詐騙犯" ∷ "小三" ∷ "渣男" ∷ "騙子" ∷ "罪犯" ∷ "scammer" ∷ "fraudster" ∷ "cheater" ∷ []);
  pii_keywords =
      map codes ("身分證" ∷ "身份證號" ∷ "住址" ∷ "電話" ∷ "手機號" ∷ "id number" ∷ "home address" ∷ []);
  campus_keywords = campus_default;
}

abbrev flag_if : Bool → RiskCategory → String → List RiskFlag
flag_if b c reason =
    if b then record { category = c; reason = codes reason; confident = true } ∷ [] else []

-- What the caller says of the source.
unfoldable pub source_flags : RiskInput → List RiskFlag
source_flags i =
    if i.has_source
    then []
    else flag_if true unclear_source "source/provenance not established"
      ++ flag_if i.contains_serious_claim unsupported_claim
          "serious claim without a supporting source"
      ++ flag_if true copyright_source_missing "copyright source attribution missing"

abbrev pub is_redline : RiskFlag → Bool
is_redline f = category_mem f.category redline_categories

abbrev pub is_daily : RiskFlag → Bool
is_daily f = category_mem f.category daily_check_categories

abbrev campus_words : RiskDetector → List Text
campus_words det = elim det.own_campus_keywords [ some words ↦ words | none ↦ campus_default ]

abbrev blocking_reason : RiskFlag → Text
blocking_reason f = codes (category_value f.category) ++ (codes ": " ++ f.reason)

abbrev result : RiskStatus → List RiskFlag → List Text → Action → RiskResult
result status flags reasons action = record {
  status = status;
  flags = flags;
  blocking_reasons = reasons;
  recommended_action = action;
}

abbrev disabled_flag : RiskFlag
disabled_flag = record {
  category = campus_student;
  reason = codes "category disabled by default";
  confident = true;
}

-- The fold of the flags, the most severe first.
unfoldable pub judge : List RiskFlag → Bool → Bool → RiskResult
judge flags available restricted =
    if not available
    then result needs_human_review flags [] detector_unavailable
    else if any is_redline flags
    then result blocked flags (map blocking_reason (keep is_redline flags)) block_redline
    else if restricted
    then result needs_human_review (flags ++ disabled_flag ∷ []) [] category_disabled
    else if any is_daily flags || any (λ f. not f.confident) flags
    then result needs_human_review flags [] daily_check
    else result pass flags [] pass_on

module _ (u : Unicode) where
  -- `f"{content.title}\n{content.body}".lower()`
  abbrev pub haystack_of : RiskInput → Text
  haystack_of i = u.lower (i.title ++ 10 ∷ i.body)

  -- Whether one of the words occurs.
  abbrev pub mentions : List Text → Text → Bool
  mentions words haystack = any (λ w. contains (u.lower w) haystack) words

  -- One flag for each category that has a word in the text.
  unfoldable pub redline_flags : Text → List (RiskCategory × List Text) → List RiskFlag
  redline_flags haystack [] = []
  redline_flags haystack ((c, words) ∷ rest) =
      let others = redline_flags haystack rest in
      if mentions words haystack
      then record {
        category = c;
        reason = codes "redline keyword matched: " ++ codes (category_value c);
        confident = true;
      }
        ∷ others
      else others

  -- A category that has its redline flag is skipped.
  unfoldable pub footgun_flags :
      Text → List RiskCategory → List (RiskCategory × List Text) → List RiskFlag
  footgun_flags haystack redlined [] = []
  footgun_flags haystack redlined ((c, words) ∷ rest) =
      let others = footgun_flags haystack redlined rest in
      if not (category_mem c redlined) && mentions words haystack
      then record {
        category = ambiguous_redline;
        reason =
            codes "ambiguous redline token (suspected " ++ (codes (category_value c) ++ codes ")");
        confident = false;
      }
        ∷ others
      else others

  -- `KeywordRiskDetector.detect`
  unfoldable pub detect_keywords : KeywordRiskDetector → RiskInput → Text → List RiskFlag × Bool
  unfolding redline_flags footgun_flags source_flags
  detect_keywords k i haystack = if not i.available then ([], false) else (
    redline_flags haystack k.redline_keywords
        ++ (footgun_flags haystack
              (map (λ f. f.category) (redline_flags haystack k.redline_keywords)) k.footgun_keywords
            ++ (flag_if (mentions k.defamation_keywords haystack) defamation
                  "accusatory/defamatory phrasing"
                ++ (flag_if (mentions k.pii_keywords haystack) private_pii
                      "identifiable private PII pattern"
                    ++ source_flags i))),
    true,
  )

  abbrev pub keyword_detector : KeywordRiskDetector → RiskDetector
  keyword_detector k = record {
    detect = detect_keywords k;
    own_campus_keywords = some k.campus_keywords;
  }

  -- The restricted category is in the text and not switched on.
  abbrev pub is_restricted : RiskDetector → Option (List RiskCategory) → RiskInput → Bool
  is_restricted det enabled i =
      mentions (campus_words det) (haystack_of i)
      && not (is_category_enabled campus_student enabled)

  unfoldable pub assess_risk : RiskInput → RiskDetector → Option (List RiskCategory) → RiskResult
  unfolding judge
  assess_risk i det enabled =
      let found = det.detect i (haystack_of i) in
      judge found.0 found.1 (is_restricted det enabled i)

  -- The prefix goes before an unverified claim that is not hedged yet.
  unfoldable pub apply_uncertainty_tone : Text → Bool → Text → Text
  apply_uncertainty_tone claim verified marker =
      if verified
      then strip u claim
      else if starts_with marker (strip u claim) || starts_with (codes "疑似") (strip u claim)
      then strip u claim
      else marker ++ strip u claim
