-- ===== src/Core/Steps.antt =====
-- src/lcp/core/rules/sop_steps.py: the ten editorial steps of a job, for the progress panel.
use local_content_processor.Prelude.{
  ◌≡◌, String, Bool, true, false, not, ◌&&◌, Option, none, some, List, [], ◌∷◌, any, all, is_empty,
  is_some, arith,
}
use local_content_processor.Prelude.Texts.{Text, codes, starts_with}
use local_content_processor.Core.State.{
  JobState, ReviewReason, grounding, classification, new, crawled, crawled_warn, processing,
  processed, needs_human_review, needs_revision, process_failed, review_pending, approved,
  published_recorded, blocked, duplicate, state_eq, state_mem,
}

abbrev after_crawl : List JobState
after_crawl =
    crawled ∷ crawled_warn ∷ processing ∷ processed ∷ needs_human_review ∷ needs_revision
    ∷ process_failed ∷ review_pending ∷ approved ∷ published_recorded ∷ []

abbrev after_processed : List JobState
after_processed =
    processed ∷ needs_human_review ∷ needs_revision ∷ review_pending ∷ approved ∷ published_recorded
    ∷ []

abbrev kw_dimensions : List Text
kw_dimensions = codes "人物:" ∷ codes "地點:" ∷ codes "平台:" ∷ codes "事件:" ∷ codes "內容類型:" ∷ []

-- What the steps read of a sanitized draft.
pub record DraftFields : Type 0 where
  pub category : Option Text
  pub keywords : List Text

pub record StepStatus : Type 0 where
  pub label : String
  pub done : Bool
  pub current : Bool
  pub blocked : Bool
  pub blocked_label : String
  pub not_yet : Bool

abbrev step : String → Bool → Bool → StepStatus
step label done current = record {
  label = label;
  done = done;
  current = current;
  blocked = false;
  blocked_label = "";
  not_yet = false;
}

abbrev is_reason : ReviewReason → Option ReviewReason → Bool
is_reason grounding (some grounding) = true
is_reason classification (some classification) = true
is_reason _ _ = false

abbrev has_category : Option DraftFields → Bool
has_category none = false
has_category (some d) = named d.category
  where
    named : Option Text → Bool
    named none = false
    named (some c) = not (is_empty c)

abbrev keywords_of : Option DraftFields → List Text
keywords_of none = []
keywords_of (some d) = d.keywords

-- `_all_kw_dimensions`
unfoldable pub all_kw_dimensions : List Text → Bool
all_kw_dimensions keywords = all (λ dim. any (λ kw. starts_with dim kw) keywords) kw_dimensions

module _ (state : JobState) (review_reason : Option ReviewReason) (draft : Option DraftFields) where
  abbrev s02_blocked : Bool
  s02_blocked = state_eq state blocked

  abbrev s02_done : Bool
  s02_done = state_mem state after_crawl && not s02_blocked

  abbrev s03_blocked : Bool
  s03_blocked = state_eq state duplicate

  abbrev s03_done : Bool
  s03_done = state_mem state after_crawl && not s02_blocked && not s03_blocked

  abbrev s04_blocked : Bool
  s04_blocked = is_reason classification review_reason

  abbrev s04_done : Bool
  s04_done = not s04_blocked && is_some draft && has_category draft

  abbrev s04_not_yet : Bool
  s04_not_yet = not s04_blocked && not (is_some draft)

  abbrev s05_done : Bool
  s05_done = state_mem state after_processed

  abbrev s07_blocked : Bool
  s07_blocked = is_reason grounding review_reason

  abbrev s07_done : Bool
  s07_done = s05_done && not s07_blocked

  abbrev s08_done : Bool
  s08_done = is_some draft && s07_done && all_kw_dimensions (keywords_of draft)

  abbrev s08_not_yet : Bool
  s08_not_yet = not (is_some draft) && not s07_done

  abbrev s09_done : Bool
  s09_done = state_mem state (review_pending ∷ approved ∷ published_recorded ∷ [])

  abbrev s10_done : Bool
  s10_done = state_eq state published_recorded

  unfoldable pub steps_for : List StepStatus
  unfolding all_kw_dimensions
  steps_for =
      step "01 接收素材" (not (state_eq state new)) (state_eq state new)
      ∷ record {
        label = "02 素材检查";
        done = s02_done;
        current = state_mem state (crawled ∷ crawled_warn ∷ []) && not s02_blocked;
        blocked = s02_blocked;
        blocked_label = "內容風險攔截";
        not_yet = false;
      }
      ∷ record {
        label = "03 站内查重";
        done = s03_done;
        current = s02_done && not s03_done && not s03_blocked;
        blocked = s03_blocked;
        blocked_label = "站內重複";
        not_yet = false;
      }
      ∷ record {
        label = "04 确认方向";
        done = s04_done;
        current = s03_done && not s04_done && not s04_blocked && not s04_not_yet;
        blocked = s04_blocked;
        blocked_label = "需人工確認分類";
        not_yet = s04_not_yet;
      }
      ∷ step "05 处理图片" s05_done (s04_done && not s05_done && not s04_blocked)
      ∷ step "06 制作封面" s05_done false
      ∷ record {
        label = "07 撰写文案";
        done = s07_done;
        current = s05_done && not s07_done && not s07_blocked;
        blocked = s07_blocked;
        blocked_label = "文案需修訂";
        not_yet = false;
      }
      ∷ record {
        label = "08 填写关键词";
        done = s08_done;
        current = s07_done && not s08_done && not s08_not_yet;
        blocked = false;
        blocked_label = "";
        not_yet = s08_not_yet;
      }
      ∷ step "09 草稿箱" s09_done (s08_done && not s09_done)
      ∷ step "10 发群/发布" s10_done (s09_done && not s10_done)
      ∷ []

  -- No step is both done and blocked.
  pub steps_for-blocked : all (λ s. not (s.done && s.blocked)) steps_for ≡ true
  unfolding steps_for
  steps_for-blocked = ground arith
