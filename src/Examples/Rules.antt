-- ===== src/Examples/Rules.antt =====
-- The theorems on states, drafts and risks, at values.
use local_content_processor.Prelude.{◌≡◌, ◌↔◌, refl, true, false, none, [], any, not, ◌||◌}
use local_content_processor.Prelude.Texts.{ascii}
use local_content_processor.Core.State.{
  JobState, new, approved, superseded, processed, published_recorded, state_mem, terminal_states,
  allowed_transitions, is_legal_transition,
}
use local_content_processor.Core.State.Lifecycle.{
  Leads, LeadsAvoiding, frozen_states, frozen_for_good, publication_passes_every_gate,
  terminal_iff_no_successor, terminal_reachable,
}
use local_content_processor.Core.Lint.{lint_draft}
use local_content_processor.Core.Lint
use local_content_processor.Core.Lint.Verdict.{IsAcceptable, lint_draft-pass_iff}
use local_content_processor.Core.Risk.{
  assess_risk, keyword_detector, baseline, category_mem, redline_categories, is_redline, is_daily,
  is_restricted, haystack_of, detect_keywords,
}
use local_content_processor.Core.Risk
use local_content_processor.Core.Risk.Verdict.{
  IsClear, any_word, is_unsure, assess_risk_lem, keyword_pass_iff, keyword_blocked_iff,
}
use local_content_processor.Examples.Fixtures.{lint_config, draft, clean_input}

frozen_for_good_example : state_mem superseded frozen_states ≡ true
unfolding is_legal_transition
frozen_for_good_example =
    frozen_for_good {s = approved} {t = superseded} refl
      (Leads.step {t = superseded} refl Leads.here)

publication_passes_every_gate_example : ¬ LeadsAvoiding approved new published_recorded
publication_passes_every_gate_example = publication_passes_every_gate approved refl

terminal_iff_no_successor_example :
    (allowed_transitions processed ≡ []) ↔ (state_mem processed terminal_states ≡ true)
terminal_iff_no_successor_example = terminal_iff_no_successor processed

terminal_reachable_example : (t : JobState) × (state_mem t terminal_states ≡ true) × Leads new t
terminal_reachable_example = terminal_reachable new

lint_draft-pass_iff_example :
    ((lint_draft ascii lint_config [] false false draft).status ≡ Lint.pass)
    ↔ IsAcceptable ascii lint_config [] false false draft
lint_draft-pass_iff_example = lint_draft-pass_iff ascii lint_config [] false false draft

-- The draft of the examples passes.
draft_passes : (lint_draft ascii lint_config [] false false draft).status ≡ Lint.pass
unfolding lint_draft Lint.is_excessive Lint.lint_errors Lint.lint_title Lint.lint_sections
    Lint.lint_fields Lint.lint_media Lint.lint_tags Lint.lint_category Lint.lint_copy
draft_passes = refl

assess_risk_lem_example :
    (((assess_risk ascii clean_input (keyword_detector ascii baseline) none).status ≡ Risk.blocked)
      ↔ (((detect_keywords ascii baseline clean_input (haystack_of ascii clean_input)).1 ≡ true)
          × (any is_redline
                (detect_keywords ascii baseline clean_input (haystack_of ascii clean_input)).0
              ≡ true)))
    × (((assess_risk ascii clean_input (keyword_detector ascii baseline) none).status ≡ Risk.pass)
        ↔ (((detect_keywords ascii baseline clean_input (haystack_of ascii clean_input)).1 ≡ true)
            × ((any is_redline
                    (detect_keywords ascii baseline clean_input (haystack_of ascii clean_input)).0
                  ≡ false)
                × ((any is_daily
                        (detect_keywords ascii baseline clean_input
                          (haystack_of ascii clean_input)).0
                      ≡ false)
                    × ((any is_unsure
                            (detect_keywords ascii baseline clean_input
                              (haystack_of ascii clean_input)).0
                          ≡ false)
                        × (is_restricted ascii (keyword_detector ascii baseline) none clean_input
                            ≡ false))))))
assess_risk_lem_example = assess_risk_lem ascii clean_input (keyword_detector ascii baseline) none

keyword_pass_iff_example :
    ((assess_risk ascii clean_input (keyword_detector ascii baseline) none).status ≡ Risk.pass)
    ↔ IsClear ascii baseline clean_input none
keyword_pass_iff_example = keyword_pass_iff ascii baseline clean_input none refl

keyword_blocked_iff_example :
    ((assess_risk ascii clean_input (keyword_detector ascii baseline) none).status ≡ Risk.blocked)
    ↔ ((clean_input.available ≡ true)
        × ((any_word ascii baseline.redline_keywords (haystack_of ascii clean_input)
              || not clean_input.has_source)
            ≡ true))
keyword_blocked_iff_example = keyword_blocked_iff ascii baseline clean_input none refl
