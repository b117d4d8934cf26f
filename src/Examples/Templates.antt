-- ===== src/Examples/Templates.antt =====
-- The theorem on an accepted template, and a template that is rejected.
use local_content_processor.Prelude.{ℕ, ◌≡◌, refl, Bool, List, [], ◌∷◌, leb}
use local_content_processor.Prelude.Texts.{Text, codes, ascii}
use local_content_processor.Core.Clean.{is_hidden_codepoint}
use local_content_processor.Core.Templates.{
  lint_template, template_errors, has_homoglyph, role_marker, reaches_attributes,
  unknown_placeholder,
}
use local_content_processor.Core.Templates.Accepted.{IsHarmless, lint_template-IsHarmless}

abbrev is_alpha : ℕ → Bool
is_alpha c = leb 65 c

-- A folding that changes nothing.
abbrev unfolded : ℕ → Text
unfolded c = c ∷ []

abbrev template : Text
template = codes "Write on { topic } now"

abbrev topic_only : List Text
topic_only = codes "topic" ∷ []

accepted : (lint_template ascii is_alpha unfolded topic_only template).errors ≡ []
unfolding lint_template template_errors is_hidden_codepoint has_homoglyph
accepted = refl

lint_template-IsHarmless_example : IsHarmless ascii is_alpha unfolded topic_only template
lint_template-IsHarmless_example =
    lint_template-IsHarmless ascii is_alpha unfolded topic_only template accepted

rejected :
    lint_template ascii is_alpha unfolded topic_only (codes "SYSTEM: {{a.b} { c }} override")
    ≡ record {
      errors =
          role_marker (codes "system:")
          ∷ reaches_attributes (codes "a.b")
          ∷ unknown_placeholder (codes "c")
          ∷ [];
      warnings = codes "override" ∷ [];
    }
unfolding lint_template template_errors is_hidden_codepoint has_homoglyph
rejected = refl
