-- ===== src/Core/Templates.antt =====
-- src/lcp/core/rules/template_lint.py: the checks of a template that an operator has written. Messages
-- are data; `str.isalpha` and the NFKC form of a character are parameters.
pub mod Accepted
use local_content_processor.Prelude.{
  ℕ, ◌+◌, Bool, true, false, not, ◌&&◌, ◌||◌, Option, none, some, List, [], ◌∷◌, ◌++◌, any, keep,
  length, is_empty, leb, ltb, ◌==◌, if◌then◌else◌,
}
use local_content_processor.Prelude.Texts.{Text, Unicode, codes, contains, strip, text_mem}
use local_content_processor.Core.Clean.{is_hidden_codepoint, code_mem}

abbrev pub max_template_chars : ℕ
max_template_chars = 4096

abbrev pub role_markers : List Text
role_markers =
    codes "<|"
    ∷ codes "|>"
    ∷ codes "<s>"
    ∷ codes "</s>"
    ∷ codes "[inst]"
    ∷ codes "[/inst]"
    ∷ codes "system:"
    ∷ codes "assistant:"
    ∷ codes "developer:"
    ∷ codes "###system"
    ∷ codes "### system"
    ∷ []

abbrev pub datamark_prefix : Text
datamark_prefix = codes "DATA_"

abbrev injection_phrases : List Text
injection_phrases =
    codes "ignore previous"
    ∷ codes "ignore the above"
    ∷ codes "ignore all previous"
    ∷ codes "disregard the above"
    ∷ codes "disregard previous"
    ∷ codes "forget the above"
    ∷ codes "you are now"
    ∷ codes "new instructions"
    ∷ codes "override"
    ∷ codes "jailbreak"
    ∷ codes "无视上述"
    ∷ codes "忽略上述"
    ∷ codes "忽略以上"
    ∷ codes "忽略之前"
    ∷ []

pub data TemplateError : Type 0 where
  template_empty hidden_codepoints homoglyphs data_delimiter code_fence : TemplateError
  too_long : ℕ → TemplateError
  role_marker reaches_attributes unknown_placeholder : Text → TemplateError

pub record TemplateLintResult : Type 0 where
  pub errors : List TemplateError
  pub warnings : List Text

abbrev pub error_if : Bool → TemplateError → List TemplateError
error_if true e = e ∷ []
error_if false e = []

-- The first marker that stands in the text: the loop breaks there.
abbrev pub find_marker : List Text → Text → List TemplateError
find_marker [] text = []
find_marker (m ∷ ms) text =
    let rest = find_marker ms text in if contains m text then role_marker m ∷ [] else rest

-- `re.findall(r"\{([^{}]*)\}", text)`: an opening brace starts a placeholder again, a closing one ends
-- the one that is open, if one is.
abbrev pub reading : Option Text → ℕ → Option Text
reading part c = if c == b'{' then some [] else if c == b'}' then none else extended part
  where
    extended : Option Text → Option Text
    extended none = none
    extended (some raw) = some (raw ++ (c ∷ []))

abbrev pub closing : Option Text → List Text → List Text
closing none rest = rest
closing (some raw) rest = raw ∷ rest

abbrev pub placeholders : Option Text → Text → List Text
placeholders part [] = []
placeholders part (c ∷ s) =
    let rest = placeholders (reading part c) s in if c == b'}' then closing part rest else rest

-- The characters by which `str.format_map` reaches the inside of an object.
abbrev pub format_codes : List ℕ
format_codes = codes ".[]!:"

module _ (u : Unicode) (is_alpha : ℕ → Bool) (nfkc : ℕ → Text) where
  abbrev is_ascii_letter : ℕ → Bool
  is_ascii_letter c = (leb b'A' c && leb c b'Z') || (leb b'a' c && leb c b'z')

  unfoldable pub has_homoglyph : Text → Bool
  has_homoglyph text = any (λ c. ltb 127 c && is_alpha c && any is_ascii_letter (nfkc c)) text

  abbrev pub check_placeholder : List Text → Text → List TemplateError
  check_placeholder allowed_slots raw =
      if any (λ c. code_mem c format_codes) raw
      then reaches_attributes raw ∷ []
      else if not (text_mem (strip u raw) allowed_slots)
      then unknown_placeholder (strip u raw) ∷ []
      else []

  abbrev pub check_placeholders : List Text → List Text → List TemplateError
  check_placeholders allowed_slots [] = []
  check_placeholders allowed_slots (raw ∷ raws) =
      check_placeholder allowed_slots raw ++ check_placeholders allowed_slots raws

  -- All checks of a template that is not blank, in order.
  unfoldable pub template_errors : List Text → Text → List TemplateError
  unfolding has_homoglyph
  template_errors allowed_slots template =
      error_if (ltb max_template_chars (length template)) (too_long (length template))
      ++ (error_if (any (is_hidden_codepoint u) template) hidden_codepoints
          ++ (error_if (has_homoglyph template) homoglyphs
              ++ (find_marker role_markers (u.lower template)
                  ++ (error_if (contains datamark_prefix template) data_delimiter
                      ++ (error_if
                            (contains (codes "```") template || contains (codes "~~~") template)
                            code_fence
                          ++ check_placeholders allowed_slots (placeholders none template))))))

  unfoldable pub lint_template : List Text → Text → TemplateLintResult
  unfolding template_errors
  lint_template allowed_slots template =
      if is_empty template || is_empty (strip u template)
      then record { errors = template_empty ∷ []; warnings = [] }
      else record {
        errors = template_errors allowed_slots template;
        warnings = keep (λ phrase. contains phrase (u.lower template)) injection_phrases;
      }
