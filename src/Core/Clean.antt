-- ===== src/Core/Clean.antt =====
-- src/lcp/core/text_sanitize.py: the cleaning of scraped text before anything else reads it.
use local_content_processor.Prelude.{
  ℕ, Bool, true, false, not, ◌&&◌, ◌||◌, List, [], ◌∷◌, any, keep, leb, ◌==◌,
}
use local_content_processor.Prelude.Texts.{
  Text, Unicode, Category, control, format, private_use, other_category,
}

abbrev zero_width : List ℕ
zero_width = 8203 ∷ 8204 ∷ 8205 ∷ 8288 ∷ 65279 ∷ 173 ∷ 6158 ∷ []

abbrev bidi_controls : List ℕ
bidi_controls = 8234 ∷ 8235 ∷ 8236 ∷ 8237 ∷ 8238 ∷ 8294 ∷ 8295 ∷ 8296 ∷ 8297 ∷ 8206 ∷ 8207 ∷ []

abbrev pub code_mem : ℕ → List ℕ → Bool
code_mem c cs = any (λ d. d == c) cs

abbrev hidden_category : Category → Bool
hidden_category control = false
hidden_category format = true
hidden_category private_use = true
hidden_category other_category = false

abbrev is_control : Category → Bool
is_control control = true
is_control _ = false

module _ (u : Unicode) where
  unfoldable pub is_hidden_codepoint : ℕ → Bool
  is_hidden_codepoint c =
      code_mem c zero_width
      || code_mem c bidi_controls
      || (leb 917504 c && leb c 917631)
      || hidden_category (u.category c)

  -- The characters that `sanitize_source` keeps.
  unfoldable pub is_kept : ℕ → Bool
  unfolding is_hidden_codepoint
  is_kept c =
      code_mem c (10 ∷ 9 ∷ 13 ∷ [])
      || (not (is_hidden_codepoint c) && not (is_control (u.category c)))

  unfoldable pub sanitize_source : Text → Text
  unfolding is_kept
  sanitize_source [] = []
  sanitize_source (c ∷ s) = keep is_kept (u.nfc (c ∷ s))
