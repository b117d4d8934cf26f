-- ===== src/Publisher/Sanitizer/Inert.antt =====
-- What escaping promises (sanitizer.py): an escaped text holds no character of markup.
use local_content_processor.Prelude.{
  ℕ, ◌≡◌, refl, sym, ap, ◌∙◌, Bool, false, ◌||◌, [], ◌∷◌, ◌++◌, any, ◌==◌, if◌then◌else◌,
  Bool-cases, arith, inl, inr,
}
use mathlib.Core.List.{append_assoc}
use local_content_processor.Prelude.Texts.{Text, codes}
use local_content_processor.Publisher.Sanitizer.{replace, escape}

replace-append : (c : ℕ) (w s t : Text) → replace c w (s ++ t) ≡ replace c w s ++ replace c w t
replace-append c w [] t = refl
replace-append c w (x ∷ s) t =
    ap (λ r. (if x == c then w else x ∷ []) ++ r) (replace-append c w s t)
    ∙ sym (append_assoc (if x == c then w else x ∷ []) (replace c w s) (replace c w t))

escape-append : (s t : Text) → escape (s ++ t) ≡ escape s ++ escape t
unfolding escape
escape-append s t = rw (
  replace-append b'&' (codes "&amp;") s t,
  replace-append b'<' (codes "&lt;") _ _,
  replace-append b'>' (codes "&gt;") _ _,
  replace-append b'"' (codes "&quot;") _ _,
  replace-append b'\'' (codes "&#x27;") _ _,
)

-- The characters that open or close markup and attributes.
abbrev pub is_markup : ℕ → Bool
is_markup c = c == b'<' || c == b'>' || c == b'"' || c == b'\''

abbrev pub has_markup : Text → Bool
has_markup t = any is_markup t

-- One character, escaped.
abbrev escape_char : ℕ → Text
escape_char x =
    if x == b'&'
    then codes "&amp;"
    else if x == b'<'
    then codes "&lt;"
    else if x == b'>'
    then codes "&gt;"
    else if x == b'"'
    then codes "&quot;"
    else if x == b'\''
    then codes "&#x27;"
    else x ∷ []

escape_one : (x : ℕ) → escape (x ∷ []) ≡ escape_char x
unfolding escape
escape_one x = elim (Bool-cases (x == b'&')) [
  | inl a ↦ rw a
  | inr a ↦ elim (Bool-cases (x == b'<')) [
    | inl b ↦ rw (a, b)
    | inr b ↦ elim (Bool-cases (x == b'>')) [
      | inl c ↦ rw (a, b, c)
      | inr c ↦ elim (Bool-cases (x == b'"')) [
        | inl d ↦ rw (a, b, c, d)
        | inr d ↦ elim (Bool-cases (x == b'\'')) [
          | inl e ↦ rw (a, b, c, d, e)
          | inr e ↦ rw (a, b, c, d, e)
        ]
      ]
    ]
  ]
]

escape_cons : (x : ℕ) (s : Text) → escape (x ∷ s) ≡ escape_char x ++ escape s
escape_cons x s = escape-append (x ∷ []) s ∙ ap (λ t. t ++ escape s) (escape_one x)

pub has_markup-append : (s t : Text) → has_markup (s ++ t) ≡ (has_markup s || has_markup t)
has_markup-append [] t = refl
has_markup-append (x ∷ s) t = ground (arith, has_markup-append s t)

escape_char-clean : (x : ℕ) → has_markup (escape_char x) ≡ false
escape_char-clean x = ground arith

-- A text that is escaped holds none of the characters of markup.
pub escape-inert : (s : Text) → has_markup (escape s) ≡ false
unfolding escape
escape-inert [] = refl
escape-inert (x ∷ s) =
    ap has_markup (escape_cons x s)
    ∙ has_markup-append (escape_char x) (escape s)
    ∙ rw (escape_char-clean x, escape-inert s)
