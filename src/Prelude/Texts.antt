-- ===== src/Prelude/Texts.antt =====
-- Texts as lists of code points.
use Prim.Native.Nat.{ℕ, ◌+◌}
use Prim.Native.Char.{code}
use Prim.Native.String.{String}
use mathlib.Core.Bool.{Bool, true, false, not, ◌&&◌, ◌||◌}
use mathlib.Core.List.{List, [], ◌∷◌, ◌++◌, reverse}
use local_content_processor.Prelude.Tests.{◌==◌, leb, if◌then◌else◌}
use local_content_processor.Prelude.Lists.{any, is_empty}

-- A text whose characters the program looks at.
abbrev pub Text : Type 0
Text = List ℕ

-- The code points of a literal.
abbrev pub codes : String → Text
codes String.[] = []
codes (String.◌∷◌ c s) = code c ∷ codes s

abbrev pub text_eq : Text → Text → Bool
text_eq [] [] = true
text_eq [] (d ∷ t) = false
text_eq (c ∷ s) [] = false
text_eq (c ∷ s) (d ∷ t) = (c == d) && text_eq s t

-- `s.startswith(p)`
abbrev pub starts_with : Text → Text → Bool
starts_with [] s = true
starts_with (c ∷ p) [] = false
starts_with (c ∷ p) (d ∷ s) = (c == d) && starts_with p s

-- `w in s`
abbrev pub contains : Text → Text → Bool
contains w [] = starts_with w []
contains w (c ∷ s) = starts_with w (c ∷ s) || contains w s

-- The general categories that the program asks for.
pub data Category : Type 0 where
  control format private_use other_category : Category

-- What the program takes from Python's tables of characters: `str.isspace` of a character, which is
-- also what `\s` matches, what `\w` matches, `unicodedata.category`, `str.lower`, and
-- `unicodedata.normalize` for NFC.
pub record Unicode : Type 0 where
  pub is_space : ℕ → Bool
  pub is_word : ℕ → Bool
  pub category : ℕ → Category
  pub lower : Text → Text
  pub nfc : Text → Text

-- The spaces and the letters of ASCII.
abbrev pub ascii_lower : Text → Text
ascii_lower [] = []
ascii_lower (c ∷ s) = (if leb b'A' c && leb c b'Z' then c + 32 else c) ∷ ascii_lower s

abbrev ascii_category : ℕ → Category
ascii_category c = if leb c 31 || (leb 127 c && leb c 159) then control else other_category

abbrev ascii_is_word : ℕ → Bool
ascii_is_word c =
    (leb b'A' c && leb c b'Z')
    || (leb b'a' c && leb c b'z')
    || (leb b'0' c && leb c b'9')
    || c == b'_'
    || leb 256 c

abbrev pub ascii : Unicode
ascii = record {
  is_space = λ c. c == 32 || (leb 9 c && leb c 13);
  is_word = ascii_is_word;
  category = ascii_category;
  lower = ascii_lower;
  nfc = λ s. s;
}

module _ (u : Unicode) where
  -- `s.lstrip()`
  abbrev pub strip_left : Text → Text
  strip_left [] = []
  strip_left (c ∷ s) = let rest = strip_left s in if u.is_space c then rest else c ∷ s

  -- `s.strip()`
  abbrev pub strip : Text → Text
  strip s = reverse (strip_left (reverse (strip_left s)))

  -- `re.sub(r"\s+", " ", s).strip()`: a run of spaces between two words is one space.
  abbrev pub collapse : Bool → Bool → Text → Text
  collapse started gap [] = []
  collapse started gap (c ∷ s) =
      let space = u.is_space c in
      let rest = collapse (started || not space) space s in
      if space then rest else if started && gap then 32 ∷ c ∷ rest else c ∷ rest

-- `text.split("\n")`, with the part before the first newline apart.
abbrev pub first_line : Text → Text
first_line [] = []
first_line (c ∷ s) = let rest = first_line s in if c == 10 then [] else c ∷ rest

abbrev pub other_lines : Text → List Text
other_lines [] = []
other_lines (c ∷ s) = let rest = other_lines s in if c == 10 then first_line s ∷ rest else rest

abbrev pub lines : Text → List Text
lines s = first_line s ∷ other_lines s

-- The parts of a text between the characters that a test holds of, the first part apart.
abbrev first_part : (ℕ → Bool) → Text → Text
first_part p [] = []
first_part p (c ∷ s) = let rest = first_part p s in if p c then [] else c ∷ rest

abbrev other_parts : (ℕ → Bool) → Text → List Text
other_parts p [] = []
other_parts p (c ∷ s) = let rest = other_parts p s in if p c then first_part p s ∷ rest else rest

abbrev pub split_at : (ℕ → Bool) → Text → List Text
split_at p s = first_part p s ∷ other_parts p s

-- `not s`, turned round.
abbrev pub some_text : Text → Bool
some_text [] = false
some_text (c ∷ s) = true

-- `t in ts`
abbrev pub text_mem : Text → List Text → Bool
text_mem t ts = any (λ s. text_eq s t) ts

-- `set(ts)`, as a list without repetitions.
abbrev pub distinct : List Text → List Text
distinct [] = []
distinct (t ∷ ts) = let rest = distinct ts in if text_mem t ts then rest else t ∷ rest

-- `"\n".join(p for p in parts if p)`
abbrev pub join_lines : List Text → Text
join_lines [] = []
join_lines ([] ∷ ts) = join_lines ts
join_lines ((c ∷ t) ∷ ts) =
    let rest = join_lines ts in (c ∷ t) ++ (if is_empty rest then [] else 10 ∷ rest)
