-- ===== src/Prelude/Substrings.antt =====
-- What the tests on texts mean: a substring, and a character that no part of a text holds.
use local_content_processor.Prelude.{
  ℕ, ◌≡◌, refl, ap, ◌↔◌, inl, inr, Bool, true, false, ◌||◌, [], ◌∷◌, ◌++◌, ◌==◌, Bool-cases,
  and-eq-true, arith,
}
use local_content_processor.Prelude.Texts.{Text, starts_with, contains, text_eq}

-- `w` stands somewhere in `s`.
abbrev pub IsSubstring : Text → Text → Type 0
IsSubstring w s = (before : Text) × (after : Text) × (s ≡ before ++ (w ++ after))

eq-of-test : (c d : ℕ) → (c == d) ≡ true → c ≡ d
eq-of-test c d h = ground arith

test-of-eq : (c d : ℕ) → c ≡ d → (c == d) ≡ true
test-of-eq c d h = ground arith

starts_with_iff : (w s : Text) → (starts_with w s ≡ true) ↔ ((after : Text) × (s ≡ w ++ after))
starts_with_iff [] s = ((λ h. (s, refl)), (λ h. refl))
starts_with_iff (c ∷ w) [] = ((λ h. cc), (λ h. cc (h.1)))
starts_with_iff (c ∷ w) (d ∷ s) = (
  (λ h.
      let both = and-eq-true (c == d) (starts_with w s) h in
      let r = (starts_with_iff w s).0 both.1 in (r.0, cc (r.1, eq-of-test c d both.0))),
  (λ h. let tail = (starts_with_iff w s).1 (h.0, cc (h.1)) in rw (test-of-eq c d (cc (h.1)), tail)),
)

at_end : (w before after : Text) → [] ≡ before ++ (w ++ after) → starts_with w [] ≡ true
at_end [] before after e = refl
at_end (c ∷ w) [] after e = cc
at_end (c ∷ w) (d ∷ before) after e = cc

found :
    (w : Text) (c : ℕ) (s : Text)
    → (IsSubstring w s → contains w s ≡ true)
    → (before after : Text) → (c ∷ s) ≡ before ++ (w ++ after)
    → (starts_with w (c ∷ s) || contains w s) ≡ true
found w c s later [] after e = rw ((starts_with_iff w (c ∷ s)).1 (after, e))
found w c s later (d ∷ before) after e =
    or-true (starts_with w (c ∷ s)) (contains w s) (later (before, after, cc e))
  where
    or-true : (a b : Bool) → b ≡ true → (a || b) ≡ true
    or-true true b h = refl
    or-true false b h = h

-- The test `w in s` finds exactly the substrings.
pub contains_iff : (w s : Text) → (contains w s ≡ true) ↔ IsSubstring w s
contains_iff w [] =
    ((λ h. let r = (starts_with_iff w []).0 h in ([], r.0, r.1)), (λ h. at_end w h.0 h.1 h.2))
contains_iff w (c ∷ s) = (
  (λ h. elim (Bool-cases (starts_with w (c ∷ s))) [
    | inl here ↦ let r = (starts_with_iff w (c ∷ s)).0 here in ([], r.0, r.1)
    | inr miss ↦
        let later = (contains_iff w s).0 (cc (h, miss)) in
        (c ∷ later.0, later.1, ap (λ t. c ∷ t) later.2)
  ]),
  (λ h. found w c s (contains_iff w s).1 h.0 h.1 h.2),
)

-- Texts that pass the test of equality are equal.
pub text_eq_sound : (s t : Text) → text_eq s t ≡ true → s ≡ t
text_eq_sound [] [] h = refl
text_eq_sound [] (d ∷ t) h = cc h
text_eq_sound (c ∷ s) [] h = cc h
text_eq_sound (c ∷ s) (d ∷ t) h =
    let both = and-eq-true (c == d) (text_eq s t) h in
    cc (eq-of-test c d both.0, text_eq_sound s t both.1)

pub text_eq_refl : (s : Text) → text_eq s s ≡ true
text_eq_refl [] = refl
text_eq_refl (c ∷ s) = ground (arith, text_eq_refl s)
