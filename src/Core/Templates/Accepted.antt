-- ===== src/Core/Templates/Accepted.antt =====
-- What an accepted template cannot hold: hidden characters, role markers, other placeholders.
use mathlib.Core.List.{Memᴰ, append-nil, append_assoc}
use mathlib.Core.List.Memᴰ
use local_content_processor.Prelude.{
  ℕ, ◌≤◌, ◌≡◌, refl, sym, ap, ◌∙◌, subst, Bool, true, false, not, ◌||◌, Option, none, some, List,
  [], ◌∷◌, ◌++◌, any, length, is_empty, ltb, ◌==◌, if◌then◌else◌, inl, inr, Bool-cases, arith,
}
use local_content_processor.Prelude.Members.{append-none}
use local_content_processor.Prelude.Texts.{Text, Unicode, codes, contains, strip, text_mem}
use local_content_processor.Core.Clean.{is_hidden_codepoint, code_mem}
use local_content_processor.Core.Templates.{
  max_template_chars, role_markers, datamark_prefix, TemplateError, TemplateLintResult, code_fence,
  error_if, find_marker, placeholders, reading, closing, format_codes, has_homoglyph,
  check_placeholder, check_placeholders, template_errors, lint_template,
}

abbrev has_brace : Text → Bool
has_brace s = any (λ c. c == b'{' || c == b'}') s

or-eq-false : (a b : Bool) → (a || b) ≡ false → (a ≡ false) × (b ≡ false)
or-eq-false true b h = cc
or-eq-false false b h = (refl, h)

any-none {ℓ} :
    {A : Type ℓ} (p : A → Bool) (xs : List A) → any p xs ≡ false → (x : A) → Memᴰ x xs → p x ≡ false
any-none p [] h x m = absurd (Memᴰ.not-nil m)
any-none p (y ∷ ys) h x m =
    let both = or-eq-false (p y) (any p ys) h in
    elim (Memᴰ.cases_cons m) [
      | inl here ↦ ap p here ∙ both.0
      | inr there ↦ any-none p ys both.1 x there
    ]

no_error : (b : Bool) (e : TemplateError) → error_if b e ≡ [] → b ≡ false
no_error true e h = cc
no_error false e h = refl

no_marker :
    (ms : List Text) (text : Text)
    → find_marker ms text ≡ []
    → (m : Text) → Memᴰ m ms
    → contains m text ≡ false
no_marker [] text h m k = absurd (Memᴰ.not-nil k)
no_marker (y ∷ ys) text h m k = elim (Bool-cases (contains y text)) [
  | inl e ↦ cc (h, e)
  | inr e ↦ elim (Memᴰ.cases_cons k) [
    | inl here ↦ ap (λ w. contains w text) here ∙ e
    | inr there ↦ no_marker ys text (cc (h, e)) m there
  ]
]

otherwise {ℓ} :
    {A : Type ℓ} {x : A} (b : Bool) (xs ys : List A)
    → b ≡ false
    → Memᴰ x ys
    → Memᴰ x (if b then xs else ys)
otherwise {x} b xs ys e m = subst (λ d. Memᴰ x (if d then xs else ys)) (sym e) m

reading_more :
    (w : Text) (c : ℕ)
    → (c == b'{') ≡ false
    → (c == b'}') ≡ false
    → reading (some w) c ≡ some (w ++ (c ∷ []))
reading_more w c e f = rw (e, f)

-- What has been read of a placeholder, and its rest up to the closing brace, is found as one.
read_on :
    (raw w after : Text)
    → has_brace raw ≡ false
    → Memᴰ (w ++ raw) (placeholders (some w) (raw ++ (b'}' ∷ after)))
read_on [] w after h = Memᴰ.head (append-nil w)
read_on (c ∷ raw) w after h =
    let both = or-eq-false (c == b'{' || c == b'}') (has_brace raw) h in
    let plain = or-eq-false (c == b'{') (c == b'}') both.0 in
    let whole =
      subst (λ s. Memᴰ s (placeholders (some (w ++ (c ∷ []))) (raw ++ (b'}' ∷ after))))
        (append_assoc w (c ∷ []) raw) (read_on raw (w ++ (c ∷ [])) after both.1) in
    otherwise (c == b'}') _ _ plain.1 (
      subst (λ p. Memᴰ (w ++ (c ∷ raw)) (placeholders p (raw ++ (b'}' ∷ after))))
        (sym (reading_more w c plain.0 plain.1)) whole)

keep_found :
    (raw : Text) (b : Bool) (part : Option Text) (rest : List Text)
    → Memᴰ raw rest
    → Memᴰ raw (if b then closing part rest else rest)
keep_found raw true none rest m = m
keep_found raw true (some w) rest m = Memᴰ.tail m
keep_found raw false part rest m = m

placeholder_found :
    (before : Text) (part : Option Text) (raw after : Text)
    → has_brace raw ≡ false
    → Memᴰ raw (placeholders part (before ++ (b'{' ∷ (raw ++ (b'}' ∷ after)))))
placeholder_found [] part raw after h = read_on raw [] after h
placeholder_found (c ∷ before) part raw after h =
    keep_found raw (c == b'}') part _ (placeholder_found before (reading part c) raw after h)

module _ (u : Unicode) (is_alpha : ℕ → Bool) (nfkc : ℕ → Text) (allowed_slots : List Text) where
  -- A placeholder that is allowed: it names a slot and reaches nothing inside it.
  abbrev pub IsPermitted : Text → Type 0
  IsPermitted raw =
      (any (λ c. code_mem c format_codes) raw ≡ false)
      × (text_mem (strip u raw) allowed_slots ≡ true)

  placeholder-IsPermitted :
      (raw : Text) → check_placeholder u is_alpha nfkc allowed_slots raw ≡ [] → IsPermitted raw
  placeholder-IsPermitted raw h =
      decide_permitted _ _ (any (λ c. code_mem c format_codes) raw)
        (text_mem (strip u raw) allowed_slots) h
    where
      decide_permitted :
          (e d : TemplateError) (a b : Bool)
          → (if a then e ∷ [] else if not b then d ∷ [] else []) ≡ []
          → (a ≡ false) × (b ≡ true)
      decide_permitted e d true b k = cc
      decide_permitted e d false true k = (refl, refl)
      decide_permitted e d false false k = cc

  all-IsPermitted :
      (raws : List Text)
      → check_placeholders u is_alpha nfkc allowed_slots raws ≡ []
      → (raw : Text) → Memᴰ raw raws
      → IsPermitted raw
  all-IsPermitted [] h raw m = absurd (Memᴰ.not-nil m)
  all-IsPermitted (y ∷ ys) h raw m =
      let both = (append-none (check_placeholder u is_alpha nfkc allowed_slots y) _).0 h in
      elim (Memᴰ.cases_cons m) [
        | inl here ↦ subst IsPermitted (sym here) (placeholder-IsPermitted y both.0)
        | inr there ↦ all-IsPermitted ys both.1 raw there
      ]

  -- What an accepted template promises.
  pub record IsHarmless (template : Text) : Type 0 where
    pub short : length template ≤ max_template_chars
    pub visible : (c : ℕ) → Memᴰ c template → is_hidden_codepoint u c ≡ false
    pub plain : has_homoglyph u is_alpha nfkc template ≡ false
    pub no_role : (m : Text) → Memᴰ m role_markers → contains m (u.lower template) ≡ false
    pub no_datamark : contains datamark_prefix template ≡ false
    pub no_fence : (contains (codes "```") template || contains (codes "~~~") template) ≡ false
    pub slots :
        (before raw after : Text)
        → template ≡ before ++ (b'{' ∷ (raw ++ (b'}' ∷ after)))
        → has_brace raw ≡ false
        → IsPermitted raw

  in_bounds : (n m : ℕ) → ltb m n ≡ false → n ≤ m
  in_bounds n m h = ground arith

  errors-IsHarmless :
      (template : Text)
      → template_errors u is_alpha nfkc allowed_slots template ≡ []
      → IsHarmless template
  unfolding template_errors
  errors-IsHarmless template h =
      let a = (append-none (error_if (ltb max_template_chars (length template)) _) _).0 h in
      let b = (append-none (error_if (any (is_hidden_codepoint u) template) _) _).0 a.1 in
      let c = (append-none (error_if (has_homoglyph u is_alpha nfkc template) _) _).0 b.1 in
      let d = (append-none (find_marker role_markers (u.lower template)) _).0 c.1 in
      let e = (append-none (error_if (contains datamark_prefix template) _) _).0 d.1 in
      let f =
        (append-none
            (error_if (contains (codes "```") template || contains (codes "~~~") template)
              code_fence)
            _).0
          e.1 in
      record {
        short = in_bounds _ _ (no_error _ _ a.0);
        visible = any-none (is_hidden_codepoint u) template (no_error _ _ b.0);
        plain = no_error _ _ c.0;
        no_role = no_marker role_markers (u.lower template) d.0;
        no_datamark = no_error _ _ e.0;
        no_fence = no_error _ _ f.0;
        slots = λ before raw after t k. all-IsPermitted (placeholders none template) f.1 raw (
            subst (λ s. Memᴰ raw (placeholders none s)) (sym t)
              (placeholder_found before none raw after k));
      }

  -- A template that is accepted is no longer than the limit and holds no hidden character, no letter
  -- that folds to ASCII, no role marker, no data delimiter and no fence; and every text without braces
  -- that stands between braces in it names an allowed slot and reaches nothing inside it.
  pub lint_template-IsHarmless :
      (template : Text)
      → (lint_template u is_alpha nfkc allowed_slots template).errors ≡ []
      → IsHarmless template
  unfolding lint_template
  lint_template-IsHarmless template h =
      elim (Bool-cases (is_empty template || is_empty (strip u template))) [
        | inl blank ↦ cc (h, blank)
        | inr full ↦ errors-IsHarmless template (filled _ _ _ full h)
      ]
    where
      filled :
          (r s : TemplateLintResult) (b : Bool)
          → b ≡ false
          → (if b then r else s).errors ≡ []
          → s.errors ≡ []
      filled r s true e k = cc
      filled r s false e k = k
