-- ===== src/Core/Lint/Verdict.antt =====
-- When a draft passes lint_rules.py: an independent description of an acceptable draft.
use local_content_processor.Prelude.{
  ℕ, ◌≤◌, ◌≡◌, ◌≢◌, ◌↔◌, refl, Bool, true, false, Option, none, some, List, [], ◌∷◌, ◌++◌, is_empty,
  length, arith, ltb, if◌then◌else◌, ◌&&◌, subst, sym, eq_of_some,
}
use local_content_processor.Prelude.Texts.{Text, Unicode, strip, text_mem}
use local_content_processor.Core.Draft.{Draft}
use local_content_processor.Core.Lint.{
  pass, Measured, title, intro_text, event_body_text, tags, category_of, LintError, LintConfig,
  when, in_range, blank, lint_title, lint_sections, lint_count, lint_summary, lint_fields,
  lint_media, hype_hits, lint_tags, lint_category, copied, is_excessive, lint_copy, status_of,
  lint_errors, lint_draft, paragraphs,
}

-- A number between two bounds.
abbrev pub Within : ℕ → ℕ → ℕ → Type 0
Within lo hi n = (lo ≤ n) × (n ≤ hi)

-- What a draft must be to pass, for a configuration, the paragraphs of the source, and whether the
-- bundle has videos and images.
pub record IsAcceptable (u : Unicode) (c : LintConfig) (source : List Text)
    (has_videos has_images : Bool) (d : Draft) : Type 0 where
  pub title_there : blank u d.title ≡ false
  pub title_fits : Within c.title_min_chars c.title_max_chars (length (strip u d.title))
  pub intro_there : blank u d.intro ≡ false
  pub intro_fits : Within c.intro_min_chars c.intro_max_chars (length (strip u d.intro))
  pub body_there : blank u d.event_body ≡ false
  pub body_fits :
      Within c.event_body_min_chars c.event_body_max_chars (length (strip u d.event_body))
  pub summary_there : blank u d.summary ≡ false
  pub summary_fits : length (strip u d.summary) ≤ c.summary_error_chars
  pub facts_there : d.quick_facts ≢ []
  pub facts_fit : Within c.quick_facts_min_count c.quick_facts_max_count (length d.quick_facts)
  pub faq_there : d.faq ≢ []
  pub faq_fits : Within c.faq_min_count c.faq_max_count (length d.faq)
  pub images_there : has_images ≡ true → d.image_sections ≢ []
  pub videos_there : has_videos ≡ true → d.video_sections ≢ []
  pub tags_fit : Within c.tag_min_count c.tag_max_count (length d.tags)
  pub tags_objective : hype_hits u c.hype_words d.tags ≡ []
  pub category_known :
      c.categories ≢ []
      → (t : Text) × (d.category ≡ some t) × (t ≢ []) × (text_mem t c.categories ≡ true)
  pub nothing_copied : copied u c (paragraphs u d.event_body) source ≡ []

append-eq-nil {ℓ} : {A : Type ℓ} (xs ys : List A) → (xs ++ ys ≡ []) ↔ ((xs ≡ []) × (ys ≡ []))
append-eq-nil [] ys = ((λ h. (refl, h)), (λ h. h.1))
append-eq-nil (x ∷ xs) ys = ((λ h. cc), (λ h. cc))

in_range-clean : (m : Measured) (lo hi n : ℕ) → (in_range m lo hi n ≡ []) ↔ Within lo hi n
in_range-clean m lo hi n = ground arith

required-clean :
    (b : Bool) (e : LintError) (m : Measured) (lo hi n : ℕ)
    → ((if b then e ∷ [] else in_range m lo hi n) ≡ []) ↔ ((b ≡ false) × Within lo hi n)
required-clean b e m lo hi n = ground arith

optional-clean :
    (b : Bool) (m : Measured) (lo hi n : ℕ)
    → ((if b then [] else in_range m lo hi n) ≡ []) ↔ (b ≡ false → Within lo hi n)
optional-clean true m lo hi n = ((λ h e. cc), (λ h. refl))
optional-clean false m lo hi n =
    ((λ h e. (in_range-clean m lo hi n).0 h), (λ h. (in_range-clean m lo hi n).1 (h refl)))

when-clean : (b : Bool) (e : LintError) → (when b e ≡ []) ↔ (b ≡ false)
when-clean b e = ground arith

is_empty_iff {ℓ} : {A : Type ℓ} (xs : List A) → (is_empty xs ≡ false) ↔ (xs ≢ [])
is_empty_iff [] = ((λ h. cc), (λ h. absurd (h refl)))
is_empty_iff (x ∷ xs) = ((λ h e. cc), (λ h. refl))

summary_test :
    (b : Bool) (n limit : ℕ) (e : LintError)
    → ((if b then [] else when (ltb limit n) e) ≡ []) ↔ (b ≡ false → n ≤ limit)
summary_test true n limit e = ((λ h x. cc), (λ h. refl))
summary_test false n limit e = ((λ h x. ground arith), (λ h. ground (arith, h refl)))

missing_test {ℓ} :
    {A : Type ℓ} (b : Bool) (xs : List A) (e : LintError)
    → (when (b && is_empty xs) e ≡ []) ↔ (b ≡ true → xs ≢ [])
missing_test true [] e = ((λ h. cc), (λ h. absurd (h refl refl)))
missing_test true (x ∷ xs) e = ((λ h p q. cc), (λ h. refl))
missing_test false xs e = ((λ h p. cc), (λ h. refl))

listed_test {ℓ} :
    {A B : Type ℓ} (xs : List A) (b : B) → ((if is_empty xs then [] else b ∷ []) ≡ []) ↔ (xs ≡ [])
listed_test [] b = ((λ h. refl), (λ h. refl))
listed_test (x ∷ xs) b = ((λ h. cc), (λ h. cc))

-- A concatenation is empty exactly if its parts are.
both-clean {ℓ} :
    {A : Type ℓ} {P Q : Type 0} (xs ys : List A)
    → (xs ≡ []) ↔ P
    → (ys ≡ []) ↔ Q
    → (xs ++ ys ≡ []) ↔ (P × Q)
both-clean xs ys p q = (
  (λ h. let (l, r) = (append-eq-nil xs ys).0 h in (p.0 l, q.0 r)),
  (λ h. (append-eq-nil xs ys).1 (p.1 h.0, q.1 h.1)),
)

pass_clean : (b : Bool) (es : List LintError) → status_of b es ≡ pass → es ≡ []
pass_clean b es h = ground arith

clean_pass : (b : Bool) (es : List LintError) → b ≡ false → es ≡ [] → status_of b es ≡ pass
clean_pass b es p q = ground arith

module _ (u : Unicode) (c : LintConfig) where
  title-clean :
      (t : Text)
      → (lint_title u c t ≡ [])
        ↔ ((blank u t ≡ false) × Within c.title_min_chars c.title_max_chars (length (strip u t)))
  unfolding lint_title
  title-clean t =
      required-clean (blank u t) _ title c.title_min_chars c.title_max_chars (length (strip u t))

  sections-clean :
      (d : Draft)
      → (lint_sections u d ≡ []) ↔ (
          (blank u d.intro ≡ false)
          × ((is_empty d.quick_facts ≡ false)
              × ((blank u d.event_body ≡ false)
                  × ((is_empty d.faq ≡ false) × (blank u d.summary ≡ false)))))
  unfolding lint_sections
  sections-clean d = both-clean _ _ (when-clean (blank u d.intro) _) (
      both-clean _ _ (when-clean (is_empty d.quick_facts) _) (
        both-clean _ _ (when-clean (blank u d.event_body) _)
          (both-clean _ _ (when-clean (is_empty d.faq) _) (when-clean (blank u d.summary) _))))

  count-clean :
      {A : Type 0} (m : Measured) (lo hi : ℕ) (xs : List A)
      → (lint_count u m lo hi xs ≡ []) ↔ (xs ≢ [] → Within lo hi (length xs))
  count-clean m lo hi [] = ((λ h n. absurd (n refl)), (λ h. refl))
  count-clean m lo hi (x ∷ xs) = (
    (λ h n. (in_range-clean m lo hi (length (x ∷ xs))).0 h),
    (λ h. (in_range-clean m lo hi (length (x ∷ xs))).1 (h (λ e. cc))),
  )

  summary-clean :
      (t : Text)
      → (lint_summary u c t ≡ []) ↔ (blank u t ≡ false → length (strip u t) ≤ c.summary_error_chars)
  summary-clean t = summary_test (blank u t) (length (strip u t)) c.summary_error_chars _

  media-clean :
      (has_videos has_images : Bool) (d : Draft)
      → (lint_media u has_videos has_images d ≡ []) ↔ (
          (has_images ≡ true → d.image_sections ≢ []) × (has_videos ≡ true → d.video_sections ≢ []))
  unfolding lint_media
  media-clean has_videos has_images d =
      both-clean _ _ (missing_test has_images d.image_sections _)
        (missing_test has_videos d.video_sections _)

  tags-clean :
      (ts : List Text)
      → (lint_tags u c ts ≡ [])
        ↔ (Within c.tag_min_count c.tag_max_count (length ts) × (hype_hits u c.hype_words ts ≡ []))
  unfolding lint_tags
  tags-clean ts =
      both-clean _ _ (in_range-clean tags c.tag_min_count c.tag_max_count (length ts))
        (listed_test (hype_hits u c.hype_words ts) _)

  known_test :
      (names : List Text) (o : Option Text)
      → (category_of u names o ≡ [])
        ↔ ((t : Text) × (o ≡ some t) × (t ≢ []) × (text_mem t names ≡ true))
  known_test names none = ((λ h. cc), (λ h. ground (arith, h.1)))
  known_test names (some []) = ((λ h. cc), (λ h. absurd (h.2 (sym (eq_of_some _ _ h.1)))))
  known_test names (some (x ∷ t)) = (
    (λ h. (x ∷ t, refl, (λ e. cc), ground arith)),
    (λ h. rw (subst (λ s. text_mem s names ≡ true) (sym (eq_of_some _ _ h.1)) h.3)),
  )

  category_test :
      (names : List Text) (o : Option Text)
      → ((if is_empty names then [] else category_of u names o) ≡ [])
        ↔ (names ≢ [] → (t : Text) × (o ≡ some t) × (t ≢ []) × (text_mem t names ≡ true))
  category_test [] o = ((λ h n. absurd (n refl)), (λ h. refl))
  category_test (n ∷ names) o =
      ((λ h x. (known_test (n ∷ names) o).0 h), (λ h. (known_test (n ∷ names) o).1 (h (λ e. cc))))

  category-clean :
      (o : Option Text)
      → (lint_category u c o ≡ []) ↔ (
          c.categories ≢ []
          → (t : Text) × (o ≡ some t) × (t ≢ []) × (text_mem t c.categories ≡ true))
  unfolding lint_category
  category-clean o = category_test c.categories o

  copy_test :
      (found : List Text) (b : Bool) (x y : LintError)
      → ((if is_empty found then [] else if b then x ∷ [] else y ∷ []) ≡ []) ↔ (found ≡ [])
  copy_test [] b x y = ((λ h. refl), (λ h. refl))
  copy_test (t ∷ found) b x y = ((λ h. ground arith), (λ h. cc))

  copy-clean :
      (body source : List Text) → (lint_copy u c body source ≡ []) ↔ (copied u c body source ≡ [])
  unfolding lint_copy
  copy-clean body source = copy_test (copied u c body source) (is_excessive u c body source) _ _

  fields-clean :
      (d : Draft)
      → (lint_fields u c d ≡ []) ↔ (
          (blank u d.intro ≡ false
            → Within c.intro_min_chars c.intro_max_chars (length (strip u d.intro)))
          × ((blank u d.event_body ≡ false
                → Within c.event_body_min_chars c.event_body_max_chars
                    (length (strip u d.event_body)))
              × ((blank u d.summary ≡ false → length (strip u d.summary) ≤ c.summary_error_chars)
                  × ((d.faq ≢ [] → Within c.faq_min_count c.faq_max_count (length d.faq))
                      × (d.quick_facts ≢ []
                          → Within c.quick_facts_min_count c.quick_facts_max_count
                              (length d.quick_facts))))))
  unfolding lint_fields
  fields-clean d = both-clean _ _ (optional-clean (blank u d.intro) intro_text _ _ _) (
      both-clean _ _ (optional-clean (blank u d.event_body) event_body_text _ _ _) (
        both-clean _ _ (summary-clean d.summary)
          (both-clean _ _ (count-clean _ _ _ d.faq) (count-clean _ _ _ d.quick_facts))))

  -- The flag that blocks a draft comes with an error.
  excessive_has_error :
      (body source : List Text)
      → lint_copy u c body source ≡ []
      → is_excessive u c body source ≡ false
  unfolding is_excessive
  excessive_has_error body source h = rw ((copy-clean body source).0 h)

  module _ (source : List Text) (has_videos has_images : Bool) (d : Draft) where
    clean_accepted :
        lint_errors u c source has_videos has_images d ≡ []
        → IsAcceptable u c source has_videos has_images d
    unfolding lint_errors
    clean_accepted h =
        let (in_title, after_title) = (append-eq-nil _ _).0 h in
        let (in_sections, after_sections) = (append-eq-nil _ _).0 after_title in
        let (in_fields, after_fields) = (append-eq-nil _ _).0 after_sections in
        let (in_media, after_media) = (append-eq-nil _ _).0 after_fields in
        let (in_tags, after_tags) = (append-eq-nil _ _).0 after_media in
        let (in_category, in_copy) = (append-eq-nil _ _).0 after_tags in
        let found_title = (title-clean d.title).0 in_title in
        let there = (sections-clean d).0 in_sections in
        let fits = (fields-clean d).0 in_fields in
        let media = (media-clean has_videos has_images d).0 in_media in
        let found_tags = (tags-clean d.tags).0 in_tags in
        record {
          title_there = found_title.0;
          title_fits = found_title.1;
          intro_there = there.0;
          intro_fits = fits.0 there.0;
          body_there = there.1.1.0;
          body_fits = fits.1.0 there.1.1.0;
          summary_there = there.1.1.1.1;
          summary_fits = fits.1.1.0 there.1.1.1.1;
          facts_there = (is_empty_iff d.quick_facts).0 there.1.0;
          facts_fit = fits.1.1.1.1 ((is_empty_iff d.quick_facts).0 there.1.0);
          faq_there = (is_empty_iff d.faq).0 there.1.1.1.0;
          faq_fits = fits.1.1.1.0 ((is_empty_iff d.faq).0 there.1.1.1.0);
          images_there = media.0;
          videos_there = media.1;
          tags_fit = found_tags.0;
          tags_objective = found_tags.1;
          category_known = (category-clean d.category).0 in_category;
          nothing_copied = (copy-clean (paragraphs u d.event_body) source).0 in_copy;
        }

    accepted_clean :
        IsAcceptable u c source has_videos has_images d
        → lint_errors u c source has_videos has_images d ≡ []
    unfolding lint_errors
    accepted_clean a = join ((title-clean d.title).1 (a.title_there, a.title_fits)) (
        join
          ((sections-clean d).1 (
            a.intro_there,
            (
              (is_empty_iff d.quick_facts).1 a.facts_there,
              (a.body_there, ((is_empty_iff d.faq).1 a.faq_there, a.summary_there)),
            ),
          ))
          (join
            ((fields-clean d).1 (
              (λ e. a.intro_fits),
              (
                (λ e. a.body_fits),
                ((λ e. a.summary_fits), ((λ e. a.faq_fits), (λ e. a.facts_fit))),
              ),
            ))
            (join ((media-clean has_videos has_images d).1 (a.images_there, a.videos_there)) (
              join ((tags-clean d.tags).1 (a.tags_fit, a.tags_objective)) (
                join ((category-clean d.category).1 a.category_known)
                  ((copy-clean (paragraphs u d.event_body) source).1 a.nothing_copied))))))
      where
        join : {xs ys : List LintError} → xs ≡ [] → ys ≡ [] → xs ++ ys ≡ []
        join {xs} {ys} p q = (append-eq-nil xs ys).1 (p, q)

-- `lint_draft` passes a draft exactly if the draft is acceptable: title, intro, body and summary are
-- there and have lengths in range, the counts of facts, questions and tags are in range, images and
-- videos have their sections, no tag is hype, the category is one of the configured ones, and no
-- long paragraph of the source stands in the body.
pub lint_draft-pass_iff :
    (u : Unicode) (c : LintConfig) (source : List Text) (has_videos has_images : Bool) (d : Draft)
    → ((lint_draft u c source has_videos has_images d).status ≡ pass)
      ↔ IsAcceptable u c source has_videos has_images d
unfolding lint_draft
lint_draft-pass_iff u c source has_videos has_images d = (
  (λ h. clean_accepted u c source has_videos has_images d (pass_clean _ _ h)),
  (λ a.
      clean_pass _ _
        (excessive_has_error u c (paragraphs u d.event_body) source
          ((copy-clean u c (paragraphs u d.event_body) source).1 a.nothing_copied))
        (accepted_clean u c source has_videos has_images d a)),
)
