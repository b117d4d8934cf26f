-- ===== src/Core/Risk/Verdict.antt =====
-- When risk_rules.py blocks, and when it passes.
use local_content_processor.Prelude.{
  ◌≡◌, ◌↔◌, refl, sym, ◌∙◌, Bool, true, false, not, ◌||◌, Option, List, [], ◌∷◌, ◌++◌, any, arith,
  Bool-cases, inl, inr,
}
use local_content_processor.Prelude.Texts.{Text, Unicode}
use local_content_processor.Core.Risk.{
  RiskCategory, category_mem, redline_categories, pass, blocked, RiskFlag, RiskInput, RiskDetector,
  KeywordRiskDetector, haystack_of, mentions, redline_flags, footgun_flags, source_flags,
  detect_keywords, keyword_detector, is_redline, is_daily, is_restricted, judge, assess_risk,
}

any-append {ℓ} :
    {A : Type ℓ} (p : A → Bool) (xs ys : List A) → any p (xs ++ ys) ≡ (any p xs || any p ys)
any-append p [] ys = refl
any-append p (x ∷ xs) ys = ground (arith, any-append p xs ys)

neither : (a b : Bool) → (a || not b) ≡ false → (a ≡ false) × (b ≡ true)
neither a b h = ground arith

none_of_three : (a b c : Bool) → (a || (b || c)) ≡ false → (a ≡ false) × ((b ≡ false) × (c ≡ false))
none_of_three a b c h = ground arith

abbrev pub is_unsure : RiskFlag → Bool
is_unsure f = not f.confident

module _ (flags : List RiskFlag) (a r : Bool) where
  judge-blocked :
      ((judge flags a r).status ≡ blocked) ↔ ((a ≡ true) × (any is_redline flags ≡ true))
  unfolding judge
  judge-blocked = ((λ h. ground arith), (λ h. ground arith))

  judge-pass : ((judge flags a r).status ≡ pass) ↔ (
      (a ≡ true)
      × ((any is_redline flags ≡ false)
          × ((any is_daily flags ≡ false) × ((any is_unsure flags ≡ false) × (r ≡ false)))))
  unfolding judge
  judge-pass = ((λ h. ground arith), (λ h. ground arith))

module _ (u : Unicode) where
  -- The gate blocks an input exactly if the detector could run and raised a flag of a redline
  -- category, and passes it exactly if the detector could run, raised no such flag, no flag of a
  -- daily check and none it is unsure of, and the restricted category is absent or switched on.
  pub assess_risk_lem :
      (i : RiskInput) (det : RiskDetector) (enabled : Option (List RiskCategory))
      → (((assess_risk u i det enabled).status ≡ blocked) ↔ (
          ((det.detect i (haystack_of u i)).1 ≡ true)
          × (any is_redline (det.detect i (haystack_of u i)).0 ≡ true)))
        × (((assess_risk u i det enabled).status ≡ pass) ↔ (
            ((det.detect i (haystack_of u i)).1 ≡ true)
            × ((any is_redline (det.detect i (haystack_of u i)).0 ≡ false)
                × ((any is_daily (det.detect i (haystack_of u i)).0 ≡ false)
                    × ((any is_unsure (det.detect i (haystack_of u i)).0 ≡ false)
                        × (is_restricted u det enabled i ≡ false))))))
  unfolding assess_risk
  assess_risk_lem i det enabled = (judge-blocked _ _ _, judge-pass _ _ _)

  -- Whether a word of a dictionary of keywords occurs.
  abbrev pub any_word : List (RiskCategory × List Text) → Text → Bool
  any_word [] haystack = false
  any_word ((c, words) ∷ rest) haystack = mentions u words haystack || any_word rest haystack

  redline_flags-redline :
      (hay : Text) (l : List (RiskCategory × List Text))
      → any (λ e. not (category_mem e.0 redline_categories)) l ≡ false
      → any is_redline (redline_flags u hay l) ≡ any_word l hay
  unfolding redline_flags
  redline_flags-redline hay [] h = refl
  redline_flags-redline hay ((c, words) ∷ l) h = ground (arith, redline_flags-redline hay l)

  redline_flags-none :
      (hay : Text) (l : List (RiskCategory × List Text))
      → any_word l hay ≡ false
      → redline_flags u hay l ≡ []
  unfolding redline_flags
  redline_flags-none hay [] h = refl
  redline_flags-none hay ((c, words) ∷ l) h = ground (arith, redline_flags-none hay l)

  footgun_flags-redline :
      (hay : Text) (cs : List RiskCategory) (l : List (RiskCategory × List Text))
      → any is_redline (footgun_flags u hay cs l) ≡ false
  unfolding footgun_flags
  footgun_flags-redline hay cs [] = refl
  footgun_flags-redline hay cs ((c, words) ∷ l) = ground (arith, footgun_flags-redline hay cs l)

  footgun_flags-daily :
      (hay : Text) (l : List (RiskCategory × List Text))
      → (any is_daily (footgun_flags u hay [] l) ≡ any_word l hay)
        × (any is_unsure (footgun_flags u hay [] l) ≡ any_word l hay)
  unfolding footgun_flags
  footgun_flags-daily hay [] = (refl, refl)
  footgun_flags-daily hay ((c, words) ∷ l) = ground (arith, footgun_flags-daily hay l)

module _ (u : Unicode) (k : KeywordRiskDetector) (i : RiskInput) (hay : Text) where
  detected-redline :
      any (λ e. not (category_mem e.0 redline_categories)) k.redline_keywords ≡ false
      → i.available ≡ true
      → any is_redline (detect_keywords u k i hay).0
        ≡ (any_word u k.redline_keywords hay || not i.has_source)
  unfolding detect_keywords source_flags
  detected-redline proper here =
      rw
        (
          here,
          any-append,
          redline_flags-redline u hay k.redline_keywords proper,
          any-append,
          footgun_flags-redline,
        )
        (ground arith)

  detected-daily :
      any_word u k.redline_keywords hay ≡ false
      → i.available ≡ true
      → i.has_source ≡ true
      → any is_daily (detect_keywords u k i hay).0 ≡ (
          any_word u k.footgun_keywords hay
          || (mentions u k.defamation_keywords hay || mentions u k.pii_keywords hay))
  unfolding detect_keywords source_flags
  detected-daily clear here sourced =
      rw
        (
          here,
          sourced,
          redline_flags-none u hay k.redline_keywords clear,
          any-append is_daily (footgun_flags u hay [] k.footgun_keywords),
          (footgun_flags-daily u hay k.footgun_keywords).0,
        )
        (ground arith)

  detected-unsure :
      any_word u k.redline_keywords hay ≡ false
      → i.available ≡ true
      → i.has_source ≡ true
      → any is_unsure (detect_keywords u k i hay).0 ≡ any_word u k.footgun_keywords hay
  unfolding detect_keywords source_flags
  detected-unsure clear here sourced =
      rw
        (
          here,
          sourced,
          redline_flags-none u hay k.redline_keywords clear,
          any-append is_unsure (footgun_flags u hay [] k.footgun_keywords),
          (footgun_flags-daily u hay k.footgun_keywords).1,
        )
        (ground arith)

module _ (u : Unicode) (k : KeywordRiskDetector) (i : RiskInput)
    (enabled : Option (List RiskCategory)) where
  -- What the baseline must not find for an input to pass: no keyword of a redline, no ambiguous
  -- token, no accusation, no private data, and no restricted category that is switched off.
  pub record IsClear : Type 0 where
    pub able : i.available ≡ true
    pub sourced : i.has_source ≡ true
    pub no_redline : any_word u k.redline_keywords (haystack_of u i) ≡ false
    pub no_footgun : any_word u k.footgun_keywords (haystack_of u i) ≡ false
    pub no_accusation : mentions u k.defamation_keywords (haystack_of u i) ≡ false
    pub no_private_data : mentions u k.pii_keywords (haystack_of u i) ≡ false
    pub not_restricted : is_restricted u (keyword_detector u k) enabled i ≡ false

  unavailable : i.available ≡ false → (detect_keywords u k i (haystack_of u i)).1 ≡ false
  unfolding detect_keywords
  unavailable h = rw h

  available : i.available ≡ true → (detect_keywords u k i (haystack_of u i)).1 ≡ true
  unfolding detect_keywords
  available h = rw h

  able_if : (detect_keywords u k i (haystack_of u i)).1 ≡ true → i.available ≡ true
  able_if h = elim (Bool-cases i.available) [ inl e ↦ e | inr e ↦ ground (arith, unavailable e) ]

  clear_of_pass :
      any (λ e. not (category_mem e.0 redline_categories)) k.redline_keywords ≡ false
      → (assess_risk u i (keyword_detector u k) enabled).status ≡ pass
      → IsClear
  clear_of_pass proper h =
      let (ran, (red, (daily, (unsure, open_category)))) =
        (assess_risk_lem u i (keyword_detector u k) enabled).1.0 h in
      let able = able_if ran in
      let (quiet, sourced) =
        neither _ _ (sym (detected-redline u k i (haystack_of u i) proper able) ∙ red) in
      let (footgun, (accusation, pii)) =
        none_of_three _ _ _
          (sym (detected-daily u k i (haystack_of u i) quiet able sourced) ∙ daily) in
      record {
        able = able;
        sourced = sourced;
        no_redline = quiet;
        no_footgun = footgun;
        no_accusation = accusation;
        no_private_data = pii;
        not_restricted = open_category;
      }

  pass_of_clear :
      any (λ e. not (category_mem e.0 redline_categories)) k.redline_keywords ≡ false
      → IsClear
      → (assess_risk u i (keyword_detector u k) enabled).status ≡ pass
  pass_of_clear proper c =
      let hay = haystack_of u i in
      (assess_risk_lem u i (keyword_detector u k) enabled).1.1 (
        available c.able,
        (
          rw (detected-redline u k i hay proper c.able, c.no_redline, c.sourced),
          (
            rw (
              detected-daily u k i hay c.no_redline c.able c.sourced,
              c.no_footgun,
              c.no_accusation,
              c.no_private_data,
            ),
            (
              rw (detected-unsure u k i hay c.no_redline c.able c.sourced, c.no_footgun),
              c.not_restricted,
            ),
          ),
        ),
      )

  -- With the keyword baseline, whose redline keywords all stand under redline categories, an input
  -- passes exactly if the detector could run, there is a source, no word of any of its lists occurs,
  -- and no restricted category that is switched off is mentioned.
  pub keyword_pass_iff :
      any (λ e. not (category_mem e.0 redline_categories)) k.redline_keywords ≡ false
      → ((assess_risk u i (keyword_detector u k) enabled).status ≡ pass) ↔ IsClear
  keyword_pass_iff proper = (clear_of_pass proper, pass_of_clear proper)

  -- With the same baseline, an input is blocked exactly if the detector could run and a redline
  -- keyword occurs or the source is missing: an ambiguous token alone never blocks.
  pub keyword_blocked_iff :
      any (λ e. not (category_mem e.0 redline_categories)) k.redline_keywords ≡ false
      → ((assess_risk u i (keyword_detector u k) enabled).status ≡ blocked) ↔ (
          (i.available ≡ true)
          × ((any_word u k.redline_keywords (haystack_of u i) || not i.has_source) ≡ true))
  keyword_blocked_iff proper =
      let red = detected-redline u k i (haystack_of u i) proper in
      let verdict = (assess_risk_lem u i (keyword_detector u k) enabled).0 in
      (
        (λ h. let (ran, flagged) = verdict.0 h in (able_if ran, sym (red (able_if ran)) ∙ flagged)),
        (λ h. verdict.1 (available h.0, red h.0 ∙ h.1)),
      )
