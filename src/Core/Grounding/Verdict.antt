-- ===== src/Core/Grounding/Verdict.antt =====
-- When a draft passes grounding.py: an independent description of a supported draft.
use local_content_processor.Prelude.{
  ◌≡◌, refl, sym, ◌∙◌, ◌↔◌, ◌⊎◌, inl, inr, Bool, true, false, not, Option, List, [], ◌∷◌, map,
  subst,
}
use local_content_processor.Prelude.Texts.{Text, Unicode}
use local_content_processor.Prelude.Members.{keep-none, map-none, append-none, map_mem, mem_map}
use local_content_processor.Prelude.Substrings.{IsSubstring, contains_iff}
use mathlib.Core.List.{Memᴰ}
use local_content_processor.Core.Draft.{Draft, SourceQuote}
use local_content_processor.Core.Clean.{sanitize_source}
use local_content_processor.Core.Grounding.{
  pass, GroundingStrategy, substring_overlap, custom, quote, claim, failed, bad_quote, claim_test,
  is_grounded, split_claims, strategy_of, judged, bad_quotes, bad_claims, verify_grounding,
  UngroundedClaim,
}

-- What the source supports: each quote that is not empty stands in the cleaned source word for word,
-- and the strategy finds each claim grounded in it.
pub record IsSupported (u : Unicode) (d : Draft) (source : Text)
    (strategy : Option GroundingStrategy) : Type 0 where
  pub quotes_verbatim :
      (q : SourceQuote)
      → Memᴰ q d.quotes
      → (q.text ≡ []) ⊎ IsSubstring q.text (sanitize_source u source)
  pub claims_grounded :
      (t : Text)
      → Memᴰ t (split_claims u d)
      → is_grounded u (strategy_of strategy) t (sanitize_source u source) ≡ true

when_kept : (b : Bool) → not b ≡ false → b ≡ true
when_kept true h = refl
when_kept false h = cc

quote_ok : (cleaned t : Text) → bad_quote cleaned t ≡ false → (t ≡ []) ⊎ IsSubstring t cleaned
quote_ok cleaned [] h = inl refl
quote_ok cleaned (c ∷ t) h = inr ((contains_iff (c ∷ t) cleaned).0 (when_kept _ h))

ok_quote : (cleaned t : Text) → (t ≡ []) ⊎ IsSubstring t cleaned → bad_quote cleaned t ≡ false
ok_quote cleaned [] h = refl
ok_quote cleaned (c ∷ t) (inl e) = cc e
ok_quote cleaned (c ∷ t) (inr h) = rw ((contains_iff (c ∷ t) cleaned).1 h)

judged_pass : (cs : List UngroundedClaim) → ((judged cs).status ≡ pass) ↔ (cs ≡ [])
judged_pass [] = ((λ h. refl), (λ h. refl))
judged_pass (c ∷ cs) = ((λ h. cc), (λ h. cc))

module _ (u : Unicode) where
  claim_test-is_grounded :
      (s : GroundingStrategy) (cleaned t : Text)
      → claim_test u s cleaned t ≡ is_grounded u s t cleaned
  unfolding claim_test is_grounded
  claim_test-is_grounded (substring_overlap num den) cleaned t = refl
  claim_test-is_grounded (custom f) cleaned t = refl

  bad_quotes-none :
      (d : Draft) (cleaned : Text)
      → (bad_quotes u d cleaned ≡ [])
        ↔ ((q : SourceQuote) → Memᴰ q d.quotes → (q.text ≡ []) ⊎ IsSubstring q.text cleaned)
  unfolding bad_quotes
  bad_quotes-none d cleaned =
      let all_fine = keep-none (bad_quote cleaned) (map (λ q. q.text) d.quotes) in
      (
        (λ h q m. quote_ok cleaned q.text (all_fine.0 h q.text (map_mem (λ q. q.text) d.quotes m))),
        (λ h. all_fine.1 (λ t m.
            let q = mem_map (λ q. q.text) d.quotes m in
            ok_quote cleaned t
              (subst (λ t. (t ≡ []) ⊎ IsSubstring t cleaned) (sym q.2) (h q.0 q.1)))),
      )

  bad_claims-none :
      (d : Draft) (cleaned : Text) (s : GroundingStrategy)
      → (bad_claims u d cleaned s ≡ [])
        ↔ ((t : Text) → Memᴰ t (split_claims u d) → is_grounded u s t cleaned ≡ true)
  unfolding bad_claims
  bad_claims-none d cleaned s =
      let all_fine = keep-none (λ t. not (claim_test u s cleaned t)) (split_claims u d) in
      (
        (λ h t m. sym (claim_test-is_grounded s cleaned t) ∙ when_kept _ (all_fine.0 h t m)),
        (λ h. all_fine.1 (λ t m. rw (claim_test-is_grounded s cleaned t, h t m))),
      )

  module _ (d : Draft) (source : Text) (strategy : Option GroundingStrategy) where
    -- A draft passes exactly where the source supports it: each quote that is not empty stands in the
    -- cleaned source word for word, and each claim is grounded in it by the strategy in use.
    pub verify_grounding_iff :
        ((verify_grounding u d source strategy).status ≡ pass) ↔ IsSupported u d source strategy
    unfolding verify_grounding
    verify_grounding_iff =
        let cleaned = sanitize_source u source in
        let s = strategy_of strategy in
        let both =
          append-none (map (failed quote) (bad_quotes u d cleaned))
            (map (failed claim) (bad_claims u d cleaned s)) in
        let quotes_fine = map-none (failed quote) (bad_quotes u d cleaned) in
        let claims_fine = map-none (failed claim) (bad_claims u d cleaned s) in
        (
          (λ h.
              let parts = both.0 ((judged_pass _).0 h) in
              record {
                quotes_verbatim = (bad_quotes-none d cleaned).0 (quotes_fine.0 parts.0);
                claims_grounded = (bad_claims-none d cleaned s).0 (claims_fine.0 parts.1);
              }),
          (λ h. (judged_pass _).1 (
              both.1 (
                quotes_fine.1 ((bad_quotes-none d cleaned).1 h.quotes_verbatim),
                claims_fine.1 ((bad_claims-none d cleaned s).1 h.claims_grounded),
              ))),
        )
