-- ===== src/Examples/Grounding.antt =====
-- The theorems on cleaning and grounding, on concrete values.
use local_content_processor.Prelude.{◌≡◌, ◌↔◌, refl, none, [], ◌∷◌}
use local_content_processor.Prelude.Texts.{Text, codes, ascii}
use local_content_processor.Core.Clean.{is_hidden_codepoint, is_kept, sanitize_source}
use local_content_processor.Core.Draft.{Draft, empty_draft}
use local_content_processor.Core.Grounding.{
  pass, quote, failed, sentences, split_claims, claim_test, bad_quotes, bad_claims,
  verify_grounding,
}
use local_content_processor.Core.Grounding.Verdict.{IsSupported, verify_grounding_iff}

-- A zero width space is dropped, a newline stays.
cleaned : sanitize_source ascii (b'a' ∷ 8203 ∷ 10 ∷ b'b' ∷ []) ≡ b'a' ∷ 10 ∷ b'b' ∷ []
unfolding sanitize_source is_kept is_hidden_codepoint
cleaned = refl

abbrev source : Text
source = codes "The mayor opened the bridge on Monday."

abbrev article : Draft
article = record empty_draft {
  event_body = codes "The mayor opened the bridge. Nobody was hurt at all!";
  quotes = record { text = codes "opened the bridge"; note = none } ∷ [];
}

-- The sentences end at the exclamation mark, not at the full stop of ASCII.
one_claim :
    split_claims ascii article ≡ codes "The mayor opened the bridge. Nobody was hurt at all" ∷ []
unfolding split_claims sentences
one_claim = refl

abbrev faked : Draft
faked = record empty_draft { quotes = record { text = codes "closed"; note = none } ∷ [] }

caught :
    (verify_grounding ascii faked source none).ungrounded_claims
    ≡ failed quote (codes "closed") ∷ []
unfolding verify_grounding sanitize_source is_kept is_hidden_codepoint bad_quotes bad_claims
    split_claims sentences claim_test
caught = refl

verify_grounding_iff_example :
    ((verify_grounding ascii article source none).status ≡ pass)
    ↔ IsSupported ascii article source none
verify_grounding_iff_example = verify_grounding_iff ascii article source none
