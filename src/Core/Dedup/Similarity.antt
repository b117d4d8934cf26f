-- ===== src/Core/Dedup/Similarity.antt =====
-- The bounds of the similarity of dedup_rules.py.
use local_content_processor.Prelude.{ℕ, ◌≤◌, ◌<◌, Bool, List, [], ◌∷◌, length, keep, arith}
use local_content_processor.Prelude.Texts.{Text, Unicode, text_mem}
use local_content_processor.Core.Dedup.{
  shingles, intersection_size, union_size, fraction, exact_jaccard,
}

length-keep {ℓ} : {A : Type ℓ} (p : A → Bool) (xs : List A) → length (keep p xs) ≤ length xs
length-keep p [] = omega arith
length-keep p (x ∷ xs) = ground (arith, length-keep p xs)

fraction-bounds :
    (u : Unicode) (sa sb : List Text)
    → ((fraction u sa sb).0 ≤ (fraction u sa sb).1) × (0 < (fraction u sa sb).1)
unfolding intersection_size union_size
fraction-bounds u [] [] = (omega arith, omega arith)
fraction-bounds u [] (b ∷ sb) = (omega arith, omega arith)
fraction-bounds u (a ∷ sa) [] = (omega arith, omega arith)
fraction-bounds u (a ∷ sa) (b ∷ sb) =
    (omega (arith, length-keep (λ s. text_mem s (b ∷ sb)) (a ∷ sa)), omega arith)

-- A similarity is a fraction of 0 to 1, and its denominator is not 0.
pub exact_jaccard-bounds :
    (u : Unicode) (a b : Text) (k : ℕ)
    → ((exact_jaccard u a b k).0 ≤ (exact_jaccard u a b k).1) × (0 < (exact_jaccard u a b k).1)
unfolding exact_jaccard
exact_jaccard-bounds u a b k = fraction-bounds u (shingles u a k) (shingles u b k)
