-- ===== src/Storage/Audit/Chain/Tampering.antt =====
-- What a change of the log needs to go unseen by `verify_chain` of audit_log.py.
use local_content_processor.Prelude.{
  ℕ, String, ◌≡◌, ◌≢◌, refl, sym, ap, ap₂, ◌∙◌, true, List, [], ◌∷◌, ◌++◌, ◌⊎◌, inl, inr, length,
  subst, arith, ℕ_discrete,
}
use local_content_processor.Prelude.Texts.{Text, codes}
use local_content_processor.Core.Errors.{Result, ok, Result-cases}
use local_content_processor.Storage.Json.{Obj}
use local_content_processor.Storage.World.{Host, Line, object, torn}
use local_content_processor.Storage.Audit.{
  genesis_hash, line_hash, payload, tail, iter_events, read_lines, verify_chain,
}
use local_content_processor.Storage.Audit.Chain.{end_hash, tail-decoded, verify_chain-objects}

-- What the log relies on of SHA-256: its hexadecimal digest has 64 digits.
pub record HashLaws (host : Host) : Type 0 where
  pub digits : (t : Text) → length (codes (host.sha256 t)) ≡ 64

-- The texts whose hashes the lines of a chain hold: the link, and the canonical text of the payload.
abbrev pub hashed : Host → String → List Obj → List Text
hashed host h [] = []
hashed host h (o ∷ os) =
    (codes h ++ host.canonical (payload o)) ∷ hashed host (line_hash host h (payload o)) os

-- At some place, the two lists hold two different texts with one hash.
pub data Collides (host : Host) : List Text → List Text → Type 0 where
  here :
      {p q : Text} {ps qs : List Text}
      → p ≢ q
      → codes (host.sha256 p) ≡ codes (host.sha256 q)
      → Collides host (p ∷ ps) (q ∷ qs)
  there : {p q : Text} {ps qs : List Text} → Collides host ps qs → Collides host (p ∷ ps) (q ∷ qs)

Text-discrete : Discrete Text
Text-discrete = hlevel ℕ_discrete

append-left : (a b c d : Text) → length a ≡ length b → a ++ c ≡ b ++ d → a ≡ b
append-left [] [] c d l e = refl
append-left [] (y ∷ b) c d l e = absurd (omega (arith, l))
append-left (x ∷ a) [] c d l e = absurd (omega (arith, l))
append-left (x ∷ a) (y ∷ b) c d l e =
    let rest = append-left a b c d (omega (arith, l)) (cc e) in cc (e, rest)

-- The chains of the two logs hash the same texts, or collide.
abbrev pub SameOrCollides : Host → List Obj → List Obj → Type 0
SameOrCollides host os ps =
    (hashed host genesis_hash os ≡ hashed host genesis_hash ps)
    ⊎ Collides host (hashed host genesis_hash os) (hashed host genesis_hash ps)

iter_events-read_lines :
    (lines : List Line) (os : List Obj) → read_lines lines ≡ ok os → iter_events lines ≡ os
unfolding read_lines iter_events
iter_events-read_lines [] os r = cc r
iter_events-read_lines (torn ∷ lines) os r = cc r
iter_events-read_lines (object o ∷ lines) os r = elim (Result-cases (read_lines lines)) [
  | inl (qs, e) ↦ ground (arith, iter_events-read_lines lines qs e)
  | inr (x, e) ↦ ground arith
]

next_equal :
    (n m : ℕ) (g h : String)
    → ◌≡◌ {A = Result (ℕ × String)} (ok (n, g)) (ok (m, h))
    → (n ≡ m) × (g ≡ h)
next_equal n m g h e = (cc e, cc e)

module _ (host : Host) (laws : HashLaws host) where
  -- Two chains of one length that end in one hash.
  same_end :
      (g h : String) (xs ys : List Obj)
      → length (codes g) ≡ length (codes h)
      → length xs ≡ length ys
      → codes (end_hash host g xs) ≡ codes (end_hash host h ys)
      → ((codes g ≡ codes h) × (hashed host g xs ≡ hashed host h ys))
        ⊎ Collides host (hashed host g xs) (hashed host h ys)
  unfolding end_hash line_hash
  same_end g h [] [] n l e = inl (e, refl)
  same_end g h [] (y ∷ ys) n l e = absurd (omega (arith, l))
  same_end g h (x ∷ xs) [] n l e = absurd (omega (arith, l))
  same_end g h (x ∷ xs) (y ∷ ys) n l e =
      let p = codes g ++ host.canonical (payload x) in
      let q = codes h ++ host.canonical (payload y) in
      elim (same_end (host.sha256 p) (host.sha256 q) xs ys (laws.digits p ∙ sym (laws.digits q))
        (omega (arith, l)) e) [
          | inr c ↦ inr (Collides.there c)
          | inl (same_hash, tails) ↦ elim (Text-discrete p q) [
            | yes same ↦ inl (append-left _ _ _ _ n same, ap₂ ◌∷◌ same tails)
            | no other ↦ inr (Collides.here other same_hash)
          ]
        ]

  -- Two logs that both verify, and whose last lines hand the same number and the same hash to the
  -- next event, have hashed the same texts line by line, or else, at some line, the two logs have
  -- hashed two different texts to one SHA-256 digest.
  pub tampering_collides :
      (xs ys : List Line)
      → verify_chain host xs ≡ ok true
      → verify_chain host ys ≡ ok true
      → tail xs ≡ tail ys
      → SameOrCollides host (iter_events xs) (iter_events ys)
  tampering_collides xs ys v w t =
      let (os, r, l) = verify_chain-objects host xs v in
      let (ps, q, m) = verify_chain-objects host ys w in
      let same =
        next_equal _ _ _ _ (sym (tail-decoded host xs os r l) ∙ t ∙ tail-decoded host ys ps q m) in
      carry os ps _ _ (sym (iter_events-read_lines xs os r)) (sym (iter_events-read_lines ys ps q))
        (elim (same_end genesis_hash genesis_hash os ps refl same.0 (ap codes same.1)) [
          | inl agree ↦ inl agree.1
          | inr c ↦ inr c
        ])
    where
      carry :
          (os ps os' ps' : List Obj)
          → os ≡ os'
          → ps ≡ ps'
          → SameOrCollides host os ps
          → SameOrCollides host os' ps'
      carry os ps os' ps' e f h =
          subst (λ zs. SameOrCollides host os' zs) f (subst (λ zs. SameOrCollides host zs ps) e h)
