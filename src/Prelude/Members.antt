-- ===== src/Prelude/Members.antt =====
-- What is in a list that is built by a test or by a function.
use mathlib.Core.Path.{◌≡◌, refl, sym, ap, ◌∙◌, subst}
use mathlib.Core.Logic.{◌↔◌, inl, inr}
use mathlib.Core.Bool.{Bool, true, false}
use mathlib.Core.List.{List, [], ◌∷◌, ◌++◌, map, Memᴰ}
use mathlib.Core.List.Memᴰ
use local_content_processor.Prelude.Tests.{Bool-cases, and-eq-true}
use local_content_processor.Prelude.Lists.{keep, all}

module _ {ℓ} {A : Type ℓ} (p : A → Bool) where
  keep-yes : (y : A) (ys : List A) → p y ≡ true → keep p (y ∷ ys) ≡ y ∷ keep p ys
  keep-yes y ys e = rw e

  keep-no : (y : A) (ys : List A) → p y ≡ false → keep p (y ∷ ys) ≡ keep p ys
  keep-no y ys e = rw e

  -- What is in the kept part is in the list, and passes the test.
  pub kept : {x : A} (xs : List A) → Memᴰ x (keep p xs) → Memᴰ x xs × (p x ≡ true)
  kept [] m = absurd (Memᴰ.not-nil m)
  kept {x} (y ∷ ys) m = elim (Bool-cases (p y)) [
    | inl e ↦ elim (Memᴰ.cases_cons (subst (λ l. Memᴰ x l) (keep-yes y ys e) m)) [
      | inl here ↦ (Memᴰ.head here, ap p here ∙ e)
      | inr there ↦ let r = kept ys there in (Memᴰ.tail r.0, r.1)
    ]
    | inr e ↦ let r = kept ys (subst (λ l. Memᴰ x l) (keep-no y ys e) m) in (Memᴰ.tail r.0, r.1)
  ]

  -- What is in a list and passes the test is kept.
  pub keep_mem : {x : A} (xs : List A) → p x ≡ true → Memᴰ x xs → Memᴰ x (keep p xs)
  keep_mem [] e m = absurd (Memᴰ.not-nil m)
  keep_mem {x} (y ∷ ys) e m = elim (Memᴰ.cases_cons m) [
    | inl here ↦ subst (λ l. Memᴰ x l) (sym (keep-yes y ys (ap p (sym here) ∙ e))) (Memᴰ.head here)
    | inr there ↦ elim (Bool-cases (p y)) [
      | inl t ↦ subst (λ l. Memᴰ x l) (sym (keep-yes y ys t)) (Memᴰ.tail (keep_mem ys e there))
      | inr f ↦ subst (λ l. Memᴰ x l) (sym (keep-no y ys f)) (keep_mem ys e there)
    ]
  ]

  none_in : (xs : List A) → xs ≡ [] → (x : A) → Memᴰ x xs → ⊥
  none_in xs h x m = Memᴰ.not-nil (subst (λ l. Memᴰ x l) h m)

  none_of : (xs : List A) → ((x : A) → Memᴰ x xs → ⊥) → xs ≡ []
  none_of [] h = refl
  none_of (y ∷ ys) h = absurd (h y (Memᴰ.head refl))

  -- Nothing is kept where the test fails on all.
  pub keep-none : (xs : List A) → (keep p xs ≡ []) ↔ ((x : A) → Memᴰ x xs → p x ≡ false)
  keep-none xs = (
    (λ h x m. elim (Bool-cases (p x)) [
      | inl t ↦ absurd (none_in (keep p xs) h x (keep_mem xs t m))
      | inr f ↦ f
    ]),
    (λ h. none_of (keep p xs) (λ x m. let r = kept xs m in cc (h x r.0, r.1))),
  )

  -- A test holds of all members.
  pub all_iff : (xs : List A) → (all p xs ≡ true) ↔ ((x : A) → Memᴰ x xs → p x ≡ true)
  all_iff [] = ((λ h x m. absurd (Memᴰ.not-nil m)), (λ h. refl))
  all_iff (y ∷ ys) = (
    (λ h x m.
        let both = and-eq-true (p y) (all p ys) h in
        elim (Memᴰ.cases_cons m) [
          | inl here ↦ ap p here ∙ both.0
          | inr there ↦ (all_iff ys).0 both.1 x there
        ]),
    (λ h. rw (h y (Memᴰ.head refl), (all_iff ys).1 (λ x m. h x (Memᴰ.tail m)))),
  )

module _ {ℓ ℓ'} {A : Type ℓ} {B : Type ℓ'} (f : A → B) where
  pub map_mem : {x : A} (xs : List A) → Memᴰ x xs → Memᴰ (f x) (map f xs)
  map_mem [] m = absurd (Memᴰ.not-nil m)
  map_mem (y ∷ ys) m = elim (Memᴰ.cases_cons m) [
    | inl here ↦ Memᴰ.head (ap f here)
    | inr there ↦ Memᴰ.tail (map_mem ys there)
  ]

  -- What is in the image is the image of a member.
  pub mem_map : {y : B} (xs : List A) → Memᴰ y (map f xs) → (x : A) × Memᴰ x xs × (y ≡ f x)
  mem_map [] m = absurd (Memᴰ.not-nil m)
  mem_map (x ∷ xs) m = elim (Memᴰ.cases_cons m) [
    | inl here ↦ (x, Memᴰ.head refl, here)
    | inr there ↦ let r = mem_map xs there in (r.0, Memᴰ.tail r.1, r.2)
  ]

  pub map-none : (xs : List A) → (map f xs ≡ []) ↔ (xs ≡ [])
  map-none [] = ((λ h. refl), (λ h. refl))
  map-none (x ∷ xs) = ((λ h. cc), (λ h. cc))

module _ {ℓ} {A : Type ℓ} where
  pub append-none : (xs ys : List A) → (xs ++ ys ≡ []) ↔ ((xs ≡ []) × (ys ≡ []))
  append-none [] ys = ((λ h. (refl, h)), (λ h. h.1))
  append-none (x ∷ xs) ys = ((λ h. cc), (λ h. cc))
