-- ===== src/Prelude/Dicts.antt =====
-- Python's dictionaries as their pairs in the order of insertion, for keys with a test of equality.
-- What an operation does to the keys depends on the keys alone.
use local_content_processor.Prelude.{
  suc, ◌≤◌, ◌≡◌, refl, sym, ap, ◌∙◌, Bool, true, false, Option, none, some, List, [], ◌∷◌, map, any,
  length, arith, if◌then◌else◌, is_some, Bool-cases, inl, inr, ◌⊎◌, eq_of_some, subst, Option-cases,
}
use mathlib.Core.List.{Memᴰ}
use mathlib.Core.List.Memᴰ

module _ {K V : Type 0} (same : K → K → Bool) where
  -- `d.get(k)`
  abbrev pub get : K → List (K × V) → Option V
  get k [] = none
  get k ((j, v) ∷ d) = let rest = get k d in if same j k then some v else rest

  -- `d[k] = v`: a key that is there keeps its place.
  abbrev pub put : K → V → List (K × V) → List (K × V)
  put k v [] = (k, v) ∷ []
  put k v ((j, x) ∷ d) = let rest = put k v d in if same j k then (j, v) ∷ d else (j, x) ∷ rest

  abbrev with_row : (K × V) → Option (List (K × V)) → Option (List (K × V))
  with_row r none = none
  with_row r (some d) = some (r ∷ d)

  -- `del d[k]`, none where it raises `KeyError`
  abbrev pub delete : K → List (K × V) → Option (List (K × V))
  delete k [] = none
  delete k ((j, v) ∷ d) = let rest = delete k d in if same j k then some d else with_row (j, v) rest

module _ {K : Type 0} (same : K → K → Bool) where
  abbrev pub key_mem : K → List K → Bool
  key_mem k ks = any (λ j. same j k) ks

  abbrev pub put_key : K → List K → List K
  put_key k [] = k ∷ []
  put_key k (j ∷ ks) = let rest = put_key k ks in if same j k then j ∷ ks else j ∷ rest

  abbrev pub delete_key : K → List K → List K
  delete_key k [] = []
  delete_key k (j ∷ ks) = let rest = delete_key k ks in if same j k then ks else j ∷ rest

  -- A key that is there keeps its place.
  pub put_key-present : (k : K) (ks : List K) → key_mem k ks ≡ true → put_key k ks ≡ ks
  put_key-present k [] h = cc h
  put_key-present k (j ∷ ks) h = elim (Bool-cases (same j k)) [
    | inl e ↦ rw e
    | inr e ↦ let rest = put_key-present k ks (cc (h, e)) in rw (e, rest)
  ]

  pub length-put_key : (k : K) (ks : List K) → length (put_key k ks) ≤ suc (length ks)
  length-put_key k [] = omega arith
  length-put_key k (j ∷ ks) = ground (arith, length-put_key k ks)

  pub length-delete_key :
      (k : K) (ks : List K) → key_mem k ks ≡ true → suc (length (delete_key k ks)) ≡ length ks
  length-delete_key k [] h = cc h
  length-delete_key k (j ∷ ks) h = ground (arith, length-delete_key k ks)

module _ {K V : Type 0} where
  abbrev pub dict_keys : List (K × V) → List K
  dict_keys = map (λ r. r.0)

  pub length-dict_keys : (d : List (K × V)) → length (dict_keys d) ≡ length d
  length-dict_keys [] = refl
  length-dict_keys (r ∷ d) = ap suc (length-dict_keys d)

module _ {K V : Type 0} (same : K → K → Bool) where
  pub get-is_some :
      (k : K) (d : List (K × V)) → is_some (get same k d) ≡ key_mem same k (dict_keys d)
  get-is_some k [] = refl
  get-is_some k ((j, v) ∷ d) = ground (arith, get-is_some k d)

  pub dict_keys-put :
      (k : K) (v : V) (d : List (K × V)) → dict_keys (put same k v d) ≡ put_key same k (dict_keys d)
  dict_keys-put k v [] = refl
  dict_keys-put k v ((j, x) ∷ d) = ground (arith, dict_keys-put k v d)

  pub delete-found :
      (k : K) (d : List (K × V))
      → key_mem same k (dict_keys d) ≡ true
      → (rest : List (K × V)) × (delete same k d ≡ some rest)
        × (dict_keys rest ≡ delete_key same k (dict_keys d))
  delete-found k [] h = cc h
  delete-found k ((j, v) ∷ d) h = elim (Bool-cases (same j k)) [
    | inl e ↦ (d, rw e, rw e)
    | inr e ↦ let r = delete-found k d (cc (h, e)) in ((j, v) ∷ r.0, rw (e, r.1), rw (e, r.2))
  ]

-- The rows, for a test that holds of equal keys only.
module _ {K V : Type 0} (same : K → K → Bool) (sound : (j k : K) → same j k ≡ true → j ≡ k) where
  pub get-found : (k : K) (v : V) (d : List (K × V)) → get same k d ≡ some v → Memᴰ (k, v) d
  get-found k v [] h = cc h
  get-found k v ((j, x) ∷ d) h = elim (Bool-cases (same j k)) [
    | inl e ↦ Memᴰ.head (cc (eq_of_some x v (sym (get-yes j x e) ∙ h), sound j k e))
    | inr e ↦ Memᴰ.tail (get-found k v d (cc (h, e)))
  ]
    where
      get-yes : (j : K) (x : V) → same j k ≡ true → get same k ((j, x) ∷ d) ≡ some x
      get-yes j x e = rw e

  -- A row after `put` is an older row or the new one.
  pub put-rows :
      (k : K) (v : V) (d : List (K × V)) (r : K × V)
      → Memᴰ r (put same k v d)
      → Memᴰ r d ⊎ (r ≡ (k, v))
  put-rows k v [] r m = inr (Memᴰ.eq_of_singleton m)
  put-rows k v ((j, x) ∷ d) r m = elim (Bool-cases (same j k)) [
    | inl e ↦ elim (Memᴰ.cases_cons (subst (λ l. Memᴰ r l) (put-yes e) m)) [
      | inl here ↦ inr (cc (here, sound j k e))
      | inr there ↦ inl (Memᴰ.tail there)
    ]
    | inr e ↦ elim (Memᴰ.cases_cons (subst (λ l. Memᴰ r l) (put-no e) m)) [
      | inl here ↦ inl (Memᴰ.head here)
      | inr there ↦ elim (put-rows k v d r there) [
        | inl old ↦ inl (Memᴰ.tail old)
        | inr new ↦ inr new
      ]
    ]
  ]
    where
      put-yes : same j k ≡ true → put same k v ((j, x) ∷ d) ≡ (j, v) ∷ d
      put-yes e = rw e

      put-no : same j k ≡ false → put same k v ((j, x) ∷ d) ≡ (j, x) ∷ put same k v d
      put-no e = rw e

module _ {K V : Type 0} (same : K → K → Bool) where
  -- What is left after `del` was there before.
  pub delete-rows :
      (k : K) (d rest : List (K × V)) (r : K × V)
      → delete same k d ≡ some rest
      → Memᴰ r rest
      → Memᴰ r d
  delete-rows k [] rest r h m = cc h
  delete-rows k ((j, x) ∷ d) rest r h m = elim (Bool-cases (same j k)) [
    | inl e ↦ Memᴰ.tail (subst (λ l. Memᴰ r l) (eq_of_some rest d (sym h ∙ rw e)) m)
    | inr e ↦ elim (Option-cases (delete same k d)) [
      | inl gone ↦ cc (h, e, gone)
      | inr (left, found) ↦
          elim (Memᴰ.cases_cons
            (subst (λ l. Memᴰ r l) (eq_of_some rest ((j, x) ∷ left) (sym h ∙ rw (e, found))) m)) [
              | inl here ↦ Memᴰ.head here
              | inr there ↦ Memᴰ.tail (delete-rows k d left r found there)
            ]
    ]
  ]
