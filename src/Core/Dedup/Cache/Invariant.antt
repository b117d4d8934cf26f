-- ===== src/Core/Dedup/Cache/Invariant.antt =====
-- The cache of dedup_rules.py: its three dictionaries agree, it holds 32 entries at most, and an
-- entry is what a build gives.
use local_content_processor.Prelude.{
  ℕ, ◌≤◌, ◌≡◌, refl, sym, ap, ◌∙◌, inl, inr, Bool, true, false, ◌&&◌, ◌||◌, Option, none, some,
  List, [], ◌∷◌, length, leb, ltb, arith, is_some, Bool-cases, Option-cases, if◌then◌else◌, ◌==◌,
  and-eq-true, subst,
}
use local_content_processor.Prelude.Dicts.{
  get, put, key_mem, dict_keys, get-is_some, dict_keys-put, delete-found, length-dict_keys,
  length-put_key, put_key, delete_key, put_key-present, length-delete_key,
}
use mathlib.Core.List.{Memᴰ}
use mathlib.Core.List.Memᴰ
use local_content_processor.Prelude.Substrings.{text_eq_sound, text_eq_refl}
use local_content_processor.Prelude.Texts.{Text, text_eq, Unicode}
use local_content_processor.Core.Dedup.{DedupIndex}
use local_content_processor.Core.Dedup.Cache.{
  MinHashLsh, Signatures, CacheKey, cache_key, same_key, LshCache, index_fingerprint, build_lsh,
  least, oldest_key, evict, touch, store, get_or_build_lsh,
}

same_number : (c d : ℕ) → (c == d) ≡ true → c ≡ d
same_number c d h = ground arith

pub same_key_sound : (a b : CacheKey) → same_key a b ≡ true → a ≡ b
same_key_sound a b h =
    let fingerprints = text_eq a.fingerprint b.fingerprint in
    let all =
      and-eq-true (fingerprints && a.threshold == b.threshold) (a.num_perm == b.num_perm) h in
    let two = and-eq-true fingerprints (a.threshold == b.threshold) all.0 in
    cc (
      text_eq_sound a.fingerprint b.fingerprint two.0,
      same_number _ _ two.1,
      same_number _ _ all.1,
    )

same_key_refl : (a : CacheKey) → same_key a a ≡ true
same_key_refl a = ground (arith, text_eq_refl a.fingerprint)

-- What holds of the three dictionaries between two calls.
pub record Synced (c : LshCache) : Type 0 where
  pub sigs : dict_keys c.sigs_cache ≡ dict_keys c.lsh_cache
  pub order : dict_keys c.cache_order ≡ dict_keys c.lsh_cache
  pub bounded : length c.lsh_cache ≤ 32

-- The row that is evicted is one of the rows.
least-row : (r : CacheKey × ℕ) (rs : List (CacheKey × ℕ)) → Memᴰ (least r rs) (r ∷ rs)
least-row r [] = Memᴰ.head refl
least-row r (s ∷ rs) = chosen (ltb s.1 r.1) (least-row s rs) (least-row r rs)
  where
    chosen :
        (b : Bool)
        → Memᴰ (least s rs) (s ∷ rs)
        → Memᴰ (least r rs) (r ∷ rs)
        → Memᴰ (least (if b then s else r) rs) (r ∷ s ∷ rs)
    chosen true later kept = Memᴰ.tail later
    chosen false later kept = elim (Memᴰ.cases_cons kept) [
      | inl here ↦ Memᴰ.head here
      | inr there ↦ Memᴰ.tail (Memᴰ.tail there)
    ]

key_mem-row :
    (r : CacheKey × ℕ) (d : List (CacheKey × ℕ))
    → Memᴰ r d
    → key_mem same_key r.0 (dict_keys d) ≡ true
key_mem-row r [] m = absurd (Memᴰ.not-nil m)
key_mem-row r (s ∷ d) m = elim (Memᴰ.cases_cons m) [
  | inl here ↦
      first (same_key s.0 r.0) _
        (subst (λ (x : CacheKey × ℕ). same_key x.0 r.0 ≡ true) here (same_key_refl r.0))
  | inr there ↦ later (same_key s.0 r.0) _ (key_mem-row r d there)
]
  where
    first : (a b : Bool) → a ≡ true → (a || b) ≡ true
    first true b h = refl
    first false b h = cc h

    later : (a b : Bool) → b ≡ true → (a || b) ≡ true
    later true b h = refl
    later false b h = h

oldest_key-found :
    (d : List (CacheKey × ℕ))
    → 32 ≤ length (dict_keys d)
    → (k : CacheKey) × (oldest_key d ≡ some k) × (key_mem same_key k (dict_keys d) ≡ true)
unfolding oldest_key
oldest_key-found [] h = absurd (omega (arith, h))
oldest_key-found (r ∷ rs) h =
    ((least r rs).0, refl, key_mem-row (least r rs) (r ∷ rs) (least-row r rs))

-- Eviction succeeds and leaves room for one more.
pub evict-Synced :
    (c : LshCache)
    → Synced c
    → (c' : LshCache) × (evict c ≡ some c') × Synced c' × (length c'.lsh_cache ≤ 31)
unfolding evict oldest_key
evict-Synced c h = elim (Bool-cases (leb 32 (length c.lsh_cache))) [
  | inl full ↦
      let long : 32 ≤ length c.lsh_cache = ground arith in
      let measured = length-dict_keys c.lsh_cache in
      let (k, oldest, there) =
        oldest_key-found c.cache_order
          (subst (λ ks. 32 ≤ length ks) (sym h.order) (omega (arith, long, measured))) in
      let in_lsh : key_mem same_key k (dict_keys c.lsh_cache) ≡ true =
        ap (key_mem same_key k) (sym h.order) ∙ there in
      let a = delete-found same_key k c.lsh_cache in_lsh in
      let b = delete-found same_key k c.sigs_cache (ap (key_mem same_key k) h.sigs ∙ in_lsh) in
      let o = delete-found same_key k c.cache_order there in
      let shorter = length-delete_key same_key k (dict_keys c.lsh_cache) in_lsh in
      let left : length a.0 ≤ 31 =
        omega (arith, h.bounded, measured, shorter, ap length a.2, length-dict_keys a.0) in
      (
        record { lsh_cache = a.0; sigs_cache = b.0; cache_order = o.0; counter = c.counter },
        rw (full, oldest, a.1, b.1, o.1),
        record {
          sigs = b.2 ∙ ap (delete_key same_key k) h.sigs ∙ sym a.2;
          order = o.2 ∙ ap (delete_key same_key k) h.order ∙ sym a.2;
          bounded = omega (arith, left);
        },
        left,
      )
  | inr room ↦ (c, rw room, h, ground arith)
]

pub store-Synced :
    (key : CacheKey) (built : MinHashLsh × Signatures) (c : LshCache)
    → Synced c
    → length c.lsh_cache ≤ 31
    → Synced (store key built c)
store-Synced key built c h room = record {
  sigs =
      dict_keys-put same_key key built.1 c.sigs_cache
      ∙ ap (put_key same_key key) h.sigs
      ∙ sym (dict_keys-put same_key key built.0 c.lsh_cache);
  order =
      dict_keys-put same_key key c.counter c.cache_order
      ∙ ap (put_key same_key key) h.order
      ∙ sym (dict_keys-put same_key key built.0 c.lsh_cache);
  bounded = omega (
    arith,
    room,
    length-dict_keys c.lsh_cache,
    length-put_key same_key key (dict_keys c.lsh_cache),
    ap length (dict_keys-put same_key key built.0 c.lsh_cache),
    length-dict_keys (put same_key key built.0 c.lsh_cache),
  );
}

pub touch-Synced :
    (key : CacheKey) (c : LshCache)
    → Synced c
    → key_mem same_key key (dict_keys c.lsh_cache) ≡ true
    → Synced (touch key c)
touch-Synced key c h there = record {
  sigs = h.sigs;
  order =
      dict_keys-put same_key key c.counter c.cache_order
      ∙ ap (put_key same_key key) h.order
      ∙ put_key-present same_key key (dict_keys c.lsh_cache) there;
  bounded = h.bounded;
}

found-some {ℓ} : {A : Type ℓ} (o : Option A) → is_some o ≡ true → (a : A) × (o ≡ some a)
found-some none h = cc h
found-some (some a) h = (a, refl)

-- A key of the cache is a key of each dictionary.
pub key-found :
    (key : CacheKey) (c : LshCache) (lsh : MinHashLsh)
    → get same_key key c.lsh_cache ≡ some lsh
    → key_mem same_key key (dict_keys c.lsh_cache) ≡ true
key-found key c lsh present = sym (get-is_some same_key key c.lsh_cache) ∙ ap is_some present

pub sigs-found :
    (key : CacheKey) (c : LshCache)
    → Synced c
    → (lsh : MinHashLsh) → get same_key key c.lsh_cache ≡ some lsh
    → (sigs : Signatures) × (get same_key key c.sigs_cache ≡ some sigs)
sigs-found key c h lsh present = found-some (get same_key key c.sigs_cache) (
    get-is_some same_key key c.sigs_cache
    ∙ ap (key_mem same_key key) h.sigs
    ∙ key-found key c lsh present)

module _ (u : Unicode) (sha256 : Text → Text) (index : DedupIndex) (threshold num_perm k : ℕ) where
  -- A call on a cache whose dictionaries agree raises no error; after it they agree again, and the
  -- cache holds 32 entries at most.
  pub get_or_build_lsh-Synced :
      (c : LshCache)
      → Synced c
      → (built : MinHashLsh × Signatures) × (c' : LshCache) × (get_or_build_lsh u sha256 index
            threshold num_perm k c
          ≡ some (built, c'))
        × Synced c'
  unfolding get_or_build_lsh
  get_or_build_lsh-Synced c h =
      let key = cache_key (index_fingerprint sha256 index) threshold num_perm in
      let fresh = build_lsh u index threshold num_perm k in
      elim (Option-cases (get same_key key c.lsh_cache)) [
        | inl absent ↦
            let e = evict-Synced c h in
            (fresh, store key fresh e.0, rw (absent, e.1), store-Synced key fresh e.0 e.2 e.3)
        | inr (lsh, present) ↦
            let sigs = sigs-found key c h lsh present in
            (
              (lsh, sigs.0),
              touch key c,
              rw (present, sigs.1),
              touch-Synced key c h (key-found key c lsh present),
            )
      ]
