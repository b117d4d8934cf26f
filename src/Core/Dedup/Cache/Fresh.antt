-- ===== src/Core/Dedup/Cache/Fresh.antt =====
-- The cache of dedup_rules.py gives what a build without a cache gives.
use local_content_processor.Prelude.{
  ℕ, ◌≡◌, refl, sym, ap, ◌∙◌, inl, inr, Option, some, none, List, ◌∷◌, Option-cases, subst, leb,
  length, Bool-cases, eq_of_some,
}
use local_content_processor.Prelude.Dicts.{get, delete, get-found, put-rows, delete-rows}
use mathlib.Core.List.{Memᴰ}
use local_content_processor.Prelude.Texts.{Text, Unicode}
use local_content_processor.Core.Dedup.{DedupIndex}
use local_content_processor.Core.Dedup.Cache.{
  MinHashLsh, Signatures, CacheKey, cache_key, same_key, LshCache, index_fingerprint, build_lsh,
  delete_all, evict_key, evict, touch, store, oldest_key, get_or_build_lsh,
}
use local_content_processor.Core.Dedup.Cache.Invariant.{
  same_key_sound, Synced, evict-Synced, store-Synced, touch-Synced, key-found, sigs-found,
}

module _ (u : Unicode) (sha256 : Text → Text) (k : ℕ) where
  -- Each entry is a part of what a build gave for one of the indexes of the calls so far, which has
  -- the fingerprint of its key.
  abbrev pub Built :
      {V : Type 0} → List DedupIndex → (MinHashLsh × Signatures → V) → CacheKey × V → Type 0
  Built asked part r =
      (i : DedupIndex) × Memᴰ i asked
      × (index_fingerprint sha256 i ≡ r.0.fingerprint)
      × (r.1 ≡ part (build_lsh u i r.0.threshold r.0.num_perm k))

  -- A cache that calls with these indexes have filled.
  pub record Genuine (asked : List DedupIndex) (c : LshCache) : Type 0 where
    pub lsh : (r : CacheKey × MinHashLsh) → Memᴰ r c.lsh_cache → Built asked (λ b. b.0) r
    pub sigs : (r : CacheKey × Signatures) → Memᴰ r c.sigs_cache → Built asked (λ b. b.1) r

  -- No index of the earlier calls has the fingerprint of this one and other signatures.
  abbrev pub NoClash : List DedupIndex → DedupIndex → ℕ → ℕ → Type 0
  NoClash asked index threshold num_perm =
      (i : DedupIndex)
      → Memᴰ i asked
      → index_fingerprint sha256 i ≡ index_fingerprint sha256 index
      → build_lsh u i threshold num_perm k ≡ build_lsh u index threshold num_perm k

  Built-more :
      {V : Type 0} (asked : List DedupIndex) (index : DedupIndex)
      (part : MinHashLsh × Signatures → V) (r : CacheKey × V)
      → Built asked part r
      → Built (index ∷ asked) part r
  Built-more asked index part r h = (h.0, Memᴰ.tail h.1, h.2, h.3)

  -- The cache of some calls is one of more calls.
  pub Genuine-more :
      (asked : List DedupIndex) (index : DedupIndex) (c : LshCache)
      → Genuine asked c
      → Genuine (index ∷ asked) c
  Genuine-more asked index c h = record {
    lsh = λ r m. Built-more asked index (λ b. b.0) r (h.lsh r m);
    sigs = λ r m. Built-more asked index (λ b. b.1) r (h.sigs r m);
  }

  delete_all-Genuine :
      (asked : List DedupIndex) (c c' : LshCache) (key : CacheKey)
      (a : Option (List (CacheKey × MinHashLsh))) (b : Option (List (CacheKey × Signatures)))
      (o : Option (List (CacheKey × ℕ)))
      → delete same_key key c.lsh_cache ≡ a
      → delete same_key key c.sigs_cache ≡ b
      → Genuine asked c
      → delete_all c a b o ≡ some c'
      → Genuine asked c'
  delete_all-Genuine asked c c' key (some a) (some b) (some o) ea eb h e =
      subst (Genuine asked) (eq_of_some _ c' e) (record {
        lsh = λ r m. h.lsh r (delete-rows same_key key c.lsh_cache a r ea m);
        sigs = λ r m. h.sigs r (delete-rows same_key key c.sigs_cache b r eb m);
      })
  delete_all-Genuine asked c c' key none b o ea eb h e = cc e
  delete_all-Genuine asked c c' key (some a) none o ea eb h e = cc e
  delete_all-Genuine asked c c' key (some a) (some b) none ea eb h e = cc e

  evict_key-Genuine :
      (asked : List DedupIndex) (c c' : LshCache) (key : Option CacheKey)
      → Genuine asked c
      → evict_key c key ≡ some c'
      → Genuine asked c'
  evict_key-Genuine asked c c' none h e = cc e
  evict_key-Genuine asked c c' (some key) h e =
      delete_all-Genuine asked c c' key _ _ (delete same_key key c.cache_order) refl refl h e

  evict-Genuine :
      (asked : List DedupIndex) (c c' : LshCache)
      → Genuine asked c
      → evict c ≡ some c'
      → Genuine asked c'
  unfolding evict
  evict-Genuine asked c c' h e = elim (Bool-cases (leb 32 (length c.lsh_cache))) [
    | inl full ↦ evict_key-Genuine asked c c' (oldest_key c.cache_order) h (sym (rw full) ∙ e)
    | inr room ↦ subst (Genuine asked) (eq_of_some c c' (sym (rw room) ∙ e)) h
  ]

  store-Genuine :
      (asked : List DedupIndex) (c : LshCache) (index : DedupIndex) (threshold num_perm : ℕ)
      → Genuine asked c
      → Genuine (index ∷ asked) (
          store
            (cache_key (index_fingerprint sha256 index) threshold num_perm)
            (build_lsh u index threshold num_perm k)
            c)
  store-Genuine asked c index threshold num_perm h = record {
    lsh = λ r m. elim (put-rows same_key same_key_sound _ _ c.lsh_cache r m) [
      | inl old ↦ Built-more asked index (λ b. b.0) r (h.lsh r old)
      | inr new ↦
          subst (Built (index ∷ asked) (λ b. b.0)) (sym new) (index, Memᴰ.head refl, refl, refl)
    ];
    sigs = λ r m. elim (put-rows same_key same_key_sound _ _ c.sigs_cache r m) [
      | inl old ↦ Built-more asked index (λ b. b.1) r (h.sigs r old)
      | inr new ↦
          subst (Built (index ∷ asked) (λ b. b.1)) (sym new) (index, Memᴰ.head refl, refl, refl)
    ];
  }

  -- What a hit gives back is what a build gives.
  hit_built :
      (asked : List DedupIndex) (c : LshCache) (index : DedupIndex) (threshold num_perm : ℕ)
      → Genuine asked c
      → NoClash asked index threshold num_perm
      → (lsh : MinHashLsh) (sigs : Signatures)
      → let key = cache_key (index_fingerprint sha256 index) threshold num_perm in
        get same_key key c.lsh_cache ≡ some lsh
        → get same_key key c.sigs_cache ≡ some sigs
        → (lsh, sigs) ≡ build_lsh u index threshold num_perm k
  hit_built asked c index threshold num_perm h no_clash lsh sigs e e' =
      let key = cache_key (index_fingerprint sha256 index) threshold num_perm in
      let a = h.lsh (key, lsh) (get-found same_key same_key_sound key lsh c.lsh_cache e) in
      let b = h.sigs (key, sigs) (get-found same_key same_key_sound key sigs c.sigs_cache e') in
      cc (a.3, b.3, no_clash a.0 a.1 a.2, no_clash b.0 b.1 b.2)

  module _ (asked : List DedupIndex) (index : DedupIndex) (threshold num_perm : ℕ)
      (c : LshCache) where
    -- On a cache that calls with one size of shingles have filled, none of whose indexes has the
    -- fingerprint of this one and other signatures, a call gives what a build gives; the cache is then
    -- one that these calls and this one have filled.
    pub get_or_build_lsh-build_lsh :
        Synced c
        → Genuine asked c
        → NoClash asked index threshold num_perm
        → (c' : LshCache) × (get_or_build_lsh u sha256 index threshold num_perm k c
            ≡ some (build_lsh u index threshold num_perm k, c'))
          × Synced c'
          × Genuine (index ∷ asked) c'
    unfolding get_or_build_lsh
    get_or_build_lsh-build_lsh synced h no_clash =
        let key = cache_key (index_fingerprint sha256 index) threshold num_perm in
        let fresh = build_lsh u index threshold num_perm k in
        elim (Option-cases (get same_key key c.lsh_cache)) [
          | inl absent ↦
              let e = evict-Synced c synced in
              (
                store key fresh e.0,
                rw (absent, e.1),
                store-Synced key fresh e.0 e.2 e.3,
                store-Genuine asked e.0 index threshold num_perm (evict-Genuine asked c e.0 h e.1),
              )
          | inr (lsh, present) ↦
              let sigs = sigs-found key c synced lsh present in
              let got : get_or_build_lsh u sha256 index threshold num_perm k c
                  ≡ some ((lsh, sigs.0), touch key c) =
                rw (present, sigs.1) in
              let same =
                hit_built asked c index threshold num_perm h no_clash lsh sigs.0 present sigs.1 in
              (
                touch key c,
                got ∙ ap (λ b. some (b, touch key c)) same,
                touch-Synced key c synced (key-found key c lsh present),
                record {
                  lsh = (Genuine-more asked index c h).lsh;
                  sigs = (Genuine-more asked index c h).sigs;
                },
              )
        ]
