-- ===== src/Core/Dedup/Cache.antt =====
-- src/lcp/core/rules/dedup_rules.py: the signatures of an index, and the cache that keeps 32 of them.
-- The three dictionaries of the module are the three fields of a state. A threshold is in
-- thousandths. `MinHash` and `MinHashLSH` of datasketch are what was put into them.
pub mod Invariant
pub mod Fresh
use local_content_processor.Prelude.{
  ℕ, suc, ◌+◌, String, Bool, true, false, not, ◌&&◌, Option, none, some, List, [], ◌∷◌, ◌++◌,
  is_empty, length, take, leb, ltb, ◌==◌, str_eq, str_mem, if◌then◌else◌, keys,
}
use local_content_processor.Prelude.Dicts.{get, put, delete}
use local_content_processor.Prelude.Texts.{Text, codes, text_eq, Unicode, strip}
use local_content_processor.Core.Dedup.{IndexEntry, DedupIndex, shingles}

pub record MinHash : Type 0 where
  pub num_perm : ℕ
  pub updates : List Text

pub record MinHashLsh : Type 0 where
  pub threshold : ℕ
  pub num_perm : ℕ
  pub inserted : List (String × MinHash)

abbrev pub Signatures : Type 0
Signatures = List (String × MinHash)

-- `(index_fingerprint, lsh_threshold, num_perm)`
pub record CacheKey : Type 0 where
  pub fingerprint : Text
  pub threshold : ℕ
  pub num_perm : ℕ

abbrev pub cache_key : Text → ℕ → ℕ → CacheKey
cache_key f t n = record { fingerprint = f; threshold = t; num_perm = n }

abbrev pub same_key : CacheKey → CacheKey → Bool
same_key a b =
    text_eq a.fingerprint b.fingerprint && a.threshold == b.threshold && a.num_perm == b.num_perm

-- The module's globals.
pub record LshCache : Type 0 where
  pub lsh_cache : List (CacheKey × MinHashLsh)
  pub sigs_cache : List (CacheKey × Signatures)
  pub cache_order : List (CacheKey × ℕ)
  pub counter : ℕ

abbrev pub empty_cache : LshCache
empty_cache = record { lsh_cache = []; sigs_cache = []; cache_order = []; counter = 0 }

-- What the hash reads: the identifiers and the bodies, one after the other.
abbrev pub fingerprinted : List IndexEntry → Text
fingerprinted [] = []
fingerprinted (e ∷ es) = codes e.job_id ++ e.body ++ fingerprinted es

-- `_index_fingerprint`, for the hexadecimal digest of SHA-256.
unfoldable pub index_fingerprint : (Text → Text) → DedupIndex → Text
index_fingerprint sha256 index = take 16 (sha256 (fingerprinted index.entries))

module _ (u : Unicode) where
  unfoldable pub build_minhash : Text → ℕ → ℕ → MinHash
  build_minhash text num_perm k = record { num_perm = num_perm; updates = shingles u text k }

  -- The body of the loop of `_get_or_build_lsh`.
  abbrev pub insert_signature :
      ℕ → ℕ → MinHashLsh × Signatures → IndexEntry → MinHashLsh × Signatures
  insert_signature num_perm k (lsh, signatures) entry =
      let sig = build_minhash entry.body num_perm k in
      if is_empty (strip u entry.body) then (lsh, signatures) else (
        if str_mem entry.job_id (keys lsh.inserted)
            then lsh
            else record lsh { inserted = lsh.inserted ++ (entry.job_id, sig) ∷ [] },
        put str_eq entry.job_id sig signatures,
      )

  abbrev pub insert_signatures :
      ℕ → ℕ → MinHashLsh × Signatures → List IndexEntry → MinHashLsh × Signatures
  insert_signatures num_perm k built [] = built
  insert_signatures num_perm k built (e ∷ es) =
      insert_signatures num_perm k (insert_signature num_perm k built e) es

  -- The build of `_get_or_build_lsh`, without the cache.
  unfoldable pub build_lsh : DedupIndex → ℕ → ℕ → ℕ → MinHashLsh × Signatures
  unfolding build_minhash
  build_lsh index threshold num_perm k =
      insert_signatures num_perm k
        (record { threshold = threshold; num_perm = num_perm; inserted = [] }, []) index.entries

-- The first key with the least order.
abbrev least : CacheKey × ℕ → List (CacheKey × ℕ) → CacheKey × ℕ
least best [] = best
least best (r ∷ rs) = least (if ltb r.1 best.1 then r else best) rs

-- `min(…)`, none where the dictionary is empty and it raises `ValueError`
unfoldable pub oldest_key : List (CacheKey × ℕ) → Option CacheKey
oldest_key [] = none
oldest_key (r ∷ rs) = some (least r rs).0

abbrev delete_all :
    LshCache
    → Option (List (CacheKey × MinHashLsh))
    → Option (List (CacheKey × Signatures))
    → Option (List (CacheKey × ℕ))
    → Option LshCache
delete_all c (some a) (some b) (some o) =
    some (record { lsh_cache = a; sigs_cache = b; cache_order = o; counter = c.counter })
delete_all c _ _ _ = none

abbrev evict_key : LshCache → Option CacheKey → Option LshCache
evict_key c none = none
evict_key c (some k) =
    delete_all c (delete same_key k c.lsh_cache) (delete same_key k c.sigs_cache)
      (delete same_key k c.cache_order)

-- Room for one more entry: none where an operation on a dictionary raises.
unfoldable pub evict : LshCache → Option LshCache
unfolding oldest_key
evict c = if leb 32 (length c.lsh_cache) then evict_key c (oldest_key c.cache_order) else some c

abbrev touch : CacheKey → LshCache → LshCache
touch key c = record c {
  cache_order = put same_key key c.counter c.cache_order;
  counter = suc c.counter;
}

abbrev store : CacheKey → MinHashLsh × Signatures → LshCache → LshCache
store key built c = record {
  lsh_cache = put same_key key built.0 c.lsh_cache;
  sigs_cache = put same_key key built.1 c.sigs_cache;
  cache_order = put same_key key c.counter c.cache_order;
  counter = suc c.counter;
}

abbrev pub Found : Type 0
Found = Option ((MinHashLsh × Signatures) × LshCache)

abbrev hit : CacheKey → LshCache → MinHashLsh → Option Signatures → Found
hit key c lsh none = none
hit key c lsh (some sigs) = some ((lsh, sigs), touch key c)

abbrev miss : CacheKey → MinHashLsh × Signatures → Option LshCache → Found
miss key built none = none
miss key built (some c) = some (built, store key built c)

abbrev find : CacheKey → MinHashLsh × Signatures → LshCache → Option MinHashLsh → Found
find key built c (some lsh) = hit key c lsh (get same_key key c.sigs_cache)
find key built c none = miss key built (evict c)

-- `_get_or_build_lsh` under its lock: none where an operation on a dictionary raises.
unfoldable pub get_or_build_lsh :
    Unicode → (Text → Text) → DedupIndex → ℕ → ℕ → ℕ → LshCache → Found
unfolding evict build_lsh index_fingerprint
get_or_build_lsh u sha256 index threshold num_perm k c =
    let key = cache_key (index_fingerprint sha256 index) threshold num_perm in
    find key (build_lsh u index threshold num_perm k) c (get same_key key c.lsh_cache)
