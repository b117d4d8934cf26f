-- ===== src/Examples/Dedup.antt =====
-- The theorems on duplicate detection, on concrete values.
use local_content_processor.Prelude.{
  ℕ, ◌≡◌, refl, sym, none, some, [], ◌∷◌, arith, true, ap, ◌∙◌, ◌≢◌, inl, inr,
}
use local_content_processor.Prelude.Texts.{codes, ascii}
use mathlib.Core.List.Memᴰ
use local_content_processor.Core.State.{crawled}
use local_content_processor.Core.Dedup.{DedupIndex, exact_jaccard, normalize_title}
use local_content_processor.Core.Dedup.Cache.{
  MinHashLsh, Signatures, empty_cache, index_fingerprint, build_lsh, get_or_build_lsh, LshCache,
}
use local_content_processor.Core.Dedup.Cache.Invariant.{Synced, get_or_build_lsh-Synced}
use local_content_processor.Core.Dedup.Cache.Fresh.{Genuine, NoClash, get_or_build_lsh-build_lsh}
use local_content_processor.Core.Dedup.Cascade.{default_params, assess_dedup}
use local_content_processor.Core.Dedup.Cascade.Verdict.{IsNew}
use local_content_processor.Core.Errors.{ok}
use local_content_processor.Storage.Exec.{gets, modify, pure, ◌>>=◌}
use local_content_processor.Storage.Json.{obj, member, end, str}
use local_content_processor.Storage.World.{World}
use local_content_processor.Storage.Audit.{append, tail}
use local_content_processor.Processor.RiskGate.{park}
use local_content_processor.Processor.DedupGate.{
  DedupGateTools, load_site_index, run_dedup_gate, take_result, record_result, map_to_state,
}
use local_content_processor.Processor.DedupGate.Passing.{run_dedup_gate-IsNew}
use local_content_processor.Examples.Fixtures.{host, store, dedup_tools}

-- One shingle of three is in both.
a_third : exact_jaccard ascii (codes "A b, c d") (codes "a b c e") 3 ≡ (1, 3)
unfolding exact_jaccard
a_third = refl

empty_cache-Synced : Synced empty_cache
empty_cache-Synced = record { sigs = refl; order = refl; bounded = omega arith }

empty_cache-Genuine : (k : ℕ) → Genuine ascii dedup_tools.cascade.sha256 k [] empty_cache
empty_cache-Genuine k = record {
  lsh = λ r m. absurd (Memᴰ.not-nil m);
  sigs = λ r m. absurd (Memᴰ.not-nil m);
}

abbrev seen : DedupIndex
seen = record {
  entries = record { job_id = "old"; title = codes "Old"; body = codes "a b c d" } ∷ [];
  site_index_available = true;
}

abbrev blank_index : DedupIndex
blank_index = record { entries = []; site_index_available = true }

get_or_build_lsh-Synced_example :
    (built : MinHashLsh × Signatures) × (c : LshCache) × (get_or_build_lsh ascii
        dedup_tools.cascade.sha256 seen 500 128 3 empty_cache
      ≡ some (built, c))
    × Synced c
get_or_build_lsh-Synced_example =
    get_or_build_lsh-Synced ascii dedup_tools.cascade.sha256 seen 500 128 3 empty_cache
      empty_cache-Synced

-- The fingerprint of an index with text is not that of the blank index.
other_fingerprint :
    index_fingerprint dedup_tools.cascade.sha256 blank_index
    ≢ index_fingerprint dedup_tools.cascade.sha256 seen
unfolding index_fingerprint
other_fingerprint h = cc h

nothing_asked : NoClash ascii dedup_tools.cascade.sha256 3 [] blank_index 500 128
nothing_asked i m h = absurd (Memᴰ.not-nil m)

no_clash : NoClash ascii dedup_tools.cascade.sha256 3 (blank_index ∷ []) seen 500 128
no_clash i m h = elim (Memᴰ.cases_cons m) [
  | inl here ↦
      absurd (other_fingerprint (ap (index_fingerprint dedup_tools.cascade.sha256) (sym here) ∙ h))
  | inr there ↦ absurd (Memᴰ.not-nil there)
]

-- The cache after a call with the blank index.
after_blank :
    (c : LshCache) × (get_or_build_lsh ascii dedup_tools.cascade.sha256 blank_index 500 128 3
        empty_cache
      ≡ some (build_lsh ascii blank_index 500 128 3, c))
    × Synced c
    × Genuine ascii dedup_tools.cascade.sha256 3 (blank_index ∷ []) c
after_blank =
    get_or_build_lsh-build_lsh ascii dedup_tools.cascade.sha256 3 [] blank_index 500 128 empty_cache
      empty_cache-Synced (empty_cache-Genuine 3) nothing_asked

get_or_build_lsh-build_lsh_example :
    (c : LshCache) × (get_or_build_lsh ascii dedup_tools.cascade.sha256 seen 500 128 3 after_blank.0
      ≡ some (build_lsh ascii seen 500 128 3, c))
    × Synced c
    × Genuine ascii dedup_tools.cascade.sha256 3 (seen ∷ blank_index ∷ []) c
get_or_build_lsh-build_lsh_example =
    get_or_build_lsh-build_lsh ascii dedup_tools.cascade.sha256 3 (blank_index ∷ []) seen 500 128
      after_blank.0 after_blank.2 after_blank.3 no_clash

-- A site index of one entry, with a text of its own.
abbrev site_tools : DedupGateTools
site_tools = record dedup_tools {
  loads = λ s.
      some
        (obj (member "job_id" (str "old") (member "title" (str "") (member "body" (str "") end))));
  py_str = λ v. "other words stand here";
}

abbrev one_entry : World
one_entry = record (store crawled) { site_index = some (codes "{}") }

abbrev site : DedupIndex
site = record {
  entries =
      record {
        job_id = "other words stand here";
        title = codes "other words stand here";
        body = codes "other words stand here";
      }
      ∷ [];
  site_index_available = true;
}

site_passes :
    (run_dedup_gate host site_tools "job-1"
      (codes "Title")
      (codes "a b c d")
      "t"
      []
      "system"
      none
      one_entry).0
    ≡ ok none
unfolding run_dedup_gate ◌>>=◌ gets modify pure take_result record_result map_to_state park
    load_site_index assess_dedup append tail normalize_title exact_jaccard
site_passes = refl

nothing_clashes :
    NoClash ascii site_tools.cascade.sha256 default_params.k [] site default_params.lsh_threshold
      default_params.num_perm
nothing_clashes i m h = absurd (Memᴰ.not-nil m)

-- An article goes on where the one entry of the site index is not like it.
run_dedup_gate-IsNew_example :
    IsNew site_tools.cascade default_params (codes "Title") (codes "a b c d") site []
unfolding load_site_index
run_dedup_gate-IsNew_example =
    run_dedup_gate-IsNew host site_tools "job-1" (codes "Title") (codes "a b c d") "t" [] "system"
      none [] one_entry empty_cache-Synced (empty_cache-Genuine default_params.k) nothing_clashes
      site_passes
