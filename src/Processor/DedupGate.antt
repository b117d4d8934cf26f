-- ===== src/Processor/DedupGate.antt =====
-- src/lcp/adapters/processor/dedup_checker.py: the gate against articles that were seen before.
pub mod Passing
use local_content_processor.Prelude.{
  ℕ, String, Bool, true, false, not, ◌&&◌, ◌||◌, Option, none, some, List, [], ◌∷◌, map, is_empty,
  length, leb, ◌==◌, if◌then◌else◌,
}
use local_content_processor.Prelude.Texts.{Text, codes, split_at, strip}
use local_content_processor.Core.Errors.{uncaught}
use local_content_processor.Core.Clean.{code_mem}
use local_content_processor.Core.State.{
  JobState, ReviewReason, duplicate, needs_human_review, dedup, reason_value,
}
use local_content_processor.Core.Dedup.{IndexEntry, DedupIndex, DedupQuery}
use local_content_processor.Core.Dedup.Cache.{LshCache}
use local_content_processor.Core.Dedup.Cascade.{
  DedupStatus, DedupReliability, DedupResult, DedupTools, ScoreParams, default_params, assess_dedup,
}
use local_content_processor.Core.Dedup.Cascade
use local_content_processor.Storage.Json.{Json, num, str, arr, obj, items, Members, get_member}
use local_content_processor.Storage.World.{World, Host}
use local_content_processor.Storage.Exec.{Exec, pure, raise, gets, modify, ◌>>=◌, ◌>>◌}
use local_content_processor.Storage.Audit.{append}
use local_content_processor.Processor.DraftLinter.{gate_event}
use local_content_processor.Processor.RiskGate.{park, reason_json}

-- What the gate takes from its libraries: those of the cascade, `json.loads`, none where it raises
-- `JSONDecodeError`, and `str` of a value.
pub record DedupGateTools : Type 0 where
  pub cascade : DedupTools
  pub loads : Text → Option Json
  pub py_str : Json → String

-- `s.splitlines()`, with an empty line more between "\r" and "\n" and at the end.
abbrev pub split_lines : Text → List Text
split_lines =
    split_at
      (λ c. (leb 10 c && leb c 13) || (leb 28 c && leb c 30) || code_mem c (133 ∷ 8232 ∷ 8233 ∷ []))

-- `raw.lstrip("\ufeff")`
abbrev without_bom : Text → Text
without_bom [] = []
without_bom (c ∷ s) = let rest = without_bom s in if c == 65279 then rest else c ∷ s

module _ (t : DedupGateTools) where
  -- `str(obj.get(k, ""))`
  abbrev text_of : Option Json → Text
  text_of none = []
  text_of (some v) = codes (t.py_str v)

  abbrev entry_with : Members → Option Json → Option IndexEntry
  entry_with m none = none
  entry_with m (some id) = some (record {
    job_id = t.py_str id;
    title = text_of (get_member "title" m);
    body = text_of (get_member "body" m);
  })

  -- The `try` block: none where the line is quarantined.
  abbrev entry_of : Option Json → Option IndexEntry
  entry_of (some (obj m)) = entry_with m (get_member "job_id" m)
  entry_of _ = none

  unfoldable pub parse_line : Text → Option IndexEntry
  parse_line raw = entry_of (t.loads raw)

  abbrev add_entry : Option IndexEntry → List IndexEntry → List IndexEntry
  add_entry none es = es
  add_entry (some e) es = e ∷ es

  -- The entries of the lines that are not blank.
  abbrev pub entries_of : List Text → List IndexEntry
  entries_of [] = []
  entries_of (raw ∷ raws) = add_entry (parse_line raw) (entries_of raws)

  abbrev pub stripped : Text → Text
  stripped raw = strip t.cascade.unicode (without_bom raw)

  -- The lines with content.
  abbrev pub content_lines : List Text → List Text
  content_lines [] = []
  content_lines (raw ∷ raws) =
      let rest = content_lines raws in if is_empty (stripped raw) then rest else stripped raw ∷ rest

  abbrev pub index_of : List Text → DedupIndex
  index_of raws = record {
    entries = entries_of raws;
    site_index_available = is_empty raws || not (is_empty (entries_of raws));
  }

  unfoldable pub load_site_index : Option Text → DedupIndex
  unfolding parse_line
  load_site_index none = record { entries = []; site_index_available = false }
  load_site_index (some text) = index_of (content_lines (split_lines text))

-- `_map_to_state`
unfoldable pub map_to_state : DedupStatus → Option JobState × Option ReviewReason
map_to_state Cascade.duplicate = (some duplicate, none)
map_to_state Cascade.uncertain = (some needs_human_review, some dedup)
map_to_state Cascade.unique = (none, none)

abbrev dedup_status_value : DedupStatus → String
dedup_status_value Cascade.duplicate = "duplicate"
dedup_status_value Cascade.uncertain = "uncertain"
dedup_status_value Cascade.unique = "unique"

abbrev reliability_value : DedupReliability → String
reliability_value Cascade.high = "high"
reliability_value Cascade.low = "low"

-- The result of the cascade, with the cache that it leaves.
unfoldable pub take_result : Option (DedupResult × LshCache) → Exec DedupResult
take_result none = raise uncaught
take_result (some (r, c)) = do modify (λ w. record w { lsh_cache = c }); pure r

-- `score_params or DedupScoreParams()`
abbrev pub params_of : Option ScoreParams → ScoreParams
params_of none = default_params
params_of (some p) = p

-- The event of a result, and after it the state.
unfoldable pub record_result :
    Host → String → String → String → DedupResult → Exec (Option JobState)
unfolding map_to_state park
record_result host job_id ts actor result = do
  let target = map_to_state result.status
  append host (
      gate_event ts "dedup" "DEDUP_GATE" job_id actor (
        ("status", str (dedup_status_value result.status))
        ∷ ("reliability", str (reliability_value result.reliability))
        ∷ ("matched_job_ids", arr (items (map (λ m. m.job_id) result.matched_items)))
        ∷ ("review_reason", reason_json target.1)
        ∷ ("warning_count", num (length result.warnings))
        ∷ []))
  park job_id ts target.1 target.0

unfoldable pub run_dedup_gate :
    Host
    → DedupGateTools
    → String
    → Text
    → Text
    → String
    → List DedupQuery
    → String
    → Option ScoreParams
    → Exec (Option JobState)
unfolding load_site_index take_result record_result
run_dedup_gate host t job_id title body ts queries actor score_params = do
  site ← gets (λ w. w.site_index)
  cache ← gets (λ w. w.lsh_cache)
  let index = load_site_index t site
  result ←
      take_result (assess_dedup t.cascade (params_of score_params) title body index queries cache)
  record_result host job_id ts actor result
