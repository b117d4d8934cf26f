-- ===== src/Core/Dedup/Cascade.antt =====
-- src/lcp/core/rules/dedup_rules.py: the cascade from the title to the body. A threshold is in
-- thousandths.
pub mod Verdict
use local_content_processor.Prelude.{
  ℕ, ◌*◌, String, Bool, true, false, not, ◌&&◌, ◌||◌, Option, none, some, List, [], ◌∷◌, ◌++◌,
  is_empty, leb, ltb, str_eq, if◌then◌else◌,
}
use local_content_processor.Prelude.Texts.{Text, text_eq, Unicode, strip, some_text}
use local_content_processor.Core.Dedup.{
  Stage, title_hash_stage, minhash_lsh, MatchedItem, IndexEntry, DedupIndex, DedupQuery,
  normalize_title, exact_jaccard,
}
use local_content_processor.Core.Dedup.Cache.{
  MinHash, MinHashLsh, Signatures, LshCache, build_minhash, build_lsh, Found, get_or_build_lsh,
}

pub data DedupStatus : Type 0 where
  unique duplicate uncertain : DedupStatus

pub data DedupReliability : Type 0 where
  high low : DedupReliability

-- `decision_reason`, with the thresholds that it prints.
pub data DecisionReason : Type 0 where
  title_match no_site_index not_seen : DecisionReason
  body_match : ℕ → DecisionReason
  body_similar : ℕ → ℕ → DecisionReason

pub data DedupWarning : Type 0 where
  site_index_unavailable : DedupWarning

pub record DedupResult : Type 0 where
  pub status : DedupStatus
  pub matched_items : List MatchedItem
  pub queries : List DedupQuery
  pub decision_reason : DecisionReason
  pub reliability : DedupReliability
  pub warnings : List DedupWarning

-- The thresholds of the cascade; `DedupScoreParams` of the gate.
pub record ScoreParams : Type 0 where
  pub duplicate_jaccard : ℕ
  pub uncertain_jaccard : ℕ
  pub lsh_threshold : ℕ
  pub num_perm : ℕ
  pub k : ℕ

abbrev pub default_params : ScoreParams
default_params = record {
  duplicate_jaccard = 800;
  uncertain_jaccard = 500;
  lsh_threshold = 500;
  num_perm = 128;
  k = 3;
}

-- What the cascade takes from its libraries: the tables of characters, the hexadecimal digests of
-- hashlib, the candidates that datasketch finds, and Python's `round(j, 4)` of a quotient, in
-- ten-thousandths.
pub record DedupTools : Type 0 where
  pub unicode : Unicode
  pub sha1 : Text → Text
  pub sha256 : Text → Text
  pub query : MinHashLsh → MinHash → List String
  pub round : ℕ × ℕ → ℕ

-- `j >= threshold`
abbrev pub at_least : ℕ × ℕ → ℕ → Bool
at_least j threshold = leb (threshold * j.1) (1000 * j.0)

abbrev reliability_of : DedupIndex → DedupReliability
reliability_of index = if index.site_index_available then high else low

abbrev warnings_of : DedupIndex → List DedupWarning
warnings_of index = if index.site_index_available then [] else site_index_unavailable ∷ []

-- `(item.jaccard or 0)`
abbrev item_score : MatchedItem → ℕ
item_score item = elim item.jaccard [ none ↦ 0 | some n ↦ n ]

-- `best` and `uncertain_hits`
pub record Hits : Type 0 where
  pub best : Option MatchedItem
  pub uncertain_hits : List MatchedItem

abbrev better : MatchedItem → Option MatchedItem → Option MatchedItem
better item none = some item
better item (some best) = if ltb (item_score best) (item_score item) then some item else some best

-- `body_by_id.get(cid, "")`: of entries with the same identifier the last one counts.
abbrev later_body : IndexEntry → String → Option Text → Option Text
later_body e cid none = if str_eq e.job_id cid then some e.body else none
later_body e cid (some t) = some t

abbrev body_by_id : List IndexEntry → String → Option Text
body_by_id [] cid = none
body_by_id (e ∷ es) cid = later_body e cid (body_by_id es cid)

abbrev body_or_empty : Option Text → Text
body_or_empty none = []
body_or_empty (some t) = t

-- `sha1` of the normalized title
unfoldable pub title_hash : DedupTools → Text → Text
title_hash t title = t.sha1 (normalize_title t.unicode title)

module _ (t : DedupTools) (title : Text) where
  -- The test of the first stage; a title that is normalized to nothing matches nothing.
  unfoldable pub matches_title : IndexEntry → Bool
  unfolding title_hash
  matches_title e =
      some_text (normalize_title t.unicode title)
      && some_text (normalize_title t.unicode e.title)
      && text_eq (title_hash t e.title) (title_hash t title)

  abbrev title_hit : List IndexEntry → Option IndexEntry
  title_hit [] = none
  title_hit (e ∷ es) = let rest = title_hit es in if matches_title e then some e else rest

-- The item of a candidate.
abbrev candidate : String → ℕ → MatchedItem
candidate cid score = record { job_id = cid; stage = minhash_lsh; jaccard = some score }

module _ (t : DedupTools) (p : ScoreParams) (body : Text) (index : DedupIndex) where
  -- The similarity of the body and the body of a candidate.
  unfoldable pub similarity : String → ℕ × ℕ
  similarity cid = exact_jaccard t.unicode body (body_or_empty (body_by_id index.entries cid)) p.k

  unfoldable pub weigh : String → Hits → Hits
  unfolding similarity
  weigh cid h =
      let j = similarity cid in
      let item = candidate cid (t.round j) in
      if at_least j p.duplicate_jaccard
      then record h { best = better item h.best }
      else if at_least j p.uncertain_jaccard
      then record h { uncertain_hits = h.uncertain_hits ++ item ∷ [] }
      else h

  -- The loop over the candidates.
  abbrev weigh_all : List String → Hits → Hits
  weigh_all [] h = h
  weigh_all (cid ∷ cids) h = weigh_all cids (weigh cid h)

  abbrev pub candidate_ids : MinHashLsh × Signatures → List String
  candidate_ids (lsh, signatures) =
      if is_empty signatures then [] else t.query lsh (build_minhash t.unicode body p.num_perm p.k)

  -- Whether the second stage is entered.
  abbrev pub has_bodies : Bool
  has_bodies = not (is_empty (strip t.unicode body)) && not (is_empty index.entries)

module _ (index : DedupIndex) (queries : List DedupQuery) where
  abbrev result : DedupStatus → List MatchedItem → DecisionReason → DedupResult
  result status matched reason = record {
    status = status;
    matched_items = matched;
    queries = queries;
    decision_reason = reason;
    reliability = reliability_of index;
    warnings = warnings_of index;
  }

  -- The end of the cascade: where the site index is not there, nothing is unique.
  abbrev no_match : DedupResult
  no_match =
      if index.site_index_available
      then result unique [] not_seen
      else result uncertain [] no_site_index

  abbrev conclude : ScoreParams → Option MatchedItem → List MatchedItem → DedupResult
  conclude p (some best) hits = result duplicate (best ∷ []) (body_match p.duplicate_jaccard)
  conclude p none (hit ∷ hits) =
      result uncertain (hit ∷ hits) (body_similar p.uncertain_jaccard p.duplicate_jaccard)
  conclude p none [] = no_match

  abbrev title_result : IndexEntry → DedupResult
  title_result e =
      result duplicate (record { job_id = e.job_id; stage = title_hash_stage; jaccard = none } ∷ [])
        title_match

module _ (t : DedupTools) (p : ScoreParams) (title body : Text) (index : DedupIndex)
    (queries : List DedupQuery) where
  -- The second stage, from the signatures on.
  unfoldable pub compare_bodies : MinHashLsh × Signatures → DedupResult
  unfolding weigh
  compare_bodies built =
      let h =
        weigh_all t p body index (candidate_ids t p body index built)
          (record { best = none; uncertain_hits = [] }) in
      conclude index queries p h.best h.uncertain_hits

  abbrev compared : Found → Option (DedupResult × LshCache)
  compared none = none
  compared (some (built, c)) = some (compare_bodies built, c)

  abbrev second_stage : LshCache → Option (DedupResult × LshCache)
  second_stage c =
      let found = get_or_build_lsh t.unicode t.sha256 index p.lsh_threshold p.num_perm p.k c in
      if has_bodies t p body index then compared found else some (no_match index queries, c)

  abbrev first_stage : Option IndexEntry → LshCache → Option (DedupResult × LshCache)
  first_stage none c = second_stage c
  first_stage (some e) c = some (title_result index queries e, c)

  -- None where an operation on a dictionary of the cache raises.
  unfoldable pub assess_dedup : LshCache → Option (DedupResult × LshCache)
  unfolding matches_title compare_bodies get_or_build_lsh
  assess_dedup c = first_stage (title_hit t title index.entries) c
