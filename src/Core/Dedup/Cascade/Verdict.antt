-- ===== src/Core/Dedup/Cascade/Verdict.antt =====
-- When the cascade of dedup_rules.py calls an article new: an independent description.
use local_content_processor.Prelude.{
  ◌≡◌, ◌↔◌, refl, sym, ap, ◌∙◌, inl, inr, String, Bool, true, false, not, ◌&&◌, Option, none, some,
  List, [], ◌∷◌, ◌++◌, Option-cases, Bool-cases, if◌then◌else◌, all, is_empty, arith, is_some,
}
use local_content_processor.Prelude.Members.{all_iff}
use mathlib.Core.List.{Memᴰ}
use local_content_processor.Prelude.Texts.{Text}
use local_content_processor.Core.Dedup.{MatchedItem, IndexEntry, DedupIndex, DedupQuery}
use local_content_processor.Core.Dedup.Cache.{MinHashLsh, Signatures, LshCache, build_lsh}
use local_content_processor.Core.Dedup.Cache.Invariant.{Synced}
use local_content_processor.Core.Dedup.Cache.Fresh.{
  Genuine, NoClash, Genuine-more, get_or_build_lsh-build_lsh,
}
use local_content_processor.Core.Dedup.Cascade.{
  unique, DedupTools, ScoreParams, DedupResult, at_least, matches_title, title_hit, similarity,
  weigh, weigh_all, Hits, conclude, no_match, candidate, better, candidate_ids, compare_bodies,
  has_bodies, assess_dedup, title_result,
}

module _ (t : DedupTools) (title : Text) where
  title_hit-is_some :
      (es : List IndexEntry)
      → is_some (title_hit t title es) ≡ not (all (λ e. not (matches_title t title e)) es)
  title_hit-is_some [] = refl
  title_hit-is_some (e ∷ es) = ground (arith, title_hit-is_some es)

abbrev is_clean : Hits → Bool
is_clean h = not (is_some h.best) && is_empty h.uncertain_hits

and_assoc : (a b c : Bool) → ((a && b) && c) ≡ (a && (b && c))
and_assoc true b c = refl
and_assoc false b c = refl

-- What one candidate does to a clean state, for the two tests of it.
abbrev hits_of : Option MatchedItem → List MatchedItem → Hits
hits_of best hits = record { best = best; uncertain_hits = hits }

weighed :
    (a b : Bool) (item : MatchedItem) (best : Option MatchedItem) (hits : List MatchedItem)
    → is_clean (
        if a
        then hits_of (better item best) hits
        else if b
        then hits_of best (hits ++ item ∷ [])
        else hits_of best hits)
      ≡ (is_clean (hits_of best hits) && (not a && not b))
weighed true b item none hits = ground arith
weighed true b item (some x) hits = ground arith
weighed false true item none [] = refl
weighed false true item none (x ∷ hits) = refl
weighed false true item (some x) hits = refl
weighed false false item best hits = ground arith

module _ (t : DedupTools) (p : ScoreParams) (body : Text) (index : DedupIndex) where
  -- The candidate is as similar as neither threshold.
  abbrev pub is_far : String → Bool
  is_far cid =
      not (at_least (similarity t p body index cid) p.duplicate_jaccard)
      && not (at_least (similarity t p body index cid) p.uncertain_jaccard)

  weigh-is_clean :
      (cid : String) (h : Hits) → is_clean (weigh t p body index cid h) ≡ (is_clean h && is_far cid)
  unfolding weigh
  weigh-is_clean cid h =
      weighed (at_least (similarity t p body index cid) p.duplicate_jaccard)
        (at_least (similarity t p body index cid) p.uncertain_jaccard)
        (candidate cid (t.round (similarity t p body index cid))) h.best h.uncertain_hits

  weigh_all-is_clean :
      (cids : List String) (h : Hits)
      → is_clean (weigh_all t p body index cids h) ≡ (is_clean h && all is_far cids)
  weigh_all-is_clean [] h = ground arith
  weigh_all-is_clean (cid ∷ cids) h =
      weigh_all-is_clean cids (weigh t p body index cid h)
      ∙ ap (λ b. b && all is_far cids) (weigh-is_clean cid h)
      ∙ and_assoc (is_clean h) (is_far cid) (all is_far cids)

no_match-unique :
    (index : DedupIndex) (queries : List DedupQuery)
    → ((no_match index queries).status ≡ unique) ↔ (index.site_index_available ≡ true)
no_match-unique index queries = elim (Bool-cases index.site_index_available) [
  | inl e ↦ ((λ h. e), (λ h. rw e))
  | inr e ↦ ((λ h. cc (h, e)), (λ h. cc (h, e)))
]

module _ (t : DedupTools) (p : ScoreParams) (title body : Text) (index : DedupIndex)
    (queries : List DedupQuery) where
  -- A new article: there is a site index, no entry has its title, and no candidate for its body is as
  -- similar as either threshold.
  pub record IsNew : Type 0 where
    pub indexed : index.site_index_available ≡ true
    pub title_new : (e : IndexEntry) → Memᴰ e index.entries → not (matches_title t title e) ≡ true
    pub body_new :
        has_bodies t p body index ≡ true
        → (cid : String)
        → Memᴰ cid (
            candidate_ids t p body index (build_lsh t.unicode index p.lsh_threshold p.num_perm p.k))
        → is_far t p body index cid ≡ true

  abbrev built : MinHashLsh × Signatures
  built = build_lsh t.unicode index p.lsh_threshold p.num_perm p.k

  conclude-unique :
      (h : Hits)
      → ((conclude index queries p h.best h.uncertain_hits).status ≡ unique)
        ↔ ((index.site_index_available ≡ true) × (is_clean h ≡ true))
  conclude-unique h = concluded h.best h.uncertain_hits
    where
      concluded :
          (best : Option MatchedItem) (hits : List MatchedItem)
          → ((conclude index queries p best hits).status ≡ unique)
            ↔ ((index.site_index_available ≡ true) × (is_clean (hits_of best hits) ≡ true))
      concluded (some x) hits = ((λ h. cc h), (λ h. cc (h.1)))
      concluded none (x ∷ hits) = ((λ h. cc h), (λ h. cc (h.1)))
      concluded none [] = (
        (λ h. ((no_match-unique index queries).0 h, refl)),
        (λ h. (no_match-unique index queries).1 h.0),
      )

  compare_bodies-unique :
      (b : MinHashLsh × Signatures)
      → ((compare_bodies t p title body index queries b).status ≡ unique) ↔ (
          (index.site_index_available ≡ true)
          × (all (is_far t p body index) (candidate_ids t p body index b) ≡ true))
  unfolding compare_bodies
  compare_bodies-unique b =
      let ids = candidate_ids t p body index b in
      let start = hits_of none [] in
      let clean = weigh_all-is_clean t p body index ids start in
      let r = conclude-unique (weigh_all t p body index ids start) in
      ((λ h. let out = r.0 h in (out.0, sym clean ∙ out.1)), (λ h. r.1 (h.0, clean ∙ h.1)))

  titles_new :
      title_hit t title index.entries ≡ none
      ↔ ((e : IndexEntry) → Memᴰ e index.entries → not (matches_title t title e) ≡ true)
  titles_new =
      let every = all_iff (λ e. not (matches_title t title e)) index.entries in
      let hit = title_hit-is_some t title index.entries in
      (
        (λ h. every.0 (ground (arith, hit, ap is_some h))),
        (λ h. elim (Option-cases (title_hit t title index.entries)) [
          | inl e ↦ e
          | inr (e, found) ↦ absurd (ground (arith, hit, ap is_some found, every.1 h))
        ]),
      )

  -- On a cache that calls with one size of shingles have filled, none of whose indexes has the
  -- fingerprint of this one and other signatures, the cascade raises no error, leaves such a cache,
  -- and calls the article unique exactly where it is new.
  pub assess_dedup-unique :
      (asked : List DedupIndex) (c : LshCache)
      → Synced c
      → Genuine t.unicode t.sha256 p.k asked c
      → NoClash t.unicode t.sha256 p.k asked index p.lsh_threshold p.num_perm
      → (r : DedupResult) × (c' : LshCache) × (assess_dedup t p title body index queries c
          ≡ some (r, c'))
        × Synced c'
        × Genuine t.unicode t.sha256 p.k (index ∷ asked) c'
        × ((r.status ≡ unique) ↔ IsNew)
  unfolding assess_dedup
  assess_dedup-unique asked c synced genuine no_clash =
      let kept = Genuine-more t.unicode t.sha256 p.k asked index c genuine in
      let far = all_iff (is_far t p body index) (candidate_ids t p body index built) in
      elim (Option-cases (title_hit t title index.entries)) [
        | inr (e, hit) ↦ (
          title_result index queries e,
          c,
          rw hit,
          synced,
          kept,
          ((λ h. cc h), (λ h. cc (titles_new.1 h.title_new, hit))),
        )
        | inl new ↦ elim (Bool-cases (has_bodies t p body index)) [
          | inl bodies ↦
              let r =
                get_or_build_lsh-build_lsh t.unicode t.sha256 p.k asked index p.lsh_threshold
                  p.num_perm c synced genuine no_clash in
              (
                compare_bodies t p title body index queries built,
                r.0,
                rw (new, bodies, r.1),
                r.2,
                r.3,
                (
                  (λ h.
                      let out = (compare_bodies-unique built).0 h in
                      record {
                        indexed = out.0;
                        title_new = titles_new.0 new;
                        body_new = λ entered. far.0 out.1;
                      }),
                  (λ h. (compare_bodies-unique built).1 (h.indexed, far.1 (h.body_new bodies))),
                ),
              )
          | inr skipped ↦ (
            no_match index queries,
            c,
            rw (new, skipped),
            synced,
            kept,
            (
              (λ h. record {
                indexed = (no_match-unique index queries).0 h;
                title_new = titles_new.0 new;
                body_new = λ entered. cc (entered, skipped);
              }),
              (λ h. (no_match-unique index queries).1 h.indexed),
            ),
          )
        ]
      ]
