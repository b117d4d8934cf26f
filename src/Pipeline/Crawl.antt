-- ===== src/Pipeline/Crawl.antt =====
-- What Stage 1 promises (src/lcp/pipeline.py): it keeps the store in order and clobbers nothing.
use local_content_processor.Prelude.{
  String, ◌≡◌, Bool, false, Option, none, some, List, [], ◌∷◌, ◌||◌, Option-cases, inl, inr, arith,
}
use local_content_processor.Prelude.Texts.{Text}
use local_content_processor.Core.Errors.{input_validation, no_crawler, already_crawled}
use local_content_processor.Core.State.{new, crawl_failed, state_mem}
use local_content_processor.Core.Draft.{Draft}
use local_content_processor.Storage.World.{World, JobRecord, Host}
use local_content_processor.Storage.Exec.{Exec, ◌>>=◌}
use local_content_processor.Storage.Exec.Respects.{Respects, Respects-bind-some_or}
use local_content_processor.Storage.JobStore.Rows.{find_row}
use local_content_processor.Storage.JobStore.Table.{Refused}
use local_content_processor.Storage.JobStore.{get_job}
use local_content_processor.Storage.Orderly.{Orderly, Orderly-preorder, store_rules}
use local_content_processor.Publisher.Effects.{build_review_packet-Orderly}
use local_content_processor.Pipeline.{Stage2Tools, ProcessResult}
use local_content_processor.Pipeline.Effects.{process-Orderly}
use local_content_processor.Pipeline.Stage1.{
  SourceSpec, RawJobBundle, Stage1Tools, write_url, overwrite_url, try_write_url_source,
  try_overwrite_url_source, prepare, stage1, pack, after_process, run_until,
}

neither_of : (a b : Bool) → (a || (b || false)) ≡ false → (a ≡ false) × (b ≡ false)
neither_of a b h = ground arith

-- What Stage 1 relies on of the crawler: it writes by the store's operations.
pub record CrawlerLaws (host : Host) (t : Stage1Tools) : Type 0 where
  pub law :
      (crawl : SourceSpec → Exec RawJobBundle)
      → t.crawler ≡ some crawl
      → (spec : SourceSpec) → Respects (Orderly host) (crawl spec)

module _ (host : Host) (t : Stage1Tools) (spec : SourceSpec) where
  write_url-Orderly : (url : Option Text) → Respects (Orderly host) (write_url t spec url)
  unfolding write_url
  write_url-Orderly none = search store_rules
  write_url-Orderly (some url) = search store_rules

  overwrite_url-Orderly : (url : Option Text) → Respects (Orderly host) (overwrite_url t spec url)
  unfolding overwrite_url
  overwrite_url-Orderly none = search store_rules
  overwrite_url-Orderly (some url) = search store_rules depth 9

  prepare-Orderly :
      (ts : String) (found : Option JobRecord) → Respects (Orderly host) (prepare t spec ts found)
  unfolding prepare try_write_url_source try_overwrite_url_source
  prepare-Orderly ts none = search (store_rules, write_url-Orderly) depth 9
  prepare-Orderly ts (some r) = search (store_rules, overwrite_url-Orderly) depth 12

  pub stage1-Orderly :
      CrawlerLaws host t → (ts : String) → Respects (Orderly host) (stage1 t spec ts)
  unfolding stage1
  stage1-Orderly laws ts =
      Respects-bind-some_or (Orderly-preorder host) _ t.crawler _
        (λ crawl e. search (store_rules, prepare-Orderly, laws.law crawl e) depth 12)

module _ (host : Host) (t1 : Stage1Tools) (t2 : Stage2Tools) (spec : SourceSpec) (ts : String) where
  pack-Orderly :
      (urls : List Text) (cover : Option (Option Text)) (d : Option Draft)
      → Respects (Orderly host) (pack host t1 t2 spec ts urls cover d)
  unfolding pack
  pack-Orderly urls cover none = search store_rules
  pack-Orderly urls cover (some d) = search (store_rules, build_review_packet-Orderly)

  after_process-Orderly :
      (b : Bool) (urls : List Text) (cover : Option (Option Text)) (p : ProcessResult)
      → Respects (Orderly host) (after_process host t1 t2 spec ts b urls cover p)
  unfolding after_process
  after_process-Orderly b urls cover p = search (store_rules, pack-Orderly)

  pub run_until-Orderly :
      CrawlerLaws host t1
      → (target : String) (title : Text) (urls : List Text) (cover : Option (Option Text))
        (ai v : Bool)
      → Respects (Orderly host) (run_until host t1 t2 spec ts target title urls cover ai v)
  unfolding run_until
  run_until-Orderly l1 target title urls cover ai v =
      search (store_rules, stage1-Orderly, l1, process-Orderly, after_process-Orderly) depth 14

module _ (t : Stage1Tools) (spec : SourceSpec) where
  -- A job that is there and is neither NEW nor CRAWL_FAILED is refused before the crawl: the call
  -- raises, and neither the table nor any folder nor the log is touched.
  pub stage1-Refused :
      (ts : String) (w : World) (r : JobRecord)
      → find_row spec.job_id w.jobs ≡ some r
      → state_mem r.state (new ∷ crawl_failed ∷ []) ≡ false
      → Refused (stage1 t spec ts w) w
  unfolding stage1 ◌>>=◌ get_job prepare
  stage1-Refused ts w r found other = elim (Option-cases t.crawler) [
    | inl absent ↦ (input_validation no_crawler, rw absent)
    | inr (crawl, there) ↦
        let (not_new, not_failed) = neither_of _ _ other in
        (input_validation already_crawled, rw (there, found, not_failed, not_new))
  ]
