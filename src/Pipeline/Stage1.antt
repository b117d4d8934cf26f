-- ===== src/Pipeline/Stage1.antt =====
-- `stage1` and `run_until` of src/lcp/pipeline.py: the crawl of a job, and the run up to a draft or a
-- packet.
use local_content_processor.Prelude.{
  String, Bool, true, false, not, ◌&&◌, ◌||◌, Option, none, some, List, [], ◌∷◌, str_eq,
  if◌then◌else◌,
}
use local_content_processor.Prelude.Texts.{Text, text_mem, codes}
use local_content_processor.Core.Errors.{
  Result, ok, err, uncaught, lcp, no_crawler, already_crawled, bad_target,
}
use local_content_processor.Core.State.{
  JobState, new, crawled, crawled_warn, crawl_failed, processed, review_pending, state_eq,
}
use local_content_processor.Core.Draft.{Draft}
use local_content_processor.Storage.World.{
  JobRecord, JobDir, SourceJson, no_source, not_utf8, unreadable, source_file, Host,
}
use local_content_processor.Storage.Exec.{
  Exec, pure, raise, lift, gets, modify_dir, refuse_if, some_or, ◌>>=◌, ◌>>◌,
}
use local_content_processor.Storage.JobStore.{get_job, create_job, set_state, persist_crawl_result}
use local_content_processor.Publisher.ReviewPacket.{build_review_packet}
use local_content_processor.Pipeline.{Stage2Tools, ProcessResult, process}

-- `SourceSpec`, as far as Stage 1 reads it: `url` is none where it is absent or empty.
pub record SourceSpec : Type 0 where
  pub job_id : String
  pub is_url : Bool
  pub url : Option Text

-- What Stage 1 reads of a `RawJobBundle`.
pub record RawJobBundle : Type 0 where
  pub job_status : String
  pub source_html_sha256 : Option String
  pub source_text_sha256 : Option String

-- The crawler, if one is injected; the lower-case scheme of a URL as `urlparse` gives it, none where
-- it raises `ValueError`; and whether the best-effort write of source.json succeeds.
pub record Stage1Tools : Type 0 where
  pub crawler : Option (SourceSpec → Exec RawJobBundle)
  pub scheme : Text → Option Text
  pub source_written : Bool

-- `_CRAWL_STATUS_TO_STATE`, and the default.
unfoldable pub state_of_status : String → JobState
state_of_status status =
    if str_eq status "crawled"
    then crawled
    else if str_eq status "crawled_warn" || str_eq status "needs_revision"
    then crawled_warn
    else crawl_failed

abbrev url_schemes : List Text
url_schemes = codes "http" ∷ codes "https" ∷ []

abbrev of_scheme : Text → Option Text → Result (Option Text)
of_scheme url none = err uncaught
of_scheme url (some scheme) = ok (if text_mem scheme url_schemes then some url else none)

-- The URL that is written to source.json, if the job has one of a known scheme; a URL that cannot be
-- parsed raises.
abbrev pub recorded_url : Stage1Tools → SourceSpec → Result (Option Text)
recorded_url t spec = elim spec.url [
  | none ↦ ok none
  | some url ↦ if spec.is_url then of_scheme url (t.scheme url) else ok none
]

abbrev with_source : Bool → Text → JobDir → JobDir
with_source written url d =
    if written
    then record d { source_json = source_file (record { url = url; platform = some "url" }) }
    else d

-- A file of another platform, of none, or that cannot be read is left as it is; `read_text` raises
-- where the bytes are not UTF-8.
abbrev pub is_own_source : SourceJson → Result Bool
is_own_source no_source = ok true
is_own_source not_utf8 = err uncaught
is_own_source unreadable = ok false
is_own_source (source_file f) = ok (elim f.platform [ none ↦ false | some p ↦ str_eq p "url" ])

module _ (t : Stage1Tools) (spec : SourceSpec) where
  unfoldable pub write_url : Option Text → Exec (Unit {0})
  write_url none = pure tt
  write_url (some url) = modify_dir spec.job_id (with_source t.source_written url)

  -- `_try_write_url_source`
  unfoldable pub try_write_url_source : Exec (Unit {0})
  unfolding write_url
  try_write_url_source = do url ← lift (recorded_url t spec); write_url url

  unfoldable pub overwrite_url : Option Text → Exec (Unit {0})
  unfolding write_url
  overwrite_url none = pure tt
  overwrite_url (some url) = do
    file ← gets (λ w. (w.dirs spec.job_id).source_json)
    own ← lift (is_own_source file)
    if own then write_url (some url) else pure tt

  -- `_try_overwrite_url_source`
  unfoldable pub try_overwrite_url_source : Exec (Unit {0})
  unfolding overwrite_url
  try_overwrite_url_source = do url ← lift (recorded_url t spec); overwrite_url url

  -- What happens before the crawl: a new job is made, a failed one is reset, any other is refused.
  unfoldable pub prepare : String → Option JobRecord → Exec (Unit {0})
  unfolding try_write_url_source try_overwrite_url_source
  prepare ts none = do create_job spec.job_id ts new; try_write_url_source
  prepare ts (some existing) =
      if state_eq existing.state crawl_failed
      then (do try_overwrite_url_source; set_state spec.job_id new ts none none; pure tt)
      else refuse_if (not (state_eq existing.state new)) already_crawled

  -- The record, and the status of the crawl.
  unfoldable pub stage1 : String → Exec (JobRecord × String)
  unfolding prepare
  stage1 ts = do
    crawl ← some_or no_crawler t.crawler
    existing ← get_job spec.job_id
    prepare ts existing
    bundle ← crawl spec
    rec ←
        persist_crawl_result spec.job_id (state_of_status bundle.job_status) ts
          bundle.source_html_sha256 bundle.source_text_sha256
    pure (rec, bundle.job_status)

pub record RunResult : Type 0 where
  pub final_state : JobState
  pub draft : Option Draft

abbrev ended : JobState → Option Draft → RunResult
ended s d = record { final_state = s; draft = d }

module _ (host : Host) (t1 : Stage1Tools) (t2 : Stage2Tools) (spec : SourceSpec) (ts : String) where
  -- The packet of a PROCESSED job; a result without a draft is an internal error.
  unfoldable pub pack : List Text → Option (Option Text) → Option Draft → Exec RunResult
  pack urls cover none = raise lcp
  pack urls cover (some d) = do
    build_review_packet host spec.job_id d ts urls cover "human"
    pure (ended review_pending (some d))

  -- What follows Stage 2.
  unfoldable pub after_process :
      Bool → List Text → Option (Option Text) → ProcessResult → Exec RunResult
  unfolding pack
  after_process to_review urls cover proc =
      if state_eq proc.final_state processed && to_review
      then pack urls cover proc.draft
      else pure (ended proc.final_state proc.draft)

  unfoldable pub run_until :
      String → Text → List Text → Option (Option Text) → Bool → Bool → Exec RunResult
  unfolding stage1 after_process
  run_until target title urls cover ai_copy has_videos = do
    refuse_if (not (str_eq target "draft" || str_eq target "review")) bad_target
    first ← stage1 t1 spec ts
    if state_eq first.0.state crawled || state_eq first.0.state crawled_warn
        then (do
          proc ← process host t2 spec.job_id ts title none ai_copy has_videos
          after_process (str_eq target "review") urls cover proc)
        else pure (ended first.0.state none)
