-- ===== src/Storage/World.antt =====
-- What the adapters share: the rows of `lcp.db`, the folders under data/jobs, the lines of
-- audit.jsonl, and what the process takes from its host.
use local_content_processor.Prelude.{
  ℕ, String, Bool, true, false, Option, none, List, [], str_eq, if◌then◌else◌,
}
use local_content_processor.Prelude.Integers.{ℤ}
use local_content_processor.Prelude.Texts.{Text}
use local_content_processor.Core.State.{JobState, ReviewReason}
use local_content_processor.Core.Draft.{Draft}
use local_content_processor.Core.Assets.{AssetRef}
use local_content_processor.Core.Dedup.Cache.{LshCache, empty_cache}
use local_content_processor.Storage.Json.{Obj}

-- A row of the table `jobs`, and what `_row_to_record` makes of it.
pub record JobRecord : Type 0 where
  pub job_id : String
  pub state : JobState
  pub created_at : String
  pub updated_at : String
  pub source_html_sha256 : Option String
  pub source_text_sha256 : Option String
  pub error_code : Option String
  pub review_reason : Option ReviewReason

-- The value under "freeze" in review_manifest.json, as `freeze` writes it: each hash is a text or is
-- missing.
pub record Freeze : Type 0 where
  pub body_sha256 : Option String
  pub title_sha256 : Option String
  pub cover_sha256 : Option String

-- review/review_manifest.json; `freeze` is none where the key is missing.
pub record ReviewManifest : Type 0 where
  pub submitted_at : String
  pub freeze : Option Freeze

-- raw/source.json, as far as Stage 1 reads it; `platform` is none where the key is missing.
pub record SourceFile : Type 0 where
  pub url : Text
  pub platform : Option String

-- raw/source.json: absent, a file whose bytes are not UTF-8, one that cannot be read or is no JSON,
-- or one that is read; a value that is no object has no platform.
pub data SourceJson : Type 0 where
  no_source not_utf8 unreadable : SourceJson
  source_file : SourceFile → SourceJson

-- processed/validation_report.json, as far as the program reads it.
pub record MediaReport : Type 0 where
  pub image_count : ℕ
  pub video_count : ℕ

-- The folder of a job. A file is none where it is absent; of a marker or a counter the content is
-- what `int` makes of it, none where it makes nothing; of the manifest, the assets, none where they
-- cannot be read.
pub record JobDir : Type 0 where
  pub exists : Bool
  pub marker : Option (Option ℕ)
  pub interrupt_count : Option (Option ℤ)
  pub source_json : SourceJson
  pub source_text : Option Text
  pub draft : Option Draft
  pub stage_cover : Option Text
  pub review_cover : Option Text
  pub review_title : Option Text
  pub review_message : Option Text
  pub review_manifest : Option ReviewManifest
  pub published_url : Option Text
  pub manifest : Option (Option (List AssetRef))
  pub media_report : Option MediaReport

abbrev pub no_dir : JobDir
no_dir = record {
  exists = false;
  marker = none;
  interrupt_count = none;
  source_json = no_source;
  source_text = none;
  draft = none;
  stage_cover = none;
  review_cover = none;
  review_title = none;
  review_message = none;
  review_manifest = none;
  published_url = none;
  manifest = none;
  media_report = none;
}

-- A line of audit.jsonl: an object, or text that is no JSON.
pub data Line : Type 0 where
  object : Obj → Line
  torn : Line

-- `audit` holds the lines that are not blank, and `audit_ended` says that the file is empty or that its
-- last line ends in a newline. `site_index` is the text of site_index.jsonl, and `lsh_cache` is memory of the process.
pub record World : Type 0 where
  pub jobs : List JobRecord
  pub dirs : String → JobDir
  pub audit : List Line
  pub audit_ended : Bool
  pub site_index : Option Text
  pub lsh_cache : LshCache

abbrev pub empty_world : World
empty_world = record {
  jobs = [];
  dirs = λ k. no_dir;
  audit = [];
  audit_ended = true;
  site_index = none;
  lsh_cache = empty_cache;
}

-- What the host gives: hashlib, `json.dumps` with its keys sorted (`canonical`), the user, the processes, and what `rmtree` leaves of a
-- folder.
pub record Host : Type 0 where
  pub sha256 : Text → String
  pub canonical : Obj → Text
  pub has_fcntl : Bool
  pub os_user : String
  pub pid : ℕ
  pub pid_alive : ℕ → Bool
  pub rmtree : JobDir → JobDir

abbrev pub set_dir : String → JobDir → World → World
set_dir job_id d w = record w { dirs = λ k. if str_eq job_id k then d else w.dirs k }
