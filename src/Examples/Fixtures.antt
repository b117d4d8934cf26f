-- ===== src/Examples/Fixtures.antt =====
-- The values that the examples run on.
use local_content_processor.Prelude.{
  subst, eq_of_some, String, true, false, none, some, [], ◌∷◌, length, leb, if◌then◌else◌, keys,
}
use local_content_processor.Prelude.Texts.{Text, codes, ascii}
use local_content_processor.Prelude.Integers.{pos}
use local_content_processor.Core.Errors.{ok, err, dependency}
use local_content_processor.Core.State.{JobState}
use local_content_processor.Core.Draft.{Draft, empty_draft}
use local_content_processor.Core.Lint.{LintConfig}
use local_content_processor.Core.Risk.{RiskInput}
use local_content_processor.Storage.Json.{obj, member, end, str}
use local_content_processor.Core.Assets.{finite}
use local_content_processor.Processor.MediaGate.{MediaTools, MediaConfig, ImageFacts, not_found}
use local_content_processor.Processor.DedupGate.{DedupGateTools}
use local_content_processor.Storage.World.{World, JobRecord, JobDir, Host, no_dir, empty_world}
use local_content_processor.Storage.Exec.{Exec, pure}
use local_content_processor.Storage.Audit.{Event}
use local_content_processor.Storage.Exec.Respects.{Respects, Respects-pure}
use local_content_processor.Storage.Orderly.{Orderly, Orderly-preorder}
use local_content_processor.Pipeline.{Stage2Tools}
use local_content_processor.Pipeline.Stage1.{SourceSpec, RawJobBundle, Stage1Tools}
use local_content_processor.Pipeline.Crawl.{CrawlerLaws}

-- A hash with two values.
abbrev pub short_hash : String
short_hash = "aaaaaaaaaaaaaaaaaaaaaaaaaaaaaaaaaaaaaaaaaaaaaaaaaaaaaaaaaaaaaaaa"

abbrev pub long_hash : String
long_hash = "bbbbbbbbbbbbbbbbbbbbbbbbbbbbbbbbbbbbbbbbbbbbbbbbbbbbbbbbbbbbbbbb"

abbrev pub host : Host
host = record {
  sha256 = λ t. if leb (length t) 3 then short_hash else long_hash;
  canonical = λ o. [];
  has_fcntl = true;
  os_user = "operator";
  pid = 100;
  pid_alive = λ p. false;
  rmtree = λ d. no_dir;
}

abbrev pub lint_config : LintConfig
lint_config = record {
  title_min_chars = 1;
  title_max_chars = 20;
  tag_min_count = 0;
  tag_max_count = 3;
  categories = [];
  hype_words = [];
  min_copy_chars = 40;
  block_copy_num = 1;
  block_copy_den = 2;
  intro_min_chars = 1;
  intro_max_chars = 20;
  event_body_min_chars = 1;
  event_body_max_chars = 20;
  summary_warn_chars = 10;
  summary_error_chars = 20;
  faq_min_count = 1;
  faq_max_count = 3;
  quick_facts_min_count = 1;
  quick_facts_max_count = 3;
}

abbrev pub draft : Draft
draft = record empty_draft {
  title = codes "Title";
  intro = codes "intro";
  event_body = codes "body";
  summary = codes "sum";
  quick_facts = codes "fact" ∷ [];
  faq = record { question = codes "q"; answer = codes "a" } ∷ [];
}

abbrev pub digest : Text → Text
digest [] = []
digest (c ∷ s) = 1 ∷ []

abbrev pub dedup_tools : DedupGateTools
dedup_tools = record {
  cascade = record {
    unicode = ascii;
    sha1 = λ s. s;
    sha256 = digest;
    query = λ lsh m. keys lsh.inserted;
    round = λ q. 0;
  };
  loads = λ s. some (obj (member "job_id" (str "old") end));
  py_str = λ v. "old";
}

abbrev pub media_config : MediaConfig
media_config = record {
  max_video_size_mb = 100;
  video_codec = codes "h264";
  min_video_bitrate_mbps = 1500;
  min_video_fps = 24000;
  max_video_fps = 61000;
  watermark_enabled = false;
}

abbrev pub sharp : ImageFacts
sharp = record { width = 800; height = 600; variance = finite 250000; out_path = codes "1.jpg" }

-- Every image is there and sharp, and there is no video.
abbrev pub media_tools : MediaTools
media_tools = record {
  unicode = ascii;
  config = some media_config;
  image_exists = λ p. true;
  normalize_image = λ p. ok sharp;
  stat = λ p. not_found;
  probe = λ p. err dependency;
  detect_black_segments = λ p. ok [];
  make_cover = λ ps. ok (codes "cover");
  evaluate_cover = λ ps. ok (record { geometry = 0; aesthetic = 1 });
  write_preview = λ ps. ok tt;
  watermark_body = λ ps. ok tt;
}

abbrev pub tools : Stage2Tools
tools = record {
  lint = record { unicode = ascii; config = ok lint_config; grounding_strategy = none };
  media = media_tools;
  dedup = dedup_tools;
  assemble = λ source title. ok draft;
  structural_copy = λ source d. ok d;
}

abbrev pub row : JobState → JobRecord
row s = record {
  job_id = "job-1";
  state = s;
  created_at = "2026-01-01";
  updated_at = "2026-01-01";
  source_html_sha256 = none;
  source_text_sha256 = none;
  error_code = none;
  review_reason = none;
}

-- A store whose one job is in the given state, with the folder of a packet whose hashes fit.
abbrev pub folder : JobDir
folder = record no_dir {
  exists = true;
  draft = some draft;
  source_text = some (codes "source");
  review_manifest = some (record {
    submitted_at = "2026-01-01";
    freeze = some (record {
      body_sha256 = some long_hash;
      title_sha256 = some long_hash;
      cover_sha256 = none;
    });
  });
}

abbrev pub store : JobState → World
store s = record empty_world { jobs = row s ∷ []; dirs = λ k. folder; site_index = some [] }

-- The same with the marker that a dead process has left.
abbrev pub crashed_store : JobState → World
crashed_store s = record (store s) {
  dirs = λ k. record folder { marker = some (some 7); interrupt_count = some (some (pos 4)) };
}

abbrev pub event : Event
event = record {
  ts = "2026-01-01";
  stage = "test";
  event = "TEST";
  job_id = "job-1";
  actor = "operator";
  artifact_sha256 = none;
  extra = [];
}

abbrev pub clean_input : RiskInput
clean_input = record {
  title = codes "News";
  body = codes "A calm day.";
  has_source = true;
  contains_serious_claim = false;
  available = true;
}

-- A crawler that brings a bundle without a write.
abbrev pub crawl_tools : Stage1Tools
crawl_tools = record {
  crawler = some (λ spec. pure (record {
    job_status = "crawled";
    source_html_sha256 = some long_hash;
    source_text_sha256 = none;
  }));
  scheme = λ url. some (codes "https");
  source_written = true;
}

pub crawl_tools-Laws : CrawlerLaws host crawl_tools
crawl_tools-Laws = record {
  law = λ crawl e spec.
      subst (λ (c : SourceSpec → Exec RawJobBundle). Respects (Orderly host) (c spec))
        (eq_of_some _ _ e) (Respects-pure (Orderly-preorder host) _);
}

abbrev pub spec : SourceSpec
spec = record { job_id = "job-1"; is_url = true; url = some (codes "https://example.org") }
