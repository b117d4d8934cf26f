-- ===== src/Processor/MediaGate.antt =====
-- src/lcp/adapters/processor/media_checker.py: the gate on the images and videos of a job. What it
-- measures and draws is a parameter; which assets pass is not.
pub mod Verdict
pub mod Parking
use local_content_processor.Prelude.{
  ℕ, ◌+◌, ◌*◌, String, Bool, true, false, not, ◌&&◌, ◌||◌, Option, none, some, List, [], ◌∷◌, ◌++◌,
  is_empty, keep, length, take, ltb, if◌then◌else◌,
}
use local_content_processor.Prelude.Texts.{Text, Unicode}
use local_content_processor.Core.Errors.{Result, ok, err, input_validation, external_service}
use local_content_processor.Core.State.{JobState, needs_revision}
use local_content_processor.Core.Assets.{
  AssetKind, image, video, AssetState, asset_ok, asset_failed, asset_needs_revision, AssetRef,
  AssetReason, file_missing, undecodable, size_unreadable, probe_failed, blackdetect_failed,
  video_large, Float, VideoFacts, VideoSpec, Decision, decide, is_ok, judge_image, judge_video,
  judge_black_segments,
}
use local_content_processor.Core.Assets
use local_content_processor.Storage.Json.{num, str, bool}
use local_content_processor.Storage.World.{World, JobDir, MediaReport, Host}
use local_content_processor.Storage.Exec.{Exec, pure, raise, lift, gets, modify_dir, ◌>>=◌, ◌>>◌}
use local_content_processor.Storage.Audit.{append}
use local_content_processor.Processor.DraftLinter.{gate_event}
use local_content_processor.Processor.RiskGate.{park}

-- The part of `MediaConfig` and `WatermarkConfig` that the gate reads.
pub record MediaConfig : Type 0 where
  pub max_video_size_mb : ℕ
  pub video_codec : Text
  pub min_video_bitrate_mbps : ℕ
  pub min_video_fps : ℕ
  pub max_video_fps : ℕ
  pub watermark_enabled : Bool

-- `media_presence`: whether there are images, and whether there are videos.
unfoldable pub media_presence : JobDir → Bool × Bool
media_presence d = counted d.media_report
  where
    counted : Option MediaReport → Bool × Bool
    counted none = (false, false)
    counted (some r) = (ltb 0 r.image_count, ltb 0 r.video_count)

-- A normalized image, as it is measured.
pub record ImageFacts : Type 0 where
  pub width : ℕ
  pub height : ℕ
  pub variance : Float
  pub out_path : Text

pub data Stat : Type 0 where
  size_bytes : ℕ → Stat
  not_found unreadable : Stat

pub record CoverAdvisory : Type 0 where
  pub geometry : ℕ
  pub aesthetic : ℕ

-- What the gate takes from normalizer.py, ffprobe.py, cover_checks.py and watermark.py, for a file of
-- the job's folder: each may raise. `make_cover` gives the content of the cover.
pub record MediaTools : Type 0 where
  pub unicode : Unicode
  pub config : Option MediaConfig
  pub image_exists : Text → Bool
  pub normalize_image : Text → Result ImageFacts
  pub stat : Text → Stat
  pub probe : Text → Result VideoFacts
  pub detect_black_segments : Text → Result (List (ℕ × ℕ))
  pub make_cover : List Text → Result Text
  pub evaluate_cover : List Text → Result CoverAdvisory
  pub write_preview : List Text → Result (Unit {0})
  pub watermark_body : List Text → Result (Unit {0})

-- An entry of the report.
pub record Entry : Type 0 where
  pub kind : AssetKind
  pub path : Text
  pub state : AssetState
  pub reasons : List AssetReason

abbrev entry_of : AssetKind → Text → Decision → Entry
entry_of kind path d = record { kind = kind; path = path; state = d.state; reasons = d.reasons }

abbrev failed : AssetReason → Decision
failed r = record { state = asset_failed; reasons = r ∷ [] }

-- The entries so far, and the outputs of the images that are fine.
pub record Validated : Type 0 where
  pub entries : List Entry
  pub ok_outputs : List Text
  pub needs_revision : Bool

abbrev none_validated : Validated
none_validated = record { entries = []; ok_outputs = []; needs_revision = false }

abbrev outputs_with : Decision → Text → List Text → List Text
outputs_with d out outs = if is_ok d.state then out ∷ outs else outs

-- One asset more, before the later ones.
abbrev add_entry : AssetKind → Text → Decision → List Text → Result Validated → Result Validated
add_entry kind path d outs (err e) = err e
add_entry kind path d outs (ok v) = ok (record {
  entries = entry_of kind path d ∷ v.entries;
  ok_outputs = outs ++ v.ok_outputs;
  needs_revision = not (is_ok d.state) || v.needs_revision;
})

module _ (t : MediaTools) (c : MediaConfig) where
  abbrev judged_image : ImageFacts → Decision
  judged_image f = judge_image f.width f.height (some f.variance) 640 360 100000

  -- The rest of the loop runs only where the image raises no other error.
  abbrev image_step : Text → Result ImageFacts → Result Validated → Result Validated
  image_step path (ok f) rest =
      add_entry image path (judged_image f)
        (if is_ok (judged_image f).state then f.out_path ∷ [] else []) rest
  image_step path (err (input_validation r)) rest =
      add_entry image path (failed undecodable) [] rest
  image_step path (err e) rest = err e

  unfoldable pub validate_images : List AssetRef → Result Validated
  unfolding judge_image
  validate_images [] = ok none_validated
  validate_images (a ∷ assets) =
      let rest = validate_images assets in
      if t.image_exists a.path
      then image_step a.path (t.normalize_image a.path) rest
      else add_entry image a.path (failed file_missing) [] rest

  abbrev pub spec : VideoSpec
  spec = record {
    codec = c.video_codec;
    min_bitrate_mbps = c.min_video_bitrate_mbps;
    min_fps = c.min_video_fps;
    max_fps = c.max_video_fps;
    min_width = 640;
    min_height = 360;
  }

  -- `size_mb > max_video_size_mb`
  abbrev large : ℕ → List AssetReason
  large bytes = if ltb (c.max_video_size_mb * 1048576) bytes then video_large bytes ∷ [] else []

  abbrev black_part : VideoFacts → Result (List (ℕ × ℕ)) → Result (List AssetReason)
  black_part v (ok intervals) = ok (judge_black_segments intervals v.duration).reasons
  black_part v (err external_service) = ok (blackdetect_failed ∷ [])
  black_part v (err e) = err e

  abbrev video_reasons :
      List AssetReason → List AssetReason → Result (List AssetReason) → Result Decision
  video_reasons size facts (ok black) = ok (decide (size ++ (facts ++ black)))
  video_reasons size facts (err e) = err e

  abbrev probed : Text → ℕ → Result VideoFacts → Result Decision
  probed path bytes (ok v) =
      video_reasons (large bytes) (judge_video t.unicode spec v).reasons
        (black_part v (t.detect_black_segments path))
  probed path bytes (err external_service) =
      ok (record { state = asset_needs_revision; reasons = large bytes ++ probe_failed ∷ [] })
  probed path bytes (err e) = err e

  unfoldable pub judge_file : Text → Stat → Result Decision
  unfolding judge_video judge_black_segments
  judge_file path not_found = ok (failed file_missing)
  judge_file path unreadable =
      ok (record { state = asset_needs_revision; reasons = size_unreadable ∷ [] })
  judge_file path (size_bytes n) = probed path n (t.probe path)

  abbrev video_step : Text → Result Decision → Result Validated → Result Validated
  video_step path (ok d) rest = add_entry video path d [] rest
  video_step path (err e) rest = err e

  unfoldable pub validate_videos : List AssetRef → Result Validated
  unfolding judge_file
  validate_videos [] = ok none_validated
  validate_videos (a ∷ assets) =
      let rest = validate_videos assets in
      video_step a.path (judge_file a.path (t.stat a.path)) rest

abbrev is_kind : AssetKind → AssetKind → Bool
is_kind image image = true
is_kind video video = true
is_kind Assets.text Assets.text = true
is_kind _ _ = false

-- The assets of one kind that the crawl has fetched.
abbrev pub usable : AssetKind → Option (List AssetRef) → List AssetRef
usable k none = []
usable k (some assets) = keep (λ a. is_kind a.kind k && is_ok a.state) assets

abbrev pub failing : List Entry → List Entry
failing = keep (λ e. not (is_ok e.state))

abbrev media_status : Bool → String
media_status true = "needs_revision"
media_status false = "pass"

-- The cover of the clean images, and after it the watermark on each of them.
unfoldable pub draw_cover : MediaTools → MediaConfig → String → List Text → Exec ℕ
draw_cover t c job_id [] = pure 0
draw_cover t c job_id (p ∷ ps) = do
  cover ← lift (t.make_cover (take 4 (p ∷ ps)))
  modify_dir job_id (λ d. record d { stage_cover = some cover })
  advisory ← lift (t.evaluate_cover (take 4 (p ∷ ps)))
  lift (t.write_preview (take 4 (p ∷ ps)))
  if c.watermark_enabled then lift (t.watermark_body (p ∷ ps)) else pure tt
  pure (advisory.geometry + advisory.aesthetic)

-- `read_manifest`: a file that cannot be read is an error of a service.
abbrev pub read_manifest : Option (Option (List AssetRef)) → Result (Option (List AssetRef))
read_manifest none = ok none
read_manifest (some none) = err external_service
read_manifest (some (some assets)) = ok (some assets)

module _ (host : Host) (t : MediaTools) (c : MediaConfig) (job_id ts actor : String) where
  -- The report, the event and the state.
  unfoldable pub report_media : ℕ → ℕ → Bool → ℕ → List Entry → Bool → Exec (Option JobState)
  unfolding park
  report_media images videos has_cover advisories entries revise = do
    modify_dir job_id (λ d. record d {
      media_report = some (record { image_count = images; video_count = videos });
    })
    append host (
        gate_event ts "process" "MEDIA_GATE" job_id actor (
          ("image_count", num images)
          ∷ ("video_count", num videos)
          ∷ ("needs_revision_count", num (length (failing entries)))
          ∷ ("has_cover", bool has_cover)
          ∷ ("watermarked", bool c.watermark_enabled)
          ∷ ("cover_advisory_count", num advisories)
          ∷ ("status", str (media_status revise))
          ∷ []))
    park job_id ts none (if revise then some needs_revision else none)

  -- What follows the two passes.
  unfoldable pub conclude_media : ℕ → ℕ → Validated → Validated → Exec (Option JobState × ℕ)
  unfolding draw_cover report_media
  conclude_media images videos vi vv = do
    advisories ← draw_cover t c job_id vi.ok_outputs
    out ←
        report_media images videos (not (is_empty vi.ok_outputs)) advisories
          (vi.entries ++ vv.entries) (vi.needs_revision || vv.needs_revision)
    pure (out, images)

  -- The state, and the number of images for the report of the chain.
  unfoldable pub run_media_gate : Exec (Option JobState × ℕ)
  unfolding validate_images validate_videos conclude_media
  run_media_gate = do
    file ← gets (λ w. (w.dirs job_id).manifest)
    assets ← lift (read_manifest file)
    let images = usable image assets
    let videos = usable video assets
    vi ← lift (validate_images t c images)
    vv ← lift (validate_videos t c videos)
    conclude_media (length images) (length videos) vi vv
