-- ===== src/Examples/Media.antt =====
-- The theorems on media, on the review message and on the batch, at values.
use local_content_processor.Prelude.{
  ◌≡◌, ◌↔◌, refl, Option, none, some, List, [], ◌∷◌, ◌++◌, length, keep, not, false,
}
use local_content_processor.Prelude.Texts.{codes, ascii}
use local_content_processor.Core.Errors.{ok}
use local_content_processor.Core.State.{crawled, processed, state_mem, transient_states}
use local_content_processor.Core.Assets.{
  AssetRef, image, video, asset_ok, asset_failed, VideoFacts, finite, judge_video, judge_image,
}
use local_content_processor.Core.Assets.Verdict.{MeetsSpec, judge_video_iff}
use local_content_processor.Storage.World.{World}
use local_content_processor.Storage.Exec.{◌>>=◌, pure, lift, gets, modify_dir}
use local_content_processor.Storage.Audit.{append, tail}
use local_content_processor.Processor.RiskGate.{park}
use local_content_processor.Processor.MediaGate.{
  Validated, spec, usable, read_manifest, validate_images, validate_videos, draw_cover,
  report_media, conclude_media, run_media_gate,
}
use local_content_processor.Processor.MediaGate.Verdict.{verdict_of}
use local_content_processor.Processor.MediaGate.Parking.{parked, run_media_gate_parks}
use local_content_processor.Publisher.Sanitizer.{escape, render_message}
use local_content_processor.Publisher.Sanitizer.Inert.{has_markup}
use local_content_processor.Publisher.Sanitizer.Message.{render_message-inert}
use local_content_processor.Pipeline.Worklist.{batch_summary, process_rows, counts_by_state}
use local_content_processor.Pipeline.Worklist.Summary.{batch_summary-total}
use local_content_processor.Pipeline.Worklist.Batch.{returned, run_each, process_rows-run_each}
use local_content_processor.Examples.Fixtures.{
  host, store, folder, row, draft, tools, media_tools, media_config,
}

abbrev clip : VideoFacts
clip = record {
  codec = some (codes "H264");
  fps = some (finite 30000);
  bitrate_mbps = some (finite 2000);
  width = some 1280;
  height = some 720;
  duration = some 10000;
}

judge_video_iff_example :
    ((judge_video ascii (spec media_tools media_config) clip).state ≡ asset_ok)
    ↔ MeetsSpec ascii (spec media_tools media_config) clip
judge_video_iff_example = judge_video_iff ascii (spec media_tools media_config) clip

clip_passes : (judge_video ascii (spec media_tools media_config) clip).state ≡ asset_ok
unfolding judge_video
clip_passes = refl

-- One image that was fetched, and one that was not.
abbrev assets : List AssetRef
assets =
    record { kind = image; path = codes "1.jpg"; state = asset_ok }
    ∷ record { kind = image; path = codes "2.jpg"; state = asset_failed }
    ∷ []

abbrev media_store : World
media_store = record (store crawled) { dirs = λ k. record folder { manifest = some (some assets) } }

passes :
    (run_media_gate host media_tools media_config "job-1" "t" "system" media_store).0 ≡ ok (none, 1)
unfolding run_media_gate ◌>>=◌ gets lift modify_dir pure validate_images validate_videos judge_image
    conclude_media draw_cover report_media append tail park
passes = refl

run_media_gate_parks_example :
    ((found : Option (List AssetRef)) × (vi : Validated) × (vv : Validated) × (read_manifest
          (some (some assets))
        ≡ ok found)
      × (validate_images media_tools media_config (usable image found) ≡ ok vi)
      × (validate_videos media_tools media_config (usable video found) ≡ ok vv)
      × (none ≡ verdict_of (vi.entries ++ vv.entries))
      × (1 ≡ length (usable image found)))
    × ((run_media_gate host media_tools media_config "job-1" "t" "system" media_store).1.jobs
        ≡ parked "job-1" "t" none media_store.jobs)
run_media_gate_parks_example =
    run_media_gate_parks host media_tools media_config "job-1" "t" "system" none 1 media_store
      passes

as_python : escape (codes "<a'&") ≡ codes "&lt;a&#x27;&amp;"
unfolding escape
as_python = refl

render_message-inert_example :
    has_markup (render_message draft (codes "https://example.org/<x>" ∷ [])) ≡ false
render_message-inert_example = render_message-inert draft (codes "https://example.org/<x>" ∷ [])

batch_summary-total_example :
    (batch_summary (row crawled ∷ row processed ∷ [])).1
    ≡ length
        (keep (λ r. not (state_mem r.state transient_states)) (row crawled ∷ row processed ∷ []))
batch_summary-total_example = batch_summary-total (row crawled ∷ row processed ∷ [])

two_states :
    (batch_summary (row crawled ∷ row processed ∷ [])).0 ≡ ("crawled", 1) ∷ ("processed", 1) ∷ []
unfolding batch_summary counts_by_state
two_states = refl

process_rows-run_each_example :
    process_rows host tools ascii "t" (codes "Title") false (row crawled ∷ []) (store crawled) ≡ (
      ok (
          returned host tools ascii "t"
            (codes "Title")
            false
            (run_each host tools ascii "t"
              (codes "Title")
              false
              (row crawled ∷ [])
              (store crawled)).0),
      (run_each host tools ascii "t" (codes "Title") false (row crawled ∷ []) (store crawled)).1,
    )
process_rows-run_each_example =
    process_rows-run_each host tools ascii "t" (codes "Title") false (row crawled ∷ [])
      (store crawled)
