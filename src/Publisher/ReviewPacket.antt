-- ===== src/Publisher/ReviewPacket.antt =====
-- src/lcp/adapters/publisher/review_packet.py: the packet that freezes a draft.
use local_content_processor.Prelude.{
  String, true, not, Option, none, some, List, [], ◌∷◌, ◌++◌, map,
}
use local_content_processor.Prelude.Texts.{Text, join_lines}
use local_content_processor.Core.Errors.{unknown_job, not_processed}
use local_content_processor.Core.State.{processed, review_pending, state_eq}
use local_content_processor.Core.Draft.{Draft, faq_texts}
use local_content_processor.Publisher.Sanitizer.{escape_html, render_message}
use local_content_processor.Storage.Json.{str, opt_str}
use local_content_processor.Storage.World.{World, JobDir, Freeze, ReviewManifest, Host}
use local_content_processor.Storage.Exec.{
  Exec, pure, gets, modify_dir, refuse_if, some_or, ◌>>=◌, ◌>>◌,
}
use local_content_processor.Storage.Audit.{append}
use local_content_processor.Storage.JobStore.{get_job, ensure_job_dir, set_state}

-- `_draft_body_text`
unfoldable pub draft_body_text : Draft → Text
draft_body_text d = join_lines (
    d.intro ∷ d.event_body ∷ d.summary ∷ d.quick_facts
    ++ (faq_texts d.faq
        ++ (d.subheads
            ++ (map (λ s. s.caption) d.image_sections
                ++ (map (λ s. s.caption) d.video_sections ++ d.tags)))))

unfoldable pub compute_body_sha256 : Host → Draft → String
unfolding draft_body_text
compute_body_sha256 host d = host.sha256 (draft_body_text d)

unfoldable pub compute_title_sha256 : Host → Draft → String
compute_title_sha256 host d = host.sha256 d.title

-- `_sha256_file` of a file that may be absent.
abbrev pub file_sha256 : Host → Option Text → Option String
file_sha256 host none = none
file_sha256 host (some content) = some (host.sha256 content)

unfoldable pub compute_review_cover_sha256 : Host → String → World → Option String
compute_review_cover_sha256 host job_id w = file_sha256 host (w.dirs job_id).review_cover

-- `read_review_manifest`, and the value under its key "freeze".
abbrev pub freeze_of : Option ReviewManifest → Option Freeze
freeze_of none = none
freeze_of (some m) = m.freeze

-- Where the cover comes from: a file that the caller names, by its content if it is there, or else
-- the cover of Stage 2.
abbrev pub cover_source : Option (Option Text) → JobDir → Option Text
cover_source none d = d.stage_cover
cover_source (some file) d = file

-- `shutil.copyfile` over the cover of the review folder, if there is a cover to copy.
abbrev copy_cover : Option Text → Option Text → Option Text
copy_cover none old = old
copy_cover (some content) old = some content

-- The files of the packet, written one by one.
abbrev pub write_packet : Host → Draft → String → List Text → Option Text → JobDir → JobDir
write_packet host draft submitted_at source_urls cover d = record d {
  exists = true;
  review_cover = copy_cover cover d.review_cover;
  review_title = some (escape_html (some draft.title));
  review_message = some (render_message draft source_urls);
  review_manifest = some (record {
    submitted_at = submitted_at;
    freeze = some (record {
      body_sha256 = some (compute_body_sha256 host draft);
      title_sha256 = some (compute_title_sha256 host draft);
      cover_sha256 = file_sha256 host cover;
    });
  });
}

unfoldable pub build_review_packet :
    Host
    → String
    → Draft
    → String
    → List Text
    → Option (Option Text)
    → String
    → Exec (Option String)
unfolding get_job ensure_job_dir compute_body_sha256 compute_title_sha256
build_review_packet host job_id draft submitted_at source_urls processed_cover actor = do
  found ← get_job job_id
  current ← some_or unknown_job found
  refuse_if (not (state_eq current.state processed)) not_processed
  ensure_job_dir job_id
  cover ← gets (λ w. cover_source processed_cover (w.dirs job_id))
  modify_dir job_id (write_packet host draft submitted_at source_urls cover)
  set_state job_id review_pending submitted_at none none
  append host (record {
    ts = submitted_at;
    stage = "review";
    event = "REVIEW_PACKET_BUILT";
    job_id = job_id;
    actor = actor;
    artifact_sha256 = some (compute_body_sha256 host draft);
    extra =
        ("title_sha256", str (compute_title_sha256 host draft))
        ∷ ("cover_sha256", opt_str (file_sha256 host cover))
        ∷ ("review_status", str "pending")
        ∷ [];
  })
  pure (file_sha256 host cover)
