-- ===== src/Publisher/Binding.antt =====
-- The packet of a draft binds that draft (src/lcp/adapters/publisher/review_packet.py, signoff.py).
use local_content_processor.Prelude.{
  String, ◌≡◌, refl, ap, ◌∙◌, true, false, Option, none, some, List, Option-cases, Bool-cases, inl,
  inr, subst, str_eq_refl,
}
use local_content_processor.Prelude.Texts.{Text}
use local_content_processor.Core.Errors.{ok, Result-cases}
use local_content_processor.Core.State.{processed, review_pending, state_eq}
use local_content_processor.Core.Draft.{Draft}
use local_content_processor.Storage.World.{World, JobDir, Host, set_dir}
use local_content_processor.Storage.Exec.{pure, ◌>>=◌, ◌>>◌}
use local_content_processor.Storage.Audit.{Event, append}
use local_content_processor.Storage.Audit.Chain.{append_elsewhere}
use local_content_processor.Storage.JobStore.Rows.{find_row, update_row}
use local_content_processor.Storage.JobStore.{get_job, ensure_job_dir, set_state, with_state}
use local_content_processor.Storage.JobStore.Table.{set_state_outcome}
use local_content_processor.Publisher.ReviewPacket.{
  build_review_packet, write_packet, cover_source, freeze_of, file_sha256, compute_body_sha256,
  compute_title_sha256, compute_review_cover_sha256,
}
use local_content_processor.Publisher.Signoff.{cover_differs}

module _ (host : Host) (job_id : String) (draft : Draft) (cover : Option String) where
  -- The hashes of a draft and of the cover in the folder are those that the packet has frozen.
  pub record BoundPacket (w : World) : Type 0 where
    pub frozen :
        freeze_of (w.dirs job_id).review_manifest
        ≡ some (record {
          body_sha256 = some (compute_body_sha256 host draft);
          title_sha256 = some (compute_title_sha256 host draft);
          cover_sha256 = cover;
        })
    pub same_cover : cover_differs cover (compute_review_cover_sha256 host job_id w) ≡ false

module _ (host : Host) (job_id : String) (draft : Draft) (ts : String) (urls : List Text) where
  -- The folder right after the packet's files have been written.
  written_packet :
      (cover : Option Text) (w v : World)
      → v.dirs ≡ (set_dir job_id (write_packet host draft ts urls cover (w.dirs job_id)) w).dirs
      → BoundPacket host job_id draft (file_sha256 host cover) v
  unfolding compute_review_cover_sha256
  written_packet none w v e = record {
    frozen =
        ap (λ (dirs : String → JobDir). freeze_of (dirs job_id).review_manifest) e
        ∙ rw (str_eq_refl job_id);
    same_cover = refl;
  }
  written_packet (some content) w v e = record {
    frozen =
        ap (λ (dirs : String → JobDir). freeze_of (dirs job_id).review_manifest) e
        ∙ rw (str_eq_refl job_id);
    same_cover =
        ap
          (λ (dirs : String → JobDir).
            cover_differs (some (host.sha256 content))
              (file_sha256 host (dirs job_id).review_cover))
          e
        ∙ rw (str_eq_refl job_id, str_eq_refl (host.sha256 content));
  }

ok_inj : {A : Type 0} {a b : A} → ok a ≡ ok b → a ≡ b
ok_inj h = cc

-- Moving the job and recording it leave the folders, and the call returns what it was to return.
moved_and_recorded :
    (host : Host) (job_id ts : String) (e : Event) (c c' : Option String) (u : World)
    → ((set_state job_id review_pending ts none none >> (append host e >> pure c)) u).0 ≡ ok c'
    → (c ≡ c')
      × (((set_state job_id review_pending ts none none >> (append host e >> pure c)) u).1.dirs
          ≡ u.dirs)
unfolding ◌>>=◌
moved_and_recorded host job_id ts e c c' u h =
    elim (set_state_outcome job_id review_pending ts none none u) [
      | inl (x, out) ↦ cc (rw out at h)
      | inr (row, found, allowed, resting, out) ↦
          elim (Result-cases
            (append host e (record u {
              jobs = update_row job_id (with_state review_pending ts none none) u.jobs;
            })).0) [
              | inr (x, raised) ↦ cc (rw (out, raised) at h)
              | inl (line, wrote) ↦
                  (ok_inj (rw (out, wrote) at h), rw (out, wrote) (append_elsewhere host e _).1)
            ]
    ]

module _ (host : Host) (job_id : String) (draft : Draft) (ts : String) (urls : List Text)
    (cover : Option (Option Text)) (actor : String) (w : World) where
  -- A packet that is built, when `build_review_packet` returns the hash of its cover, binds the draft
  -- it was built from: its frozen hashes are those that `approve` computes from that draft and from
  -- the cover in the folder.
  pub build_review_packet-BoundPacket :
      (c : Option String)
      → (build_review_packet host job_id draft ts urls cover actor w).0 ≡ ok c
      → BoundPacket host job_id draft c
          (build_review_packet host job_id draft ts urls cover actor w).1
  unfolding build_review_packet ◌>>=◌ get_job ensure_job_dir
  build_review_packet-BoundPacket c h = elim (Option-cases (find_row job_id w.jobs)) [
    | inl gone ↦ cc (rw gone at h)
    | inr (row, found) ↦ elim (Bool-cases (state_eq row.state processed)) [
      | inr other ↦ cc (rw (found, other) at h)
      | inl ready ↦
          (let u = set_dir job_id (record (w.dirs job_id) { exists = true }) w in
            let src = cover_source cover (u.dirs job_id) in
            let (same, kept) =
              moved_and_recorded host job_id ts _ (file_sha256 host src) c
                (set_dir job_id (write_packet host draft ts urls src (u.dirs job_id)) u)
                (rw (found, ready) at h) in
            subst
              (λ k.
                BoundPacket host job_id draft k
                  (build_review_packet host job_id draft ts urls cover actor w).1)
              same (written_packet host job_id draft ts urls src u _ (rw (found, ready) kept)))
    ]
  ]
