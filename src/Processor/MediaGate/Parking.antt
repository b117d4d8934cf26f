-- ===== src/Processor/MediaGate/Parking.antt =====
-- Where the gate of media_checker.py leaves the table.
use local_content_processor.Prelude.{
  ℕ, ◌≡◌, refl, sym, ap, ◌∙◌, String, Bool, Option, none, some, List, [], ◌∷◌, ◌++◌, length, inl,
  inr, if◌then◌else◌, not, ◌||◌, is_empty,
}
use local_content_processor.Core.Errors.{ok}
use local_content_processor.Core.State.{JobState, needs_revision}
use local_content_processor.Core.Assets.{image, video, AssetRef}
use local_content_processor.Storage.World.{World, JobDir, JobRecord, Host}
use local_content_processor.Storage.Exec.{Exec, pure, lift, gets, modify_dir, bind_run, ◌>>=◌}
use local_content_processor.Storage.Exec.Respects.{
  IsPreorder, Respects, Respects-modify_dir, exec_rules,
}
use local_content_processor.Storage.Audit.{Event, append}
use local_content_processor.Storage.Audit.Chain.{append_elsewhere}
use local_content_processor.Storage.JobStore.Rows.{update_row}
use local_content_processor.Storage.JobStore.{with_state}
use local_content_processor.Storage.JobStore.Table.{persist_from_processing_outcome}
use local_content_processor.Processor.RiskGate.{park, persist_gate_state}
use local_content_processor.Processor.MediaGate.{
  MediaTools, MediaConfig, Entry, Validated, validate_images, validate_videos, usable,
  read_manifest, draw_cover, report_media, conclude_media, run_media_gate,
}
use local_content_processor.Processor.MediaGate.Verdict.{
  verdict_of, park_returns, run_media_gate_returns,
}

-- The table after a gate: the row of the job is parked at the state, if there is one.
abbrev pub parked : String → String → Option JobState → List JobRecord → List JobRecord
parked job_id ts none rows = rows
parked job_id ts (some s) rows = update_row job_id (with_state s ts none none) rows

abbrev SameJobs : World → World → Type 0
SameJobs w w' = w'.jobs ≡ w.jobs

SameJobs-preorder : IsPreorder SameJobs
SameJobs-preorder = record { same = λ w. refl; chain = λ u v w a b. b ∙ a }

append-SameJobs : (host : Host) (e : Event) → Respects SameJobs (append host e)
append-SameJobs host e = record { at = λ w. (append_elsewhere host e w).0 }

modify_dir-SameJobs :
    (job_id : String) (f : JobDir → JobDir) → Respects SameJobs (modify_dir job_id f)
modify_dir-SameJobs job_id f = Respects-modify_dir job_id f (λ w. refl)

-- A first part that leaves the table alone.
bind_jobs :
    {A B : Type 0} (m : Exec A) (f : A → Exec B) (b : B) (w : World)
    → Respects SameJobs m
    → ((m >>= f) w).0 ≡ ok b
    → (a : A) × (v : World) × (v.jobs ≡ w.jobs) × ((m >>= f) w ≡ f a v) × ((f a v).0 ≡ ok b)
bind_jobs m f b w same h =
    let run = bind_run m f b w h in
    (run.0, (m w).1, same.at w, run.2, ap (λ p. p.0) (sym run.2) ∙ h)

park-parked :
    (job_id ts : String) (s out : Option JobState) (w : World)
    → (park job_id ts none s w).0 ≡ ok out
    → (park job_id ts none s w).1.jobs ≡ parked job_id ts s w.jobs
unfolding park pure persist_gate_state
park-parked job_id ts none out w h = refl
park-parked job_id ts (some s) out w h =
    let run = bind_run (persist_gate_state job_id s ts none none) (λ a. pure (some s)) out w h in
    elim (persist_from_processing_outcome job_id s ts none none w) [
      | inl (x, refused) ↦ cc (run.1, refused)
      | inr (current, found, enters, leaves, resting, wrote) ↦
          ap (λ p. p.1.jobs) run.2 ∙ ap (λ p. p.1.jobs) wrote
    ]

module _ (host : Host) (t : MediaTools) (c : MediaConfig) (job_id ts actor : String) where
  draw_cover-SameJobs : (outs : List _) → Respects SameJobs (draw_cover t c job_id outs)
  unfolding draw_cover
  draw_cover-SameJobs [] = search (exec_rules, SameJobs-preorder)
  draw_cover-SameJobs (p ∷ ps) = search (exec_rules, SameJobs-preorder, modify_dir-SameJobs) depth 9

  report_media-parked :
      (images videos : ℕ) (has_cover : Bool) (advisories : ℕ) (entries : List Entry) (revise : Bool)
      (out : Option JobState) (w : World)
      → let run =
          report_media host t c job_id ts actor images videos has_cover advisories entries revise
            w in
        run.0 ≡ ok out → run.1.jobs ≡ parked job_id ts out w.jobs
  unfolding report_media
  report_media-parked images videos has_cover advisories entries revise out w h =
      let a = bind_jobs _ _ out w (modify_dir-SameJobs job_id _) h in
      let b = bind_jobs _ _ out a.1 (append-SameJobs host _) a.4 in
      let target = if revise then some needs_revision else none in
      let same = park_returns job_id ts none target out b.1 b.4 in
      ap (λ p. p.1.jobs) (a.3 ∙ b.3)
      ∙ park-parked job_id ts target out b.1 b.4
      ∙ ap (λ s. parked job_id ts s b.1.jobs) (sym same)
      ∙ ap (parked job_id ts out) (b.2 ∙ a.2)

  conclude_media-parked :
      (images videos : ℕ) (vi vv : Validated) (out : Option JobState) (n : ℕ) (w : World)
      → let run = conclude_media host t c job_id ts actor images videos vi vv w in
        run.0 ≡ ok (out, n) → run.1.jobs ≡ parked job_id ts out w.jobs
  unfolding conclude_media pure
  conclude_media-parked images videos vi vv out n w h =
      let a = bind_jobs _ _ (out, n) w (draw_cover-SameJobs vi.ok_outputs) h in
      let b = bind_run _ _ (out, n) a.1 a.4 in
      let same : ok (b.0, images) ≡ ok (out, n) = ap (λ p. p.0) (sym b.2) ∙ a.4 in
      let told =
        report_media-parked images videos (not (is_empty vi.ok_outputs)) a.0
          (vi.entries ++ vv.entries) (vi.needs_revision || vv.needs_revision) b.0 a.1 b.1 in
      ap (λ p. p.1.jobs) (a.3 ∙ b.2)
      ∙ told
      ∙ ap (λ s. parked job_id ts s a.1.jobs) (cc same)
      ∙ ap (parked job_id ts out) a.2

  run_media_gate-parked :
      (out : Option JobState) (n : ℕ) (w : World)
      → let run = run_media_gate host t c job_id ts actor w in
        run.0 ≡ ok (out, n) → run.1.jobs ≡ parked job_id ts out w.jobs
  unfolding run_media_gate gets lift
  run_media_gate-parked out n w h =
      let a =
        bind_jobs (gets (λ w. (w.dirs job_id).manifest)) _ (out, n) w (record { at = λ v. refl })
          h in
      let b = bind_jobs (lift (read_manifest a.0)) _ (out, n) a.1 (record { at = λ v. refl }) a.4 in
      let d =
        bind_jobs (lift (validate_images t c (usable image b.0))) _ (out, n) b.1
          (record { at = λ v. refl }) b.4 in
      let e =
        bind_jobs (lift (validate_videos t c (usable video b.0))) _ (out, n) d.1
          (record { at = λ v. refl }) d.4 in
      ap (λ p. p.1.jobs) (a.3 ∙ b.3 ∙ d.3 ∙ e.3)
      ∙ conclude_media-parked _ _ d.0 e.0 out n e.1 e.4
      ∙ ap (parked job_id ts out) (e.2 ∙ d.2 ∙ b.2 ∙ a.2)

  -- The gate returns only where the manifest can be read and both passes come to an end. It then
  -- returns NEEDS_REVISION exactly where an entry of the report is not "ok", and no other state, and
  -- has written exactly this state to the row of the job, or left the table alone where it returns
  -- none; the number that it reports is that of the usable images.
  pub run_media_gate_parks :
      (out : Option JobState) (n : ℕ) (w : World)
      → (run_media_gate host t c job_id ts actor w).0 ≡ ok (out, n)
      → ((assets : Option (List AssetRef)) × (vi : Validated) × (vv : Validated) × (read_manifest
              (w.dirs job_id).manifest
            ≡ ok assets)
          × (validate_images t c (usable image assets) ≡ ok vi)
          × (validate_videos t c (usable video assets) ≡ ok vv)
          × (out ≡ verdict_of (vi.entries ++ vv.entries))
          × (n ≡ length (usable image assets)))
        × ((run_media_gate host t c job_id ts actor w).1.jobs ≡ parked job_id ts out w.jobs)
  run_media_gate_parks out n w h =
      (run_media_gate_returns host t c job_id ts actor out n w h, run_media_gate-parked out n w h)
