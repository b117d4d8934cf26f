-- ===== src/Processor/MediaGate/Verdict.antt =====
-- When the gate of media_checker.py parks a job.
use local_content_processor.Prelude.{
  ℕ, ◌≡◌, refl, ap, ◌∙◌, String, Bool, true, false, not, ◌||◌, Option, none, some, List, [], ◌∷◌,
  ◌++◌, is_empty, if◌then◌else◌, arith, length, subst,
}
use local_content_processor.Prelude.Texts.{Text}
use local_content_processor.Core.Errors.{Result, ok, err, input_validation, Error}
use local_content_processor.Core.State.{JobState, ReviewReason, needs_revision}
use local_content_processor.Core.Assets.{
  AssetKind, image, video, AssetRef, Decision, file_missing, undecodable,
}
use local_content_processor.Storage.World.{World, Host}
use local_content_processor.Storage.Exec.{pure, lift, gets, bind_returns}
use local_content_processor.Processor.RiskGate.{park, persist_gate_state}
use local_content_processor.Processor.MediaGate.{
  MediaTools, MediaConfig, ImageFacts, Entry, Validated, add_entry, image_step, validate_images,
  judge_file, video_step, validate_videos, usable, failing, read_manifest, report_media,
  conclude_media, run_media_gate, judged_image, failed,
}

-- The flag of a pass says whether an entry of it fails.
abbrev Sound : Result Validated → Type 0
Sound (ok v) = v.needs_revision ≡ not (is_empty (failing v.entries))
Sound (err e) = Unit

add_entry-Sound :
    (k : AssetKind) (path : Text) (d : Decision) (outs : List Text) (r : Result Validated)
    → Sound r
    → Sound (add_entry k path d outs r)
add_entry-Sound k path d outs (err e) h = tt
add_entry-Sound k path d outs (ok v) h = ground (arith, h)

Sound-if : (b : Bool) (r s : Result Validated) → Sound r → Sound s → Sound (if b then r else s)
Sound-if true r s h k = h
Sound-if false r s h k = k

module _ (t : MediaTools) (c : MediaConfig) where
  image_step-Sound :
      (path : Text) (f : Result ImageFacts) (r : Result Validated)
      → Sound r
      → Sound (image_step t c path f r)
  image_step-Sound path (ok f) r h = add_entry-Sound image path (judged_image t c f) _ r h
  image_step-Sound path (err (input_validation x)) r h =
      add_entry-Sound image path (failed undecodable) [] r h
  image_step-Sound path (err Error.lcp) r h = tt
  image_step-Sound path (err Error.usage) r h = tt
  image_step-Sound path (err Error.dependency) r h = tt
  image_step-Sound path (err Error.external_service) r h = tt
  image_step-Sound path (err Error.uncaught) r h = tt

  validate_images-Sound : (assets : List AssetRef) → Sound (validate_images t c assets)
  unfolding validate_images
  validate_images-Sound [] = refl
  validate_images-Sound (a ∷ assets) =
      let h = validate_images-Sound assets in
      Sound-if (t.image_exists a.path) _ _ (image_step-Sound a.path (t.normalize_image a.path) _ h)
        (add_entry-Sound image a.path (failed file_missing) [] _ h)

  video_step-Sound :
      (path : Text) (d : Result Decision) (r : Result Validated)
      → Sound r
      → Sound (video_step t c path d r)
  video_step-Sound path (ok d) r h = add_entry-Sound video path d [] r h
  video_step-Sound path (err e) r h = tt

  validate_videos-Sound : (assets : List AssetRef) → Sound (validate_videos t c assets)
  unfolding validate_videos
  validate_videos-Sound [] = refl
  validate_videos-Sound (a ∷ assets) =
      video_step-Sound a.path (judge_file t c a.path (t.stat a.path)) _
        (validate_videos-Sound assets)

failing-append : (es fs : List Entry) → failing (es ++ fs) ≡ failing es ++ failing fs
failing-append [] fs = refl
failing-append (e ∷ es) fs = ground (arith, failing-append es fs)

is_empty-append :
    {A : Type 0} (xs ys : List A)
    → not (is_empty (xs ++ ys)) ≡ (not (is_empty xs) || not (is_empty ys))
is_empty-append [] ys = refl
is_empty-append (x ∷ xs) ys = refl

-- The state that the gate gives for the entries of its report.
abbrev pub verdict_of : List Entry → Option JobState
verdict_of entries = if is_empty (failing entries) then none else some needs_revision

same_pair :
    (x out : Option JobState) (m n : ℕ)
    → ◌≡◌ {A = Result (Option JobState × ℕ)} (ok (x, m)) (ok (out, n))
    → (out ≡ x) × (n ≡ m)
same_pair x out m n e = (cc e, cc e)

flag-verdict :
    (es fs : List Entry) (a b : Bool)
    → a ≡ not (is_empty (failing es))
    → b ≡ not (is_empty (failing fs))
    → (if a || b then some needs_revision else none) ≡ verdict_of (es ++ fs)
flag-verdict es fs a b h k =
    let joined =
      ap (λ xs. not (is_empty xs)) (failing-append es fs)
      ∙ is_empty-append (failing es) (failing fs) in
    ground (arith, joined)

pub park_returns :
    (job_id ts : String) (r : Option ReviewReason) (s out : Option JobState) (w : World)
    → (park job_id ts r s w).0 ≡ ok out
    → out ≡ s
unfolding park pure
park_returns job_id ts r none out w h = cc h
park_returns job_id ts r (some s) out w h =
    let last = bind_returns (persist_gate_state job_id s ts r none) (λ a. pure (some s)) out w h in
    cc (last.2)

module _ (host : Host) (t : MediaTools) (c : MediaConfig) (job_id ts actor : String) where
  report_media_returns :
      (images videos : ℕ) (has_cover : Bool) (advisories : ℕ) (entries : List Entry) (revise : Bool)
      (out : Option JobState) (w : World)
      → (report_media host t c job_id ts actor images videos has_cover advisories entries revise
          w).0
        ≡ ok out
      → out ≡ (if revise then some needs_revision else none)
  unfolding report_media
  report_media_returns images videos has_cover advisories entries revise out w h =
      let written = bind_returns _ _ out w h in
      let told = bind_returns _ _ out written.1 written.2 in
      park_returns job_id ts none (if revise then some needs_revision else none) out told.1 told.2

  conclude_media_returns :
      (images videos : ℕ) (vi vv : Validated) (out : Option JobState) (n : ℕ) (w : World)
      → (conclude_media host t c job_id ts actor images videos vi vv w).0 ≡ ok (out, n)
      → (out ≡ (if vi.needs_revision || vv.needs_revision then some needs_revision else none))
        × (n ≡ images)
  unfolding conclude_media pure
  conclude_media_returns images videos vi vv out n w h =
      let drawn = bind_returns _ _ (out, n) w h in
      let told = bind_returns _ _ (out, n) drawn.1 drawn.2 in
      (
        (same_pair told.0 out images n told.2).0
            ∙ report_media_returns images videos (not (is_empty vi.ok_outputs)) drawn.0
                (vi.entries ++ vv.entries) (vi.needs_revision || vv.needs_revision) told.0 drawn.1
                told.3,
        (same_pair told.0 out images n told.2).1,
      )

  -- What the gate returns: the state is NEEDS_REVISION exactly where an entry is not "ok".
  pub run_media_gate_returns :
      (out : Option JobState) (n : ℕ) (w : World)
      → (run_media_gate host t c job_id ts actor w).0 ≡ ok (out, n)
      → (assets : Option (List AssetRef)) × (vi : Validated) × (vv : Validated) × (read_manifest
            (w.dirs job_id).manifest
          ≡ ok assets)
        × (validate_images t c (usable image assets) ≡ ok vi)
        × (validate_videos t c (usable video assets) ≡ ok vv)
        × (out ≡ verdict_of (vi.entries ++ vv.entries))
        × (n ≡ length (usable image assets))
  unfolding run_media_gate gets lift
  run_media_gate_returns out n w h =
      let a = bind_returns (gets (λ w. (w.dirs job_id).manifest)) _ (out, n) w h in
      let b = bind_returns (lift (read_manifest a.0)) _ (out, n) a.1 a.2 in
      let d = bind_returns (lift (validate_images t c (usable image b.0))) _ (out, n) b.1 b.2 in
      let e = bind_returns (lift (validate_videos t c (usable video b.0))) _ (out, n) d.1 d.2 in
      let told = conclude_media_returns _ _ d.0 e.0 out n e.1 e.2 in
      (
        b.0,
        d.0,
        e.0,
        cc (a.3, b.3),
        d.3,
        e.3,
        told.0
            ∙ flag-verdict d.0.entries e.0.entries _ _
                (subst Sound d.3 (validate_images-Sound t c (usable image b.0)))
                (subst Sound e.3 (validate_videos-Sound t c (usable video b.0))),
        told.1,
      )
