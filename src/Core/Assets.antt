-- ===== src/Core/Assets.antt =====
-- src/lcp/core/rules/asset_rules.py, and the assets of src/lcp/core/models.py: the decisions on
-- measured images, videos and covers. Measures are in thousandths, times in milliseconds; a float may
-- be negative, infinite or no number, a bound is not negative.
pub mod Verdict
pub mod Cover
use local_content_processor.Prelude.{
  ℕ, ◌+◌, ◌-◌, ◌*◌, String, Bool, true, false, not, ◌&&◌, ◌||◌, Option, none, some, List, [], ◌∷◌,
  ◌++◌, is_empty, length, ltb, leb, if◌then◌else◌, zero, suc,
}
use local_content_processor.Prelude.Texts.{Text, Unicode, text_eq}

pub data AssetKind : Type 0 where
  image video text : AssetKind

pub data AssetState : Type 0 where
  asset_ok asset_failed asset_needs_revision : AssetState

-- What the gate reads of an `AssetRef`.
pub record AssetRef : Type 0 where
  pub kind : AssetKind
  pub path : Text
  pub state : AssetState

-- `negative n` is below zero by n + 1.
pub data Float : Type 0 where
  finite negative : ℕ → Float
  infinite minus_infinite nan : Float

abbrev below : Float → ℕ → Bool
below (finite x) t = ltb x t
below (negative x) t = true
below infinite t = false
below minus_infinite t = true
below nan t = false

abbrev above : Float → ℕ → Bool
above (finite x) t = ltb t x
above (negative x) t = false
above infinite t = true
above minus_infinite t = false
above nan t = false

-- A reason, with the values that its text prints.
pub data AssetReason : Type 0 where
  image_small : ℕ → ℕ → AssetReason
  image_blurry : Float → AssetReason
  codec_unknown fps_unknown bitrate_unknown resolution_unknown : AssetReason
  codec_differs : Text → AssetReason
  fps_low fps_high bitrate_low : Float → AssetReason
  video_small : ℕ → ℕ → AssetReason
  mostly_black : ℕ → ℕ → AssetReason
  black_segments : ℕ → AssetReason
  -- the reasons of the gate itself
  file_missing undecodable size_unreadable probe_failed blackdetect_failed : AssetReason
  video_large : ℕ → AssetReason

pub record Decision : Type 0 where
  pub state : AssetState
  pub reasons : List AssetReason

abbrev pub decide : List AssetReason → Decision
decide [] = record { state = asset_ok; reasons = [] }
decide (r ∷ rs) = record { state = asset_needs_revision; reasons = r ∷ rs }

abbrev pub is_ok : AssetState → Bool
is_ok asset_ok = true
is_ok _ = false

abbrev pub note_if : Bool → AssetReason → List AssetReason
note_if true r = r ∷ []
note_if false r = []

unfoldable pub is_too_small : ℕ → ℕ → ℕ → ℕ → Bool
is_too_small width height min_width min_height = ltb width min_width || ltb height min_height

unfoldable pub is_blurry : Float → ℕ → Bool
is_blurry (finite v) threshold = ltb v threshold
is_blurry (negative v) threshold = true
is_blurry infinite threshold = true
is_blurry minus_infinite threshold = true
is_blurry nan threshold = true

abbrev blur_reasons : Option Float → ℕ → List AssetReason
blur_reasons none threshold = []
blur_reasons (some v) threshold = note_if (is_blurry v threshold) (image_blurry v)

unfoldable pub judge_image : ℕ → ℕ → Option Float → ℕ → ℕ → ℕ → Decision
unfolding is_too_small is_blurry
judge_image width height variance min_width min_height blur_threshold = decide (
    note_if (is_too_small width height min_width min_height) (image_small width height)
    ++ blur_reasons variance blur_threshold)

-- The measured facts of a video.
pub record VideoFacts : Type 0 where
  pub codec : Option Text
  pub fps : Option Float
  pub bitrate_mbps : Option Float
  pub width : Option ℕ
  pub height : Option ℕ
  pub duration : Option ℕ

pub record VideoSpec : Type 0 where
  pub codec : Text
  pub min_bitrate_mbps : ℕ
  pub min_fps : ℕ
  pub max_fps : ℕ
  pub min_width : ℕ
  pub min_height : ℕ

abbrev pub codec_reasons : Unicode → VideoSpec → Option Text → List AssetReason
codec_reasons u s none = codec_unknown ∷ []
codec_reasons u s (some c) = note_if (not (text_eq (u.lower c) (u.lower s.codec))) (codec_differs c)

abbrev pub fps_reasons : VideoSpec → Option Float → List AssetReason
fps_reasons s none = fps_unknown ∷ []
fps_reasons s (some x) =
    if below x s.min_fps then fps_low x ∷ [] else note_if (above x s.max_fps) (fps_high x)

abbrev pub bitrate_reasons : VideoSpec → Option Float → List AssetReason
bitrate_reasons s none = bitrate_unknown ∷ []
bitrate_reasons s (some x) = note_if (below x s.min_bitrate_mbps) (bitrate_low x)

abbrev pub size_reasons : VideoSpec → Option ℕ → Option ℕ → List AssetReason
size_reasons s (some w) (some h) =
    note_if (ltb w s.min_width || ltb h s.min_height) (video_small w h)
size_reasons s none h = resolution_unknown ∷ []
size_reasons s (some w) none = resolution_unknown ∷ []

unfoldable pub judge_video : Unicode → VideoSpec → VideoFacts → Decision
judge_video u s v = decide (
    codec_reasons u s v.codec
    ++ (fps_reasons s v.fps
        ++ (bitrate_reasons s v.bitrate_mbps ++ size_reasons s v.width v.height)))

unfoldable pub video_spec_ok : Unicode → VideoSpec → VideoFacts → Bool
unfolding judge_video
video_spec_ok u s v = is_ok (judge_video u s v).state

-- `sum(max(0.0, end - start) …)`
abbrev pub total_black : List (ℕ × ℕ) → ℕ
total_black [] = 0
total_black ((start, end) ∷ rest) = (end - start) + total_black rest

abbrev black_reasons : List (ℕ × ℕ) → Option ℕ → List AssetReason
black_reasons intervals none = black_segments (length intervals) ∷ []
black_reasons intervals (some zero) = black_segments (length intervals) ∷ []
black_reasons intervals (some (suc d)) =
    note_if (ltb (suc d) (5 * total_black intervals)) (mostly_black (total_black intervals) (suc d))

-- `judge_black_segments`, for the ratio 0.2
unfoldable pub judge_black_segments : List (ℕ × ℕ) → Option ℕ → Decision
judge_black_segments [] duration = decide []
judge_black_segments (i ∷ is) duration = decide (black_reasons (i ∷ is) duration)
