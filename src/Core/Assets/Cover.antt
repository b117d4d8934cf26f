-- ===== src/Core/Assets/Cover.antt =====
-- src/lcp/core/rules/asset_rules.py: the advice on a cover. Measures are in thousandths.
use Prim.Native.Nat.{◌/◌}
use local_content_processor.Prelude.{
  ℕ, zero, suc, ◌+◌, ◌-◌, ◌*◌, String, Bool, true, false, not, ◌&&◌, List, [], ◌∷◌, ◌++◌, leb, ltb,
  if◌then◌else◌,
}

pub record Box : Type 0 where
  pub left : ℕ
  pub top : ℕ
  pub right : ℕ
  pub bottom : ℕ

-- `(left, top, width, height)`
pub record Rect : Type 0 where
  pub left : ℕ
  pub top : ℕ
  pub width : ℕ
  pub height : ℕ

-- For a margin of a tenth.
unfoldable pub cover_safe_box : ℕ → ℕ → Box
cover_safe_box cover_w cover_h = box (cover_w / 10) (cover_h / 10)
  where
    box : ℕ → ℕ → Box
    box mx my = record { left = mx; top = my; right = cover_w - mx; bottom = cover_h - my }

-- The center of the tile, doubled, against the box, doubled.
unfoldable pub tile_center_outside_safe : Rect → Box → Bool
tile_center_outside_safe r b =
    let cx = 2 * r.left + r.width in
    let cy = 2 * r.top + r.height in
    not (leb (2 * b.left) cx && leb cx (2 * b.right) && leb (2 * b.top) cy && leb cy (2 * b.bottom))

unfoldable pub is_strip_border : ℕ → ℕ → Bool
is_strip_border mean std = leb mean 24000 && leb std 8000

unfoldable pub is_top_heavy : ℕ → ℕ → Bool
is_top_heavy upper_energy zero = ltb 0 upper_energy
is_top_heavy upper_energy (suc n) = ltb (8 * suc n) (5 * upper_energy)

unfoldable pub is_busy : ℕ → Bool
is_busy entropy = ltb 7400 entropy

pub data GeometryNote : Type 0 where
  tile_outside : ℕ → GeometryNote
  border : String → GeometryNote

pub data AestheticNote : Type 0 where
  top_heavy busy : AestheticNote

pub record CoverAdvisory : Type 0 where
  pub geometry : List GeometryNote
  pub aesthetic : List AestheticNote

-- The tiles are numbered from `i`.
abbrev tile_notes : Box → ℕ → List Rect → List GeometryNote
tile_notes safe i [] = []
tile_notes safe i (r ∷ rs) =
    let rest = tile_notes safe (suc i) rs in
    if tile_center_outside_safe r safe then tile_outside i ∷ rest else rest

abbrev border_notes : List (String × (ℕ × ℕ)) → List GeometryNote
border_notes [] = []
border_notes ((side, (mean, std)) ∷ rest) =
    let later = border_notes rest in if is_strip_border mean std then border side ∷ later else later

abbrev advice : Bool → AestheticNote → List AestheticNote
advice true n = n ∷ []
advice false n = []

unfoldable pub judge_cover : List Rect → ℕ → ℕ → List (String × (ℕ × ℕ)) → ℕ → ℕ → ℕ → CoverAdvisory
unfolding cover_safe_box tile_center_outside_safe is_strip_border is_top_heavy is_busy
judge_cover tile_rects cover_w cover_h border_strips upper_energy lower_energy entropy = record {
  geometry = tile_notes (cover_safe_box cover_w cover_h) 1 tile_rects ++ border_notes border_strips;
  aesthetic =
      advice (is_top_heavy upper_energy lower_energy) top_heavy ++ advice (is_busy entropy) busy;
}
