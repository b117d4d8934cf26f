-- ===== src/Core/Assets/Verdict.antt =====
-- When asset_rules.py passes an asset: independent descriptions.
use local_content_processor.Prelude.{
  ℕ, ◌≤◌, ◌≡◌, ◌↔◌, refl, Bool, true, false, not, Option, none, some, List, [], ◌∷◌, ◌++◌, arith,
  ltb, ◌⊎◌, inl, inr, subst, sym, eq_of_some, Bool-cases,
}
use local_content_processor.Prelude.Members.{append-none}
use local_content_processor.Prelude.Texts.{Text, Unicode, text_eq}
use local_content_processor.Core.Assets.{
  asset_ok, AssetReason, Float, finite, negative, infinite, minus_infinite, nan, below, above,
  decide, note_if, VideoFacts, VideoSpec, codec_reasons, fps_reasons, bitrate_reasons, size_reasons,
  judge_video,
}

decide-ok : (rs : List AssetReason) → ((decide rs).state ≡ asset_ok) ↔ (rs ≡ [])
decide-ok [] = ((λ h. refl), (λ h. refl))
decide-ok (r ∷ rs) = ((λ h. cc h), (λ h. cc h))

note_if-none : (b : Bool) (r : AssetReason) → (note_if b r ≡ []) ↔ (b ≡ false)
note_if-none true r = ((λ h. cc h), (λ h. cc h))
note_if-none false r = ((λ h. refl), (λ h. refl))

-- The rates that are not below a bound, and those that are not above another one either: no number
-- compares as neither.
abbrev pub Reaches : ℕ → Float → Type 0
Reaches low x = (x ≡ nan) ⊎ ((x ≡ infinite) ⊎ ((n : ℕ) × (x ≡ finite n) × (low ≤ n)))

abbrev pub Within : ℕ → ℕ → Float → Type 0
Within low high x = (x ≡ nan) ⊎ ((n : ℕ) × (x ≡ finite n) × (low ≤ n) × (n ≤ high))

-- A video that meets its specification: every fact is known; the codec is the expected one, whatever
-- its case; the frame rate is within its bounds and the bit rate and the size reach theirs; a rate
-- that is no number counts as within its bounds, and an infinite bit rate reaches its bound.
pub record MeetsSpec (u : Unicode) (s : VideoSpec) (v : VideoFacts) : Type 0 where
  pub codec_fits : (c : Text) × (v.codec ≡ some c) × (text_eq (u.lower c) (u.lower s.codec) ≡ true)
  pub fps_fits : (x : Float) × (v.fps ≡ some x) × Within s.min_fps s.max_fps x
  pub bitrate_fits : (x : Float) × (v.bitrate_mbps ≡ some x) × Reaches s.min_bitrate_mbps x
  pub size_fits :
      (w : ℕ) × (h : ℕ) × (v.width ≡ some w)
      × (v.height ≡ some h)
      × (s.min_width ≤ w)
      × (s.min_height ≤ h)

not_below : (x : Float) (low : ℕ) → (below x low ≡ false) ↔ Reaches low x
not_below (finite n) low = (
  (λ h. inr (inr (n, refl, (ground arith)))),
  (λ h. elim h [
    | inl e ↦ cc e
    | inr (inl e) ↦ cc e
    | inr (inr (m, e, l)) ↦ (let same : n ≡ m = cc e in ground arith)
  ]),
)
not_below (negative n) low =
    ((λ h. cc h), (λ h. elim h [ inl e ↦ cc e | inr (inl e) ↦ cc e | inr (inr (m, e, l)) ↦ cc e ]))
not_below infinite low = ((λ h. inr (inl refl)), (λ h. refl))
not_below minus_infinite low =
    ((λ h. cc h), (λ h. elim h [ inl e ↦ cc e | inr (inl e) ↦ cc e | inr (inr (m, e, l)) ↦ cc e ]))
not_below nan low = ((λ h. inl refl), (λ h. refl))

not_outside :
    (x : Float) (low high : ℕ)
    → ((below x low ≡ false) × (above x high ≡ false)) ↔ Within low high x
not_outside (finite n) low high = (
  (λ h. inr (n, refl, at_least h.0, at_most h.1)),
  (λ h. elim h [
    | inl e ↦ cc e
    | inr (m, e, l, g) ↦ (let same : n ≡ m = cc e in (not_low same l, not_high same g))
  ]),
)
  where
    at_least : ltb n low ≡ false → low ≤ n
    at_least h = ground arith

    at_most : ltb high n ≡ false → n ≤ high
    at_most h = ground arith

    not_low : {m : ℕ} → n ≡ m → low ≤ m → ltb n low ≡ false
    not_low e l = ground arith

    not_high : {m : ℕ} → n ≡ m → m ≤ high → ltb high n ≡ false
    not_high e g = ground arith
not_outside (negative n) low high =
    ((λ h. cc (h.0)), (λ h. elim h [ inl e ↦ cc e | inr (m, e, l, g) ↦ cc e ]))
not_outside infinite low high =
    ((λ h. cc (h.1)), (λ h. elim h [ inl e ↦ cc e | inr (m, e, l, g) ↦ cc e ]))
not_outside minus_infinite low high =
    ((λ h. cc (h.0)), (λ h. elim h [ inl e ↦ cc e | inr (m, e, l, g) ↦ cc e ]))
not_outside nan low high = ((λ h. inl refl), (λ h. (refl, refl)))

when_not : (b : Bool) → (not b ≡ false) ↔ (b ≡ true)
when_not true = ((λ h. refl), (λ h. refl))
when_not false = ((λ h. cc h), (λ h. cc h))

module _ (u : Unicode) (s : VideoSpec) where
  codec-none :
      (c : Option Text)
      → (codec_reasons u s c ≡ [])
        ↔ ((t : Text) × (c ≡ some t) × (text_eq (u.lower t) (u.lower s.codec) ≡ true))
  codec-none none = ((λ h. cc h), (λ h. cc (h.1)))
  codec-none (some c) = (
    (λ h. (c, refl, (when_not _).0 ((note_if-none _ _).0 h))),
    (λ h. (note_if-none _ _).1 (
        (when_not _).1 (
          subst (λ t. text_eq (u.lower t) (u.lower s.codec) ≡ true) (sym (eq_of_some c h.0 h.1))
            h.2))),
  )

  fps-none :
      (f : Option Float)
      → (fps_reasons s f ≡ [])
        ↔ ((x : Float) × (f ≡ some x) × (below x s.min_fps ≡ false) × (above x s.max_fps ≡ false))
  fps-none none = ((λ h. cc h), (λ h. cc (h.1)))
  fps-none (some x) = (
    (λ h. (x, refl, low_false h, high_false h)),
    (λ h. let e = eq_of_some x h.0 h.1 in rw (e, h.2, h.3)),
  )
    where
      low_false : fps_reasons s (some x) ≡ [] → below x s.min_fps ≡ false
      low_false h = elim (Bool-cases (below x s.min_fps)) [ inl e ↦ cc (h, e) | inr e ↦ e ]

      high_false : fps_reasons s (some x) ≡ [] → above x s.max_fps ≡ false
      high_false h = elim (Bool-cases (above x s.max_fps)) [
        | inl e ↦ cc (h, e, low_false h)
        | inr e ↦ e
      ]

  bitrate-none :
      (b : Option Float)
      → (bitrate_reasons s b ≡ [])
        ↔ ((x : Float) × (b ≡ some x) × (below x s.min_bitrate_mbps ≡ false))
  bitrate-none none = ((λ h. cc h), (λ h. cc (h.1)))
  bitrate-none (some x) =
      ((λ h. (x, refl, (note_if-none _ _).0 h)), (λ h. let e = eq_of_some x h.0 h.1 in rw (e, h.2)))

  size-none :
      (w h : Option ℕ)
      → (size_reasons s w h ≡ [])
        ↔ ((a : ℕ) × (b : ℕ) × (w ≡ some a) × (h ≡ some b) × (s.min_width ≤ a) × (s.min_height ≤ b))
  size-none none h = ((λ e. cc e), (λ e. cc (e.2)))
  size-none (some w) none = ((λ e. cc e), (λ e. cc (e.3)))
  size-none (some w) (some h) = (
    (λ e. (w, h, refl, refl, wide e, high e)),
    (λ e. fits (eq_of_some w e.0 e.2) (eq_of_some h e.1 e.3) e.4 e.5),
  )
    where
      wide : size_reasons s (some w) (some h) ≡ [] → s.min_width ≤ w
      wide e = ground arith

      high : size_reasons s (some w) (some h) ≡ [] → s.min_height ≤ h
      high e = ground arith

      fits :
          {a b : ℕ}
          → w ≡ a
          → h ≡ b
          → s.min_width ≤ a
          → s.min_height ≤ b
          → size_reasons s (some w) (some h) ≡ []
      fits p q x y = ground arith

  -- A video passes exactly where it meets its specification: every fact is known and within its
  -- bounds, where a rate that is no number counts as within them and an infinite bit rate reaches its
  -- bound.
  pub judge_video_iff : (v : VideoFacts) → ((judge_video u s v).state ≡ asset_ok) ↔ MeetsSpec u s v
  unfolding judge_video
  judge_video_iff v =
      let c = codec_reasons u s v.codec in
      let f = fps_reasons s v.fps in
      let b = bitrate_reasons s v.bitrate_mbps in
      let z = size_reasons s v.width v.height in
      let first = append-none c (f ++ (b ++ z)) in
      let second = append-none f (b ++ z) in
      let third = append-none b z in
      (
        (λ h.
            let one = first.0 ((decide-ok _).0 h) in
            let two = second.0 one.1 in
            let three = third.0 two.1 in
            record {
              codec_fits = (codec-none v.codec).0 one.0;
              fps_fits =
                  (let f = (fps-none v.fps).0 two.0 in
                    (f.0, f.1, (not_outside f.0 s.min_fps s.max_fps).0 (f.2, f.3)));
              bitrate_fits =
                  (let r = (bitrate-none v.bitrate_mbps).0 three.0 in
                    (r.0, r.1, (not_below r.0 s.min_bitrate_mbps).0 r.2));
              size_fits = (size-none v.width v.height).0 three.1;
            }),
        (λ m. (decide-ok _).1 (
            first.1 (
              (codec-none v.codec).1 m.codec_fits,
              second.1 (
                (fps-none v.fps).1 (
                    let r = m.fps_fits in
                    let k = (not_outside r.0 s.min_fps s.max_fps).1 r.2 in (r.0, r.1, k.0, k.1)),
                third.1 (
                  (bitrate-none v.bitrate_mbps).1 (
                      let r = m.bitrate_fits in
                      (r.0, r.1, (not_below r.0 s.min_bitrate_mbps).1 r.2)),
                  (size-none v.width v.height).1 m.size_fits,
                ),
              ),
            ))),
      )
