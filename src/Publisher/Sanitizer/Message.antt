-- ===== src/Publisher/Sanitizer/Message.antt =====
-- The message of review_packet.py holds no markup, whatever the draft holds.
use local_content_processor.Prelude.{
  ◌≡◌, refl, ◌∙◌, Bool, true, false, ◌||◌, Option, none, some, List, [], ◌∷◌, ◌++◌, map,
}
use local_content_processor.Prelude.Texts.{Text, codes}
use local_content_processor.Core.Draft.{Draft, FaqItem, MediaSection}
use local_content_processor.Publisher.Sanitizer.{
  escape_html, escaped, opt_escape, inert_link, sanitize_sections, sanitize_faq, sanitize_draft,
  join, bullets, faq_lines, part, labelled, captions, text_lines, link_lines, tag_line,
  message_lines, render_message,
}
use local_content_processor.Publisher.Sanitizer.Inert.{has_markup, has_markup-append, escape-inert}

-- A text without markup, and lines without it.
record Inert (t : Text) : Type 0 where
  pub none_there : has_markup t ≡ false

data Clean : List Text → Type 0 where
  nil : Clean []
  cons : {t : Text} {ts : List Text} → Inert t → Clean ts → Clean (t ∷ ts)

or_false : (a b : Bool) → a ≡ false → b ≡ false → (a || b) ≡ false
or_false false b h k = k
or_false true b h k = cc h

Inert-append : (s t : Text) → Inert s → Inert t → Inert (s ++ t)
Inert-append s t h k = record {
  none_there =
      has_markup-append s t ∙ or_false (has_markup s) (has_markup t) h.none_there k.none_there;
}

Inert-escaped : (t : Text) → Inert (escaped t)
unfolding escape_html
Inert-escaped t = record { none_there = escape-inert t }

Clean-append : (ts us : List Text) → Clean ts → Clean us → Clean (ts ++ us)
Clean-append [] us nil k = k
Clean-append (t ∷ ts) us (cons h hs) k = cons h (Clean-append ts us hs k)

Clean-escaped : (ts : List Text) → Clean (map escaped ts)
Clean-escaped [] = nil
Clean-escaped (t ∷ ts) = cons (Inert-escaped t) (Clean-escaped ts)

Clean-bullets : (ts : List Text) → Clean ts → Clean (bullets ts)
Clean-bullets [] nil = nil
Clean-bullets (t ∷ ts) (cons h hs) =
    cons (Inert-append (codes "- ") t (record { none_there = refl }) h) (Clean-bullets ts hs)

Clean-part : (head : Text) (ts : List Text) → Inert head → Clean ts → Clean (part head ts)
Clean-part head [] h k = nil
Clean-part head (t ∷ ts) h k =
    cons h (Clean-append (t ∷ ts) ([] ∷ []) k (cons (record { none_there = refl }) nil))

Inert-join : (sep : Text) (ts : List Text) → Inert sep → Clean ts → Inert (join sep ts)
Inert-join sep [] h nil = record { none_there = refl }
Inert-join sep (t ∷ []) h (cons k ks) = k
Inert-join sep (t ∷ s ∷ ts) h (cons k ks) =
    Inert-append (t ++ sep) (join sep (s ∷ ts)) (Inert-append t sep k h)
      (Inert-join sep (s ∷ ts) h ks)

Clean-faq : (fs : List FaqItem) → Clean (faq_lines (sanitize_faq fs))
Clean-faq [] = nil
Clean-faq (f ∷ fs) =
    cons (Inert-append (codes "Q: ") _ (record { none_there = refl }) (Inert-escaped f.question)) (
      cons (Inert-append (codes "A: ") _ (record { none_there = refl }) (Inert-escaped f.answer))
        (Clean-faq fs))

Clean-captions : (ms : List MediaSection) → Clean (captions (sanitize_sections ms))
unfolding sanitize_sections
Clean-captions [] = nil
Clean-captions (m ∷ ms) = cons (Inert-escaped m.caption) (Clean-captions ms)

Clean-category :
    (label : Text) (c : Option Text) → Inert label → Clean (labelled label (opt_escape c))
Clean-category label none h = nil
Clean-category label (some []) h = nil
Clean-category label (some (c ∷ t)) h = cons (Inert-append label _ h (Inert-escaped (c ∷ t))) nil

Clean-tags :
    (label : Text) (ts : List Text)
    → Inert label
    → Clean (labelled label (tag_line (map escaped ts)))
Clean-tags label [] h = nil
Clean-tags label (t ∷ ts) h =
    cons
      (Inert-append label _ h
        (Inert-join (codes ", ") _ (record { none_there = refl }) (Clean-escaped (t ∷ ts))))
      nil

Clean-text : (t : Text) → Inert t → Clean (text_lines t)
Clean-text [] h = nil
Clean-text (c ∷ t) h = cons h nil

Clean-links : (us : List Text) → Clean (link_lines (map (λ url. inert_link (some url)) us))
unfolding inert_link
Clean-links [] = cons (record { none_there = refl }) nil
Clean-links (u ∷ us) = Clean-bullets (map escaped (u ∷ us)) (Clean-escaped (u ∷ us))

-- A line of the template itself.
fixed : {t : Text} {ts : List Text} → has_markup t ≡ false → Clean ts → Clean (t ∷ ts)
fixed h k = cons (record { none_there = h }) k

Clean-message : (d : Draft) (urls : List Text) → Clean (message_lines (sanitize_draft d urls))
unfolding message_lines sanitize_draft
Clean-message d urls =
    let label : (t : Text) → has_markup t ≡ false → Inert t = λ t h. record { none_there = h } in
    let tail = Clean-append _ _ (Clean-links urls) (fixed refl (fixed refl nil)) in
    let media =
      Clean-append _ _
        (Clean-part _ _ (label (codes "圖片圖說 / Image captions:") refl)
          (Clean-bullets _ (Clean-captions d.image_sections)))
        (Clean-append _ _
          (Clean-part _ _ (label (codes "影片圖說 / Video captions:") refl)
            (Clean-bullets _ (Clean-captions d.video_sections)))
          (Clean-append _ _
            (Clean-part _ _ (label (codes "結尾 / Summary:") refl)
              (Clean-text _ (Inert-escaped d.summary)))
            (fixed refl tail))) in
    let body =
      Clean-append _ _
        (Clean-part _ _ (label (codes "一分鐘快速看懂 / Quick facts:") refl)
          (Clean-bullets _ (Clean-escaped d.quick_facts)))
        (fixed refl (
          cons (Inert-escaped d.event_body) (
            fixed refl (
              Clean-append _ _ (Clean-part _ _ (label (codes "FAQ:") refl) (Clean-faq d.faq))
                media)))) in
    fixed refl (
      fixed refl (
        fixed refl (
          fixed refl (
            cons
              (Inert-append (codes "標題 / Title: ") _ (record { none_there = refl })
                (Inert-escaped d.title))
              (Clean-append _ _ (Clean-category _ d.category (label (codes "分類 / Category: ") refl))
                (Clean-append _ _ (Clean-tags _ d.tags (label (codes "標籤 / Tags: ") refl))
                  (fixed refl (fixed refl (cons (Inert-escaped d.intro) (fixed refl body))))))))))

-- The review message of any draft and any source addresses holds no "<", no ">" and no quotation
-- mark.
pub render_message-inert :
    (d : Draft) (urls : List Text) → has_markup (render_message d urls) ≡ false
unfolding render_message
render_message-inert d urls =
    (Inert-join (10 ∷ []) (message_lines (sanitize_draft d urls)) (record { none_there = refl })
      (Clean-message d urls)).none_there
