-- ===== src/Publisher/Sanitizer.antt =====
-- src/lcp/adapters/publisher: the escaping of sanitizer.py in src/lcp/adapters/processor, and the
-- message that review_packet.py makes with it.
pub mod Inert
pub mod Message
use local_content_processor.Prelude.{
  ℕ, String, Bool, true, false, ◌||◌, Option, none, some, List, [], ◌∷◌, ◌++◌, map, is_empty, ◌==◌,
  if◌then◌else◌,
}
use local_content_processor.Prelude.Texts.{Text, codes}
use local_content_processor.Core.Draft.{
  Draft, DraftStatus, drafted, needs_revision, not_executed, MediaSection, FaqItem,
}

-- `s.replace(c, w)` for one character
abbrev pub replace : ℕ → Text → Text → Text
replace c w [] = []
replace c w (x ∷ s) = (if x == c then w else x ∷ []) ++ replace c w s

-- `html.escape(s, quote=True)`: the ampersand first.
unfoldable pub escape : Text → Text
escape s = replace b'\'' (codes "&#x27;") (
    replace b'"' (codes "&quot;")
      (replace b'>' (codes "&gt;") (replace b'<' (codes "&lt;") (replace b'&' (codes "&amp;") s))))

unfoldable pub escape_html : Option Text → Text
unfolding escape
escape_html none = []
escape_html (some text) = escape text

unfoldable pub inert_link : Option Text → Text
unfolding escape_html
inert_link url = escape_html url

pub record SanitizedMediaSection : Type 0 where
  pub asset_ref : Text
  pub caption : Text

pub record SanitizedFaqItem : Type 0 where
  pub question : Text
  pub answer : Text

-- The dictionary of `sanitize_draft`. It has no subheads.
pub record SanitizedDraft : Type 0 where
  pub title : Text
  pub intro : Text
  pub quick_facts : List Text
  pub event_body : Text
  pub image_sections : List SanitizedMediaSection
  pub video_sections : List SanitizedMediaSection
  pub faq : List SanitizedFaqItem
  pub summary : Text
  pub tags : List Text
  pub keywords : List Text
  pub category : Option Text
  pub quotes : List Text
  pub source_urls : List Text
  pub model : Option Text
  pub finish_reason : Option Text
  pub status : Text
  pub review_reason : Option Text

abbrev pub status_value : DraftStatus → String
status_value drafted = "drafted"
status_value needs_revision = "needs_revision"
status_value not_executed = "not_executed"

abbrev pub escaped : Text → Text
escaped t = escape_html (some t)

-- `escape_html(x) if x else None`
abbrev opt_escape : Option Text → Option Text
opt_escape none = none
opt_escape (some t) = if is_empty t then none else some (escaped t)

abbrev opt_codes : Option String → Option Text
opt_codes none = none
opt_codes (some s) = some (codes s)

-- `s.asset_ref or ""`
abbrev or_empty : Option Text → Text
or_empty none = []
or_empty (some t) = t

-- `_sanitize_sections`
unfoldable pub sanitize_sections : List MediaSection → List SanitizedMediaSection
unfolding escape_html
sanitize_sections =
    map (λ s. record { asset_ref = escaped (or_empty s.asset_ref); caption = escaped s.caption })

abbrev sanitize_faq : List FaqItem → List SanitizedFaqItem
sanitize_faq = map (λ f. record { question = escaped f.question; answer = escaped f.answer })

unfoldable pub sanitize_draft : Draft → List Text → SanitizedDraft
unfolding inert_link sanitize_sections
sanitize_draft d source_urls = record {
  title = escaped d.title;
  intro = escaped d.intro;
  quick_facts = map escaped d.quick_facts;
  event_body = escaped d.event_body;
  image_sections = sanitize_sections d.image_sections;
  video_sections = sanitize_sections d.video_sections;
  faq = sanitize_faq d.faq;
  summary = escaped d.summary;
  tags = map escaped d.tags;
  keywords = map escaped d.keywords;
  category = opt_escape d.category;
  quotes = map (λ q. escaped q.text) d.quotes;
  source_urls = map (λ url. inert_link (some url)) source_urls;
  model = opt_escape (opt_codes d.model);
  finish_reason = opt_escape (opt_codes d.finish_reason);
  status = escaped (codes (status_value d.status));
  review_reason = opt_escape (opt_codes d.review_reason);
}

-- `sep.join(ts)`
abbrev pub join : Text → List Text → Text
join sep [] = []
join sep (t ∷ []) = t
join sep (t ∷ s ∷ ts) = let rest = join sep (s ∷ ts) in t ++ sep ++ rest

-- `- {t}` for each text
abbrev pub bullets : List Text → List Text
bullets = map (λ t. codes "- " ++ t)

abbrev pub faq_lines : List SanitizedFaqItem → List Text
faq_lines [] = []
faq_lines (f ∷ fs) = (codes "Q: " ++ f.question) ∷ (codes "A: " ++ f.answer) ∷ faq_lines fs

-- The lines of a part under its head, and a blank line; nothing where the part is empty.
abbrev pub part : Text → List Text → List Text
part head [] = []
part head (t ∷ ts) = head ∷ ((t ∷ ts) ++ [] ∷ [])

abbrev pub labelled : Text → Option Text → List Text
labelled label none = []
labelled label (some t) = (label ++ t) ∷ []

abbrev captions : List SanitizedMediaSection → List Text
captions = map (λ s. s.caption)

abbrev pub text_lines : Text → List Text
text_lines t = if is_empty t then [] else t ∷ []

abbrev pub link_lines : List Text → List Text
link_lines [] = codes "- (none recorded)" ∷ []
link_lines (u ∷ us) = bullets (u ∷ us)

-- `", ".join(tags)`, none where there are no tags
abbrev pub tag_line : List Text → Option Text
tag_line [] = none
tag_line (t ∷ ts) = some (join (codes ", ") (t ∷ ts))

-- The lines of `_render_message`. The key "subheads" is never there.
unfoldable pub message_lines : SanitizedDraft → List Text
message_lines s =
    codes "=== 審核包 / REVIEW PACKET ==="
    ∷ codes "此為待審草稿。機器不會自動上架；上架由人工複製貼上並具結。"
    ∷ codes "(This is a draft awaiting review. The machine never auto-publishes.)"
    ∷ []
    ∷ (codes "標題 / Title: " ++ s.title)
    ∷ (labelled (codes "分類 / Category: ") s.category
        ++ (labelled (codes "標籤 / Tags: ") (tag_line s.tags)
            ++ ([]
                ∷ codes "引言 / Intro:"
                ∷ s.intro
                ∷ []
                ∷ (part (codes "一分鐘快速看懂 / Quick facts:") (bullets s.quick_facts)
                    ++ (codes "事件經過 / Body:"
                        ∷ s.event_body
                        ∷ []
                        ∷ (part (codes "FAQ:") (faq_lines s.faq)
                            ++ (part (codes "圖片圖說 / Image captions:")
                                  (bullets (captions s.image_sections))
                                ++ (part (codes "影片圖說 / Video captions:")
                                      (bullets (captions s.video_sections))
                                    ++ (part (codes "結尾 / Summary:") (text_lines s.summary)
                                        ++ (codes "來源連結（惰性純文字，不可點、不自動載入）/ Source links (inert):"
                                            ∷ (link_lines s.source_urls
                                                ++ ([]
                                                    ∷ codes
                                                        "提醒：簽核僅代表署名負責（attribution），非身分驗證（authentication）。"
                                                    ∷ []))))))))))))

-- `_render_message`
unfoldable pub render_message : Draft → List Text → Text
unfolding sanitize_draft message_lines
render_message d source_urls = join (10 ∷ []) (message_lines (sanitize_draft d source_urls))
