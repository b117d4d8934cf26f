-- ===== src/Examples/Pages.antt =====
-- The theorems on a crawled page, and runs of the panel and of the advice on a cover.
use local_content_processor.Prelude.{◌≡◌, refl, Bool, true, false, Option, none, some, [], ◌∷◌, map}
use local_content_processor.Prelude.Texts.{Text, codes, ascii, text_eq}
use local_content_processor.Core.State.{published_recorded}
use local_content_processor.Core.Assets.Cover.{
  busy, tile_outside, cover_safe_box, tile_center_outside_safe, is_top_heavy, is_busy, judge_cover,
}
use local_content_processor.Core.Extraction.{
  Response, media_urls, accept, malformed, classify_media_url, page_title, page_body,
}
use local_content_processor.Core.Extraction.Downloads.{IsSifted, media_urls-IsSifted}
use local_content_processor.Core.Steps.{steps_for}

-- Only the address of one host is safe; "bad" cannot be joined.
abbrev is_safe : Text → Bool
is_safe url = text_eq url (codes "a.jpg")

abbrev page : Response
page = record {
  title = some (codes "  ");
  heading = some (codes " Head ");
  article_paragraphs = [];
  paragraphs = codes "one" ∷ codes " " ∷ codes "two" ∷ [];
  images = codes "a.jpg" ∷ codes "b.jpg" ∷ codes "a.jpg" ∷ codes "bad" ∷ [];
  videos = [];
  links = codes "a.jpg" ∷ codes "c.mp4?x" ∷ codes "d" ∷ [];
  urljoin = λ src. if_good (text_eq src (codes "bad")) src;
}
  where
    if_good : Bool → Text → Option Text
    if_good true src = none
    if_good false src = some src

sifted : media_urls is_safe ascii page ≡ record {
  image_urls = codes "a.jpg" ∷ [];
  video_urls = [];
  rejected_media_urls = codes "b.jpg" ∷ codes "c.mp4?x" ∷ [];
  malformed_media_urls = codes "bad" ∷ [];
}
unfolding media_urls accept malformed classify_media_url
sifted = refl

titled : page_title ascii page ≡ codes "Head"
unfolding page_title
titled = refl

two_lines : page_body ascii page ≡ codes "one\ntwo"
unfolding page_body
two_lines = refl

media_urls-IsSifted_example : IsSifted is_safe (media_urls is_safe ascii page)
media_urls-IsSifted_example = media_urls-IsSifted is_safe ascii page

-- A published job without a draft at hand: the steps of the category and the keywords stay open.
published :
    map (λ s. s.done) (steps_for published_recorded none none)
    ≡ true ∷ true ∷ true ∷ false ∷ true ∷ true ∷ true ∷ false ∷ true ∷ true ∷ []
unfolding steps_for
published = refl

dark_corner :
    judge_cover (record { left = 0; top = 0; width = 100; height = 100 } ∷ []) 1300 640 [] 1 1 7500
    ≡ record { geometry = tile_outside 1 ∷ []; aesthetic = busy ∷ [] }
unfolding judge_cover cover_safe_box tile_center_outside_safe is_top_heavy is_busy
dark_corner = refl
