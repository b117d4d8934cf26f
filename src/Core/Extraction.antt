-- ===== src/Core/Extraction.antt =====
-- src/lcp/core/rules/extraction.py: what is taken from a crawled page.
pub mod Downloads
use local_content_processor.Prelude.{
  ℕ, Bool, true, false, not, ◌||◌, Option, none, some, List, [], ◌∷◌, ◌++◌, map, keep, any,
  is_empty, if◌then◌else◌,
}
use local_content_processor.Prelude.Texts.{
  Text, codes, Unicode, strip, starts_with, text_mem, split_at, some_text,
}
use mathlib.Core.List.{reverse}
use local_content_processor.Core.Assets.{AssetKind, image, video}

-- What the selectors of a response give, and its `urljoin`, none where it raises `ValueError`.
pub record Response : Type 0 where
  pub title : Option Text
  pub heading : Option Text
  pub article_paragraphs : List Text
  pub paragraphs : List Text
  pub images : List Text
  pub videos : List Text
  pub links : List Text
  pub urljoin : Text → Option Text

abbrev image_ext : List Text
image_ext =
    codes ".jpg" ∷ codes ".jpeg" ∷ codes ".png" ∷ codes ".gif" ∷ codes ".webp" ∷ codes ".bmp" ∷ []

abbrev video_ext : List Text
video_ext = codes ".mp4" ∷ codes ".webm" ∷ codes ".mov" ∷ codes ".m4v" ∷ codes ".mkv" ∷ []

abbrev ends_with_any : List Text → Text → Bool
ends_with_any exts s = any (λ e. starts_with (reverse e) (reverse s)) exts

-- `s.split("?", 1)[0]`
abbrev before_query : Text → Text
before_query [] = []
before_query (c ∷ s) =
    let rest = before_query s in if starts_with (codes "?") (c ∷ s) then [] else c ∷ rest

unfoldable pub classify_media_url : Unicode → Text → Option AssetKind
classify_media_url u url =
    let low = before_query (u.lower url) in
    if ends_with_any image_ext low
    then some image
    else if ends_with_any video_ext low
    then some video
    else none

-- The four lists of `extract_content`.
pub record MediaUrls : Type 0 where
  pub image_urls : List Text
  pub video_urls : List Text
  pub rejected_media_urls : List Text
  pub malformed_media_urls : List Text

abbrev pub no_urls : MediaUrls
no_urls = record {
  image_urls = [];
  video_urls = [];
  rejected_media_urls = [];
  malformed_media_urls = [];
}

abbrev pub is_listed : Text → MediaUrls → Bool
is_listed url m =
    text_mem url m.image_urls
    || text_mem url m.video_urls
    || text_mem url m.rejected_media_urls
    || text_mem url m.malformed_media_urls

abbrev pub put_url : AssetKind → Text → MediaUrls → MediaUrls
put_url image url m = record m { image_urls = m.image_urls ++ url ∷ [] }
put_url _ url m = record m { video_urls = m.video_urls ++ url ∷ [] }

-- `_malformed`
unfoldable pub malformed : Text → MediaUrls → MediaUrls
malformed src m =
    if text_mem src m.malformed_media_urls
    then m
    else record m { malformed_media_urls = m.malformed_media_urls ++ src ∷ [] }

module _ (is_media_url_safe : Text → Bool) where
  -- `_accept`
  unfoldable pub accept : AssetKind → Text → MediaUrls → MediaUrls
  accept kind full m =
      if is_listed full m
      then m
      else if is_media_url_safe full
      then put_url kind full m
      else record m { rejected_media_urls = m.rejected_media_urls ++ full ∷ [] }

  abbrev accept_joined : AssetKind → Text → Option Text → MediaUrls → MediaUrls
  accept_joined kind src none m = malformed src m
  accept_joined kind src (some full) m = accept kind full m

  -- The loops over the images and over the videos.
  abbrev accept_sources : AssetKind → (Text → Option Text) → List Text → MediaUrls → MediaUrls
  accept_sources kind urljoin [] m = m
  accept_sources kind urljoin (src ∷ srcs) m =
      accept_sources kind urljoin srcs (accept_joined kind src (urljoin src) m)

  abbrev accept_kind : Option AssetKind → Text → MediaUrls → MediaUrls
  accept_kind none full m = m
  accept_kind (some kind) full m = accept kind full m

  abbrev accept_link : Unicode → Option Text → MediaUrls → MediaUrls
  accept_link u none m = m
  accept_link u (some full) m = accept_kind (classify_media_url u full) full m

  -- The loop over the links.
  abbrev accept_links : Unicode → (Text → Option Text) → List Text → MediaUrls → MediaUrls
  accept_links u urljoin [] m = m
  accept_links u urljoin (href ∷ hrefs) m =
      accept_links u urljoin hrefs (accept_link u (urljoin href) m)

  unfoldable pub media_urls : Unicode → Response → MediaUrls
  unfolding accept malformed classify_media_url
  media_urls u r =
      accept_links u r.urljoin r.links
        (accept_sources video r.urljoin r.videos (accept_sources image r.urljoin r.images no_urls))

abbrev or_empty : Option Text → Text
or_empty none = []
or_empty (some t) = t

abbrev join_breaks : List Text → Text
join_breaks [] = []
join_breaks (t ∷ []) = t
join_breaks (t ∷ s ∷ ts) = let rest = join_breaks (s ∷ ts) in t ++ 10 ∷ rest

-- The title of the page, or else its first heading.
unfoldable pub page_title : Unicode → Response → Text
page_title u r =
    let title = strip u (or_empty r.title) in
    if is_empty title then strip u (or_empty r.heading) else title

-- The paragraphs of the article, or else all of them.
unfoldable pub page_body : Unicode → Response → Text
page_body u r =
    let paras = if is_empty r.article_paragraphs then r.paragraphs else r.article_paragraphs in
    strip u (join_breaks (keep some_text (map (strip u) paras)))
