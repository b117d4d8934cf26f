-- ===== src/Core/Extraction/Downloads.antt =====
-- What extraction.py lets through to the downloads.
use local_content_processor.Prelude.{
  ℕ, ◌+◌, ◌≤◌, ◌<◌, ◌≡◌, refl, sym, ap, ◌∙◌, Bool, true, false, ◌||◌, Option, none, some, List, [],
  ◌∷◌, ◌++◌, if◌then◌else◌, arith, Bool-cases, inl, inr, subst,
}
use local_content_processor.Prelude.Substrings.{text_eq_sound}
use local_content_processor.Prelude.Texts.{Text, text_eq, text_mem, Unicode}
use local_content_processor.Core.Assets.{AssetKind, image, video, text}
use local_content_processor.Core.Extraction.{
  Response, classify_media_url, MediaUrls, no_urls, is_listed, put_url, malformed, accept,
  accept_joined, accept_sources, accept_kind, accept_link, accept_links, media_urls,
}

-- How often a text stands in a list.
abbrev pub occurrences : Text → List Text → ℕ
occurrences t [] = 0
occurrences t (s ∷ ss) = (if text_eq s t then 1 else 0) + occurrences t ss

occurrences-append :
    (t : Text) (ss ts : List Text) → occurrences t (ss ++ ts) ≡ occurrences t ss + occurrences t ts
occurrences-append t [] ts = omega arith
occurrences-append t (s ∷ ss) ts = omega (arith, occurrences-append t ss ts)

not_there : (t : Text) (ss : List Text) → text_mem t ss ≡ false → occurrences t ss ≡ 0
not_there t [] h = refl
not_there t (s ∷ ss) h = ground (arith, not_there t ss)

-- The addresses that are fetched are safe, the rejected ones are not, and no address stands twice in
-- the three lists.
pub record IsSifted (is_safe : Text → Bool) (m : MediaUrls) : Type 0 where
  pub fetched_safe :
      (url : Text)
      → 0 < occurrences url m.image_urls + occurrences url m.video_urls
      → is_safe url ≡ true
  pub rejected_unsafe :
      (url : Text) → 0 < occurrences url m.rejected_media_urls → is_safe url ≡ false
  pub once :
      (url : Text)
      → occurrences url m.image_urls
          + occurrences url m.video_urls
          + occurrences url m.rejected_media_urls
        ≤ 1

module _ (is_safe : Text → Bool) where
  malformed-IsSifted :
      (src : Text) (m : MediaUrls) → IsSifted is_safe m → IsSifted is_safe (malformed src m)
  unfolding malformed
  malformed-IsSifted src m h = pick (text_mem src m.malformed_media_urls)
    where
      pick :
          (b : Bool)
          → IsSifted is_safe (
              if b
              then m
              else record m { malformed_media_urls = m.malformed_media_urls ++ src ∷ [] })
      pick true = h
      pick false = record {
        fetched_safe = h.fetched_safe;
        rejected_unsafe = h.rejected_unsafe;
        once = h.once;
      }

  -- A new address at the end of one of the lists.
  one_more :
      (url full : Text) (ts : List Text)
      → occurrences url (ts ++ full ∷ []) ≡ occurrences url ts + (if text_eq full url then 1 else 0)
  one_more url full ts = omega (arith, occurrences-append url ts (full ∷ []))

  or_none : (a b c d : Bool) → (a || b || c || d) ≡ false → (a ≡ false) × (b ≡ false) × (c ≡ false)
  or_none false false false d h = (refl, refl, refl)
  or_none true b c d h = cc h
  or_none false true c d h = cc h
  or_none false false true d h = cc h

  -- The address that is accepted stands in none of the lists yet.
  module _ (full : Text) (m : MediaUrls) (h : IsSifted is_safe m)
      (fresh : is_listed full m ≡ false) where
    unlisted :
        (url : Text)
        → text_eq full url ≡ true
        → (full ≡ url)
          × (occurrences url m.image_urls ≡ 0)
          × (occurrences url m.video_urls ≡ 0)
          × (occurrences url m.rejected_media_urls ≡ 0)
    unlisted url e =
        let same = text_eq_sound full url e in
        let free =
          or_none (text_mem full m.image_urls) (text_mem full m.video_urls)
            (text_mem full m.rejected_media_urls) (text_mem full m.malformed_media_urls) fresh in
        (
          same,
          subst (λ t. occurrences t m.image_urls ≡ 0) same (not_there full m.image_urls free.0),
          subst (λ t. occurrences t m.video_urls ≡ 0) same (not_there full m.video_urls free.1),
          subst (λ t. occurrences t m.rejected_media_urls ≡ 0) same
              (not_there full m.rejected_media_urls free.2),
        )

    image-IsSifted :
        is_safe full ≡ true → IsSifted is_safe (record m { image_urls = m.image_urls ++ full ∷ [] })
    image-IsSifted safe = record {
      fetched_safe = λ url some_there. elim (Bool-cases (text_eq full url)) [
        | inl e ↦ sym (ap is_safe (unlisted url e).0) ∙ safe
        | inr e ↦ h.fetched_safe url (ground (arith, one_more url full m.image_urls))
      ];
      rejected_unsafe = h.rejected_unsafe;
      once = λ url. elim (Bool-cases (text_eq full url)) [
        | inl e ↦
            let u = unlisted url e in ground (arith, one_more url full m.image_urls, u.1, u.2, u.3)
        | inr e ↦ ground (arith, one_more url full m.image_urls, h.once url)
      ];
    }

    video-IsSifted :
        is_safe full ≡ true → IsSifted is_safe (record m { video_urls = m.video_urls ++ full ∷ [] })
    video-IsSifted safe = record {
      fetched_safe = λ url some_there. elim (Bool-cases (text_eq full url)) [
        | inl e ↦ sym (ap is_safe (unlisted url e).0) ∙ safe
        | inr e ↦ h.fetched_safe url (ground (arith, one_more url full m.video_urls))
      ];
      rejected_unsafe = h.rejected_unsafe;
      once = λ url. elim (Bool-cases (text_eq full url)) [
        | inl e ↦
            let u = unlisted url e in ground (arith, one_more url full m.video_urls, u.1, u.2, u.3)
        | inr e ↦ ground (arith, one_more url full m.video_urls, h.once url)
      ];
    }

    rejected-IsSifted :
        is_safe full ≡ false
        → IsSifted is_safe (record m { rejected_media_urls = m.rejected_media_urls ++ full ∷ [] })
    rejected-IsSifted unsafe = record {
      fetched_safe = h.fetched_safe;
      rejected_unsafe = λ url some_there. elim (Bool-cases (text_eq full url)) [
        | inl e ↦ sym (ap is_safe (unlisted url e).0) ∙ unsafe
        | inr e ↦ h.rejected_unsafe url (ground (arith, one_more url full m.rejected_media_urls))
      ];
      once = λ url. elim (Bool-cases (text_eq full url)) [
        | inl e ↦
            let u = unlisted url e in
            ground (arith, one_more url full m.rejected_media_urls, u.1, u.2, u.3)
        | inr e ↦ ground (arith, one_more url full m.rejected_media_urls, h.once url)
      ];
    }

    put_url-IsSifted : (k : AssetKind) → is_safe full ≡ true → IsSifted is_safe (put_url k full m)
    put_url-IsSifted image safe = image-IsSifted safe
    put_url-IsSifted video safe = video-IsSifted safe
    put_url-IsSifted text safe = video-IsSifted safe

  accept-IsSifted :
      (k : AssetKind) (full : Text) (m : MediaUrls)
      → IsSifted is_safe m
      → IsSifted is_safe (accept is_safe k full m)
  unfolding accept
  accept-IsSifted k full m h = elim (Bool-cases (is_listed full m)) [
    | inl e ↦ subst (IsSifted is_safe) (sym (listed e)) h
    | inr e ↦ elim (Bool-cases (is_safe full)) [
      | inl s ↦ subst (IsSifted is_safe) (sym (safe e s)) (put_url-IsSifted full m h e k s)
      | inr s ↦ subst (IsSifted is_safe) (sym (unsafe e s)) (rejected-IsSifted full m h e s)
    ]
  ]
    where
      listed : is_listed full m ≡ true → accept is_safe k full m ≡ m
      listed e = rw e

      safe :
          is_listed full m ≡ false
          → is_safe full ≡ true
          → accept is_safe k full m ≡ put_url k full m
      safe e s = rw (e, s)

      unsafe :
          is_listed full m ≡ false
          → is_safe full ≡ false
          → accept is_safe k full m
            ≡ record m { rejected_media_urls = m.rejected_media_urls ++ full ∷ [] }
      unsafe e s = rw (e, s)

  accept_joined-IsSifted :
      (k : AssetKind) (src : Text) (full : Option Text) (m : MediaUrls)
      → IsSifted is_safe m
      → IsSifted is_safe (accept_joined is_safe k src full m)
  accept_joined-IsSifted k src none m h = malformed-IsSifted src m h
  accept_joined-IsSifted k src (some full) m h = accept-IsSifted k full m h

  accept_sources-IsSifted :
      (k : AssetKind) (urljoin : Text → Option Text) (srcs : List Text) (m : MediaUrls)
      → IsSifted is_safe m
      → IsSifted is_safe (accept_sources is_safe k urljoin srcs m)
  accept_sources-IsSifted k urljoin [] m h = h
  accept_sources-IsSifted k urljoin (src ∷ srcs) m h =
      accept_sources-IsSifted k urljoin srcs _ (accept_joined-IsSifted k src (urljoin src) m h)

  accept_kind-IsSifted :
      (k : Option AssetKind) (full : Text) (m : MediaUrls)
      → IsSifted is_safe m
      → IsSifted is_safe (accept_kind is_safe k full m)
  accept_kind-IsSifted none full m h = h
  accept_kind-IsSifted (some k) full m h = accept-IsSifted k full m h

  accept_link-IsSifted :
      (u : Unicode) (full : Option Text) (m : MediaUrls)
      → IsSifted is_safe m
      → IsSifted is_safe (accept_link is_safe u full m)
  accept_link-IsSifted u none m h = h
  accept_link-IsSifted u (some full) m h = accept_kind-IsSifted (classify_media_url u full) full m h

  accept_links-IsSifted :
      (u : Unicode) (urljoin : Text → Option Text) (hrefs : List Text) (m : MediaUrls)
      → IsSifted is_safe m
      → IsSifted is_safe (accept_links is_safe u urljoin hrefs m)
  accept_links-IsSifted u urljoin [] m h = h
  accept_links-IsSifted u urljoin (href ∷ hrefs) m h =
      accept_links-IsSifted u urljoin hrefs _ (accept_link-IsSifted u (urljoin href) m h)

  -- Of any page, the media that are fetched have passed the check of their address, the rejected ones
  -- have not, and no address stands twice in the lists of images, videos and rejected addresses.
  pub media_urls-IsSifted : (u : Unicode) (r : Response) → IsSifted is_safe (media_urls is_safe u r)
  unfolding media_urls
  media_urls-IsSifted u r =
      let nothing : IsSifted is_safe no_urls = record {
        fetched_safe = λ url h. absurd (omega (arith, h));
        rejected_unsafe = λ url h. absurd (omega (arith, h));
        once = λ url. omega arith;
      } in
      accept_links-IsSifted u r.urljoin r.links _ (
        accept_sources-IsSifted video r.urljoin r.videos _
          (accept_sources-IsSifted image r.urljoin r.images no_urls nothing))
