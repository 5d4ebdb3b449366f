-- ===== src/Features/Monetization/FirstPartyAd/Escaping.antt =====
-- The markup of features/monetization-policy/src/first_party_ad.rs: what a text can do in it.
use open_soverign_blog.Prelude.{
  ℕ, ◌≡◌, refl, Bool, [], ◌∷◌, ◌++◌, arith, ◌==◌, ◌||◌, filter, Option, ◌∙◌, sym, List,
}
use open_soverign_blog.Prelude.{none, some}
use open_soverign_blog.Text.{Text}
use open_soverign_blog.Features.Monetization.FirstPartyAd.{
  escaped_char, escaped_html, FirstPartyAd, image_html, link_html, render_safe_html,
  FirstPartyImage, render_plan_as_html, render_plan, pushed,
}
use open_soverign_blog.Kernel.Content.{Url}

escaped_char-injective :
    (c d : ℕ) (s t : Text) → escaped_char c ++ s ≡ escaped_char d ++ t → (c ≡ d) × (s ≡ t)
unfolding escaped_char
escaped_char-injective c d s t e = (ground arith, ground arith)

-- A text can be read back from what it is written as: two texts that are written in the same way are
-- the same.
pub escaped_html-injective : (s t : Text) → escaped_html s ≡ escaped_html t → s ≡ t
unfolding escaped_html escaped_char
escaped_html-injective [] [] e = refl
escaped_html-injective [] (d ∷ t) e = ground arith
escaped_html-injective (c ∷ s) [] e = ground arith
escaped_html-injective (c ∷ s) (d ∷ t) e =
    let (same, rest) = escaped_char-injective c d (escaped_html s) (escaped_html t) e in
    let tail = escaped_html-injective s t rest in cc

-- A character that opens or closes a tag, or that ends an attribute.
abbrev pub is_markup : ℕ → Bool
is_markup c = c == b'<' || c == b'>' || c == b'"' || c == 39

-- The markup characters of a text, in their order.
abbrev pub markup : Text → Text
markup s = filter is_markup s

markup-append : (s t : Text) → markup (s ++ t) ≡ markup s ++ markup t
markup-append [] t = refl
markup-append (c ∷ s) t = ground (arith, markup-append s t)

escaped_char-inert : (c : ℕ) → markup (escaped_char c) ≡ []
unfolding escaped_char
escaped_char-inert c = ground arith

escaped_html-inert : (s : Text) → markup (escaped_html s) ≡ []
unfolding escaped_html
escaped_html-inert [] = refl
escaped_html-inert (c ∷ s) =
    rw (markup-append (escaped_char c) (escaped_html s), escaped_char-inert c)
      (escaped_html-inert s)

-- Parts that have the same markup one by one have it together.
infixr 5 ◌▸◌
data SameMarkup : List Text → List Text → Type 0 where
  done : SameMarkup [] []
  ◌▸◌ :
      {s t : Text} {ss ts : List Text}
      → markup s ≡ markup t
      → SameMarkup ss ts
      → SameMarkup (s ∷ ss) (t ∷ ts)

pushed-SameMarkup : (ss ts : List Text) → SameMarkup ss ts → markup (pushed ss) ≡ markup (pushed ts)
unfolding pushed
pushed-SameMarkup ss ts done = refl
pushed-SameMarkup (s ∷ ss) (t ∷ ts) (e ▸ h) =
    rw (markup-append s (pushed ss), markup-append t (pushed ts), e, pushed-SameMarkup ss ts h) refl

-- The ad with every text of its author removed: what is left is its slot, its label, and whether it
-- has an image and a link.
abbrev blank_image : Option FirstPartyImage → Option FirstPartyImage
blank_image none = none
blank_image (some image) = some (record { media_path = []; alt_text = [] })

abbrev blank_link : Option Url → Option Url
blank_link none = none
blank_link (some url) = some (record url { as_str = [] })

abbrev pub skeleton : FirstPartyAd → FirstPartyAd
skeleton ad = record ad {
  ad_id = [];
  sponsor_name = [];
  body_text = [];
  click_url = blank_link ad.click_url;
  image = blank_image ad.image;
}

inert : (s : Text) → markup (escaped_html s) ≡ markup (escaped_html [])
inert s = escaped_html-inert s ∙ sym (escaped_html-inert [])

image_html-skeleton :
    (image : Option FirstPartyImage)
    → markup (image_html image) ≡ markup (image_html (blank_image image))
unfolding image_html
image_html-skeleton none = refl
image_html-skeleton (some image) =
    pushed-SameMarkup _ _
      (refl ▸ inert image.media_path ▸ refl ▸ inert image.alt_text ▸ refl ▸ done)

link_html-skeleton :
    (link : Option Url) → markup (link_html link) ≡ markup (link_html (blank_link link))
unfolding link_html
link_html-skeleton none = refl
link_html-skeleton (some url) = pushed-SameMarkup _ _ (refl ▸ inert url.as_str ▸ refl ▸ done)

-- The characters of the rendered ad that open or close a tag or delimit an attribute are those of the
-- ad without its author's texts, in the same order: no identifier, sponsor, body, address or image
-- text adds, removes or moves one.
pub render_safe_html-inert :
    (ad : FirstPartyAd)
    → markup (render_safe_html (record { ad = ad }))
      ≡ markup (render_safe_html (record { ad = skeleton ad }))
unfolding render_safe_html render_plan_as_html render_plan
render_safe_html-inert ad = pushed-SameMarkup _ _ (
    refl
    ▸ inert ad.ad_id
    ▸ refl
    ▸ refl
    ▸ refl
    ▸ refl
    ▸ refl
    ▸ refl
    ▸ refl
    ▸ inert ad.sponsor_name
    ▸ refl
    ▸ image_html-skeleton ad.image
    ▸ refl
    ▸ inert ad.body_text
    ▸ refl
    ▸ link_html-skeleton ad.click_url
    ▸ refl
    ▸ done)
