-- ===== src/Features/Monetization/FirstPartyAd.antt =====
-- features/monetization-policy/src/first_party_ad.rs: static ads that need no consent.
pub mod Static
pub mod Escaping
use Prim.Native.String.{String}
use open_soverign_blog.Prelude.{
  ℕ, ◌*◌, Bool, true, false, ◌&&◌, ◌||◌, not, Option, none, some, List, [], ◌∷◌, ◌++◌, ltb, leb,
  ◌==◌, if◌then◌else◌, length, is_empty, any, all, is_some, Result, ok, err, ◌>>=◌, ◌>>◌, reject_if,
}
use open_soverign_blog.Text.{
  Text, codes, byte_len, is_blank, is_control, is_ascii_digit, is_ascii_lowercase, is_lower_hex,
  has_prefix, skip, text_eq,
}
use open_soverign_blog.Kernel.Content.{Url}
use open_soverign_blog.Features.Monetization.{
  GateError, invalid_static_ad, restricted_static_delivery,
}

abbrev pub first_party_ad_schema_version : Text
first_party_ad_schema_version = codes "1.0"

abbrev pub media_path_prefix : Text
media_path_prefix = codes "/media/"

pub data FirstPartyAdKind : Type 0 where
  house_ad direct_sponsor : FirstPartyAdKind

pub data NamedAdSlot : Type 0 where
  article_footer : NamedAdSlot

pub data DisclosureLabel : Type 0 where
  advertisement sponsored : DisclosureLabel

-- `NamedAdSlot::as_str` and `DisclosureLabel::as_str`
abbrev pub slot_as_str : NamedAdSlot → Text
slot_as_str article_footer = codes "article_footer"

abbrev pub label_as_str : DisclosureLabel → Text
label_as_str advertisement = codes "Advertisement"
label_as_str sponsored = codes "Sponsored"

pub record FirstPartyImage : Type 0 where
  pub media_path : Text
  pub alt_text : Text

pub record StaticDeliveryPolicy : Type 0 where
  pub third_party_fetches : Bool
  pub scripts : Bool
  pub tracking_pixels : Bool
  pub raw_html : Bool
  pub personalization : Bool
  pub browser_storage : Bool
  pub identifiers : Bool
  pub measurement : Bool

pub record FirstPartyAd : Type 0 where
  pub schema_version : Text
  pub ad_id : Text
  pub kind : FirstPartyAdKind
  pub slot : NamedAdSlot
  pub disclosure : DisclosureLabel
  pub sponsor_name : Text
  pub body_text : Text
  pub click_url : Option Url
  pub image : Option FirstPartyImage
  pub delivery : StaticDeliveryPolicy

pub record StaticAdRenderPlan : Type 0 where
  pub ad_id : Text
  pub slot : NamedAdSlot
  pub disclosure : DisclosureLabel
  pub sponsor_name : Text
  pub body_text : Text
  pub click_url : Option Url
  pub image : Option FirstPartyImage

abbrev pub AdCheck : Type 0
AdCheck = Result (Unit {0}) GateError

abbrev starts_id : Text → Bool
starts_id [] = false
starts_id (c ∷ s) = is_ascii_lowercase c || is_ascii_digit c

unfoldable pub stable_id : Text → Bool
stable_id value =
    not (is_empty value)
    && leb (byte_len value) 128
    && starts_id value
    && all
        (λ c.
          is_ascii_lowercase c
          || is_ascii_digit c
          || (c == b'.' || c == b'_' || c == b':' || c == b'-'))
        value

unfoldable pub validate_stable_id : Text → AdCheck
validate_stable_id value = reject_if (not (stable_id value)) (invalid_static_ad "ad id is invalid")

unfoldable pub validate_plain_text : Text → ℕ → String → AdCheck
validate_plain_text value max_length length_error = do
  reject_if (is_blank value || ltb max_length (length value)) (invalid_static_ad length_error)
  reject_if (any (λ c. is_control c && not (c == 10 || c == 9)) value)
      (invalid_static_ad "plain text contains a restricted control character")

unfoldable pub validate_click_url : Url → AdCheck
validate_click_url url =
    reject_if
      (ltb 2048 (byte_len url.as_str)
        || not (text_eq url.scheme (codes "https"))
        || url.cannot_be_a_base
        || not (is_some url.host_str)
        || not (is_empty url.username)
        || is_some url.password
        || is_some url.fragment)
      (invalid_static_ad "click URL must be credential-free HTTPS without a fragment")

unfoldable pub validate_media_path : Text → AdCheck
validate_media_path value = do
  reject_if (not (has_prefix media_path_prefix value))
      (invalid_static_ad "image must use a first-party media path")
  reject_if
      (not (byte_len (skip media_path_prefix value) == 64)
        || not (all is_lower_hex (skip media_path_prefix value)))
      (invalid_static_ad "image media path must contain a lowercase SHA-256 digest")

-- `FirstPartyImage::digest`
unfoldable pub image_digest : FirstPartyImage → Result Text GateError
image_digest image = do
  validate_media_path image.media_path
  ok (skip media_path_prefix image.media_path)

-- `FirstPartyImage::validate`
unfoldable pub validate_image : FirstPartyImage → AdCheck
validate_image image = do
  validate_media_path image.media_path
  validate_plain_text image.alt_text 300 "image alt text is empty or too long"

-- `find` of the first active capability
unfoldable pub first_active : List (String × Bool) → Option String
first_active [] = none
first_active ((capability, active) ∷ rest) = if active then some capability else first_active rest

abbrev pub restrictions : StaticDeliveryPolicy → List (String × Bool)
restrictions p =
    ("third_party_fetches", p.third_party_fetches)
    ∷ ("scripts", p.scripts)
    ∷ ("tracking_pixels", p.tracking_pixels)
    ∷ ("raw_html", p.raw_html)
    ∷ ("personalization", p.personalization)
    ∷ ("browser_storage", p.browser_storage)
    ∷ ("identifiers", p.identifiers)
    ∷ ("measurement", p.measurement)
    ∷ []

reject_active : Option String → AdCheck
reject_active none = ok tt
reject_active (some capability) = err (restricted_static_delivery capability)

-- `StaticDeliveryPolicy::validate`
unfoldable pub validate_delivery : StaticDeliveryPolicy → AdCheck
unfolding reject_active first_active
validate_delivery p = reject_active (first_active (restrictions p))

abbrev pub label_eq : DisclosureLabel → DisclosureLabel → Bool
label_eq advertisement advertisement = true
label_eq sponsored sponsored = true
label_eq _ _ = false

abbrev pub expected_disclosure : FirstPartyAdKind → DisclosureLabel
expected_disclosure house_ad = advertisement
expected_disclosure direct_sponsor = sponsored

-- the two `if let`
abbrev pub check_some : {A : Type 0} → (A → AdCheck) → Option A → AdCheck
check_some check none = ok tt
check_some check (some a) = check a

-- `FirstPartyAd::validate`
unfoldable pub validate_ad : FirstPartyAd → AdCheck
validate_ad ad = do
  reject_if (not (text_eq ad.schema_version first_party_ad_schema_version))
      (invalid_static_ad "unsupported schema version")
  validate_stable_id ad.ad_id
  reject_if (not (label_eq ad.disclosure (expected_disclosure ad.kind)))
      (invalid_static_ad "disclosure does not match the ad kind")
  validate_plain_text ad.sponsor_name 200 "sponsor name is empty or too long"
  validate_plain_text ad.body_text 2000 "body text is empty or too long"
  check_some validate_click_url ad.click_url
  check_some validate_image ad.image
  validate_delivery ad.delivery

-- The value that only `authorize_without_consent` makes.
pub record AuthorizedFirstPartyAd : Type 0 where
  pub ad : FirstPartyAd

-- `FirstPartyAd::authorize_without_consent`
unfoldable pub authorize_without_consent : FirstPartyAd → Result AuthorizedFirstPartyAd GateError
authorize_without_consent ad = do validate_ad ad; ok (record { ad = ad })

-- `AuthorizedFirstPartyAd::render_plan`
unfoldable pub render_plan : AuthorizedFirstPartyAd → StaticAdRenderPlan
render_plan authorized =
    let ad = authorized.ad in
    record {
      ad_id = ad.ad_id;
      slot = ad.slot;
      disclosure = ad.disclosure;
      sponsor_name = ad.sponsor_name;
      body_text = ad.body_text;
      click_url = ad.click_url;
      image = ad.image;
    }

-- What one character is written as.
unfoldable pub escaped_char : ℕ → Text
escaped_char c =
    if c == b'&'
    then codes "&amp;"
    else if c == b'<'
    then codes "&lt;"
    else if c == b'>'
    then codes "&gt;"
    else if c == b'"'
    then codes "&quot;"
    else if c == 39
    then codes "&#39;"
    else c ∷ []

-- `push_escaped_html`: what is pushed for a text
unfoldable pub escaped_html : Text → Text
unfolding escaped_char
escaped_html [] = []
escaped_html (c ∷ s) = escaped_char c ++ escaped_html s

-- What is in the output when each of these has been pushed, the first one first.
unfoldable pub pushed : List Text → Text
pushed [] = []
pushed (part ∷ parts) = part ++ pushed parts

unfoldable pub image_html : Option FirstPartyImage → Text
image_html none = []
image_html (some image) = pushed (
    codes "<img class=\"osb-static-ad__image\" src=\""
    ∷ escaped_html image.media_path
    ∷ codes "\" alt=\""
    ∷ escaped_html image.alt_text
    ∷ codes "\" loading=\"lazy\" decoding=\"async\">"
    ∷ [])

unfoldable pub link_html : Option Url → Text
link_html none = []
link_html (some click_url) = pushed (
    codes "<a class=\"osb-static-ad__link\" href=\""
    ∷ escaped_html click_url.as_str
    ∷ codes
        "\" rel=\"nofollow sponsored noopener noreferrer\" referrerpolicy=\"no-referrer\">Visit sponsor</a>"
    ∷ [])

unfoldable pub render_plan_as_html : StaticAdRenderPlan → Text
render_plan_as_html plan = pushed (
    codes "<aside class=\"osb-static-ad\" data-osb-ad-id=\""
    ∷ escaped_html plan.ad_id
    ∷ codes "\" data-osb-slot=\""
    ∷ slot_as_str plan.slot
    ∷ codes "\" aria-label=\""
    ∷ label_as_str plan.disclosure
    ∷ codes "\"><strong class=\"osb-static-ad__disclosure\">"
    ∷ label_as_str plan.disclosure
    ∷ codes "</strong><p class=\"osb-static-ad__sponsor\">"
    ∷ escaped_html plan.sponsor_name
    ∷ codes "</p>"
    ∷ image_html plan.image
    ∷ codes "<p class=\"osb-static-ad__body\">"
    ∷ escaped_html plan.body_text
    ∷ codes "</p>"
    ∷ link_html plan.click_url
    ∷ codes "</aside>"
    ∷ [])

-- `AuthorizedFirstPartyAd::render_safe_html`
unfoldable pub render_safe_html : AuthorizedFirstPartyAd → Text
unfolding render_plan render_plan_as_html
render_safe_html authorized = render_plan_as_html (render_plan authorized)
