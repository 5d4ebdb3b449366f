-- ===== src/Features/Monetization/FirstPartyAd/Static.antt =====
-- Which ads features/monetization-policy/src/first_party_ad.rs shows without consent.
use open_soverign_blog.Prelude.{
  ℕ, ◌≤◌, ◌≡◌, ◌≢◌, refl, ◌↔◌, true, false, ◌&&◌, ◌||◌, not, ◌==◌, Option, none, some, [], ◌++◌,
  arith, All, IfSome, length, all, none_bad_iff, ok, then_iff, reject_iff, >>-value_iff,
}
use open_soverign_blog.Text.{
  Text, codes, byte_len, is_blank, is_control, is_lower_hex, has_prefix_iff, skip, text_eq_iff,
  text_eq,
}
use open_soverign_blog.Kernel.Content.{Url}
use open_soverign_blog.Features.Monetization.FirstPartyAd.{
  FirstPartyAd, FirstPartyImage, StaticDeliveryPolicy, AuthorizedFirstPartyAd, AdCheck,
  expected_disclosure, label_eq, first_party_ad_schema_version, media_path_prefix, stable_id,
  validate_stable_id, validate_plain_text, validate_click_url, validate_media_path, validate_image,
  validate_delivery, first_active, check_some, validate_ad, authorize_without_consent,
  DisclosureLabel,
}

-- No control character but a line feed or a tab.
abbrev pub IsPlain : ℕ → Type 0
IsPlain c = (is_control c && not (c == 10 || c == 9)) ≡ false

pub record IsPlainText (limit : ℕ) (value : Text) : Type 0 where
  pub not_blank : is_blank value ≡ false
  pub size : length value ≤ limit
  pub plain : All IsPlain value

pub record IsClickUrl (url : Url) : Type 0 where
  pub size : byte_len url.as_str ≤ 2048
  pub scheme : url.scheme ≡ codes "https"
  pub base : url.cannot_be_a_base ≡ false
  pub host : url.host_str ≢ none
  pub username : url.username ≡ []
  pub password : url.password ≡ none
  pub fragment : url.fragment ≡ none

-- A path below the media prefix that is 64 lowercase hexadecimal digits.
pub record IsMediaPath (value : Text) : Type 0 where
  pub prefixed : value ≡ media_path_prefix ++ skip media_path_prefix value
  pub size : byte_len (skip media_path_prefix value) ≡ 64
  pub hex : all is_lower_hex (skip media_path_prefix value) ≡ true

pub record IsImage (image : FirstPartyImage) : Type 0 where
  pub media_path : IsMediaPath image.media_path
  pub alt_text : IsPlainText 300 image.alt_text

-- No capability is used.
pub record IsStaticDelivery (p : StaticDeliveryPolicy) : Type 0 where
  pub third_party_fetches : p.third_party_fetches ≡ false
  pub scripts : p.scripts ≡ false
  pub tracking_pixels : p.tracking_pixels ≡ false
  pub raw_html : p.raw_html ≡ false
  pub personalization : p.personalization ≡ false
  pub browser_storage : p.browser_storage ≡ false
  pub identifiers : p.identifiers ≡ false
  pub measurement : p.measurement ≡ false

pub record IsStaticAd (ad : FirstPartyAd) : Type 0 where
  pub schema_version : ad.schema_version ≡ first_party_ad_schema_version
  pub ad_id : stable_id ad.ad_id ≡ true
  pub disclosure : ad.disclosure ≡ expected_disclosure ad.kind
  pub sponsor_name : IsPlainText 200 ad.sponsor_name
  pub body_text : IsPlainText 2000 ad.body_text
  pub click_url : IfSome IsClickUrl ad.click_url
  pub image : IfSome IsImage ad.image
  pub delivery : IsStaticDelivery ad.delivery

IsPlainText-iff :
    (limit : ℕ) (value : Text) (e : _)
    → (validate_plain_text value limit e ≡ ok tt) ↔ IsPlainText limit value
unfolding validate_plain_text
IsPlainText-iff limit value e =
    let (plain, of_plain) =
      none_bad_iff (λ c. is_control c && not (c == 10 || c == 9)) IsPlain (λ c. (λ h. h, λ h. h))
        value in
    (
      λ h. record { not_blank = ground arith; size = ground arith; plain = plain (ground arith) },
      λ p. ground (arith, p.not_blank, p.size, of_plain p.plain),
    )

IsClickUrl-iff : (url : Url) → (validate_click_url url ≡ ok tt) ↔ IsClickUrl url
unfolding validate_click_url
IsClickUrl-iff url =
    let (https, of_https) = text_eq_iff url.scheme (codes "https") in
    (
      λ h. record {
        size = ground arith;
        scheme = https (ground arith);
        base = ground arith;
        host = ground arith;
        username = ground arith;
        password = ground arith;
        fragment = ground arith;
      },
      λ u.
          ground
            (arith, u.size, of_https u.scheme, u.base, u.host, u.username, u.password, u.fragment),
    )

IsMediaPath-iff : (value : Text) → (validate_media_path value ≡ ok tt) ↔ IsMediaPath value
unfolding validate_media_path
IsMediaPath-iff value =
    let (split, join) = has_prefix_iff media_path_prefix value in
    (
      λ h. record { prefixed = split (ground arith); size = ground arith; hex = ground arith },
      λ p. ground (arith, join p.prefixed, p.size, p.hex),
    )

IsImage-iff : (image : FirstPartyImage) → (validate_image image ≡ ok tt) ↔ IsImage image
unfolding validate_image
IsImage-iff image =
    let (to, of) =
      then_iff _ _ (IsMediaPath-iff image.media_path) (IsPlainText-iff 300 image.alt_text _) in
    (λ h. record { media_path = (to h).0; alt_text = (to h).1 }, λ i. of (i.media_path, i.alt_text))

delivery_iff : (p : StaticDeliveryPolicy) → (validate_delivery p ≡ ok tt) ↔ IsStaticDelivery p
unfolding validate_delivery first_active
delivery_iff p = (
  λ h. record {
    third_party_fetches = ground arith;
    scripts = ground arith;
    tracking_pixels = ground arith;
    raw_html = ground arith;
    personalization = ground arith;
    browser_storage = ground arith;
    identifiers = ground arith;
    measurement = ground arith;
  },
  λ d. ground (arith, d),
)

check_some_iff :
    {A : Type 0} {P : A → Type 0} (check : A → AdCheck)
    → ((a : A) → (check a ≡ ok tt) ↔ P a)
    → (o : Option A) → (check_some check o ≡ ok tt) ↔ IfSome P o
check_some_iff check iff none = (λ h. tt, λ h. refl)
check_some_iff check iff (some a) = iff a

schema_iff :
    (value : Text)
    → (not (text_eq value first_party_ad_schema_version) ≡ false)
      ↔ (value ≡ first_party_ad_schema_version)
schema_iff value =
    let (to, of) = text_eq_iff value first_party_ad_schema_version in
    (λ h. to (ground arith), λ e. ground (arith, of e))

id_iff : (value : Text) → (validate_stable_id value ≡ ok tt) ↔ (stable_id value ≡ true)
unfolding validate_stable_id
id_iff value = (λ h. ground arith, λ h. ground arith)

label_iff : (d e : DisclosureLabel) → (not (label_eq d e) ≡ false) ↔ (d ≡ e)
label_iff d e = (λ h. ground arith, λ h. ground arith)

validate_ad_iff : (ad : FirstPartyAd) → (validate_ad ad ≡ ok tt) ↔ IsStaticAd ad
unfolding validate_ad
validate_ad_iff ad =
    let (to, of) = then_iff _ _ (reject_iff _ _ (schema_iff ad.schema_version)) (
      then_iff _ _ (id_iff ad.ad_id) (
        then_iff _ _ (reject_iff _ _ (label_iff ad.disclosure (expected_disclosure ad.kind))) (
          then_iff _ _ (IsPlainText-iff 200 ad.sponsor_name _) (
            then_iff _ _ (IsPlainText-iff 2000 ad.body_text _) (
              then_iff _ _ (check_some_iff validate_click_url IsClickUrl-iff ad.click_url) (
                then_iff _ _ (check_some_iff validate_image IsImage-iff ad.image)
                  (delivery_iff ad.delivery))))))) in
    (
      λ h.
          let (version, (id, (label, (sponsor, (body, (link, (image, delivery))))))) = to h in
          record {
            schema_version = version;
            ad_id = id;
            disclosure = label;
            sponsor_name = sponsor;
            body_text = body;
            click_url = link;
            image = image;
            delivery = delivery;
          },
      λ a. of (
        a.schema_version,
        (
          a.ad_id,
          (a.disclosure, (a.sponsor_name, (a.body_text, (a.click_url, (a.image, a.delivery))))),
        ),
      ),
    )

-- An ad is authorised without consent exactly when it has the supported schema version, a stable
-- identifier, the disclosure label of its kind, plain texts within their limits, a link (if any) that
-- is HTTPS with a host and without credentials or fragment, an image (if any) below the media path
-- with a SHA-256 digest as its name, and a delivery that uses no active capability. The authorised
-- value is the ad itself.
pub authorize_without_consent-ok_iff :
    (ad : FirstPartyAd) (a : AuthorizedFirstPartyAd)
    → (authorize_without_consent ad ≡ ok a) ↔ (IsStaticAd ad × (record { ad = ad } ≡ a))
unfolding authorize_without_consent
authorize_without_consent-ok_iff ad a =
    let (passes, pass) = >>-value_iff (validate_ad ad) (record { ad = ad }) a in
    let (to, of) = validate_ad_iff ad in
    (λ h. (to (passes h).0, (passes h).1), λ h. pass (of h.0, h.1))
