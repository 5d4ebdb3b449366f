-- ===== src/Kernel/Content/Validation/Embeds.antt =====
-- What the check of embeds of crates/kernel/src/content.rs accepts.
use open_soverign_blog.Prelude.{
  ◌≤◌, ◌≡◌, ◌≢◌, refl, ◌↔◌, ◌⊎◌, inl, inr, true, false, none, List, [], ◌∷◌, map, All, Distinct,
  arith, length, any, ok, false_iff, Bool-cases, not,
}
use open_soverign_blog.Text.{
  Text, codes, byte_len, is_blank, has_text, has_text_iff, text_eq, text_eq_iff, length-to_set_iff,
  Apart, Apart-cons, Apart-tail, Apart-nil,
}
use open_soverign_blog.Kernel.Content.Layers.{EmbedReference, Url}
use open_soverign_blog.Kernel.Content.Validation.{
  safe_identifier, invalid_purposes, invalid_url, invalid_embed_fields, validate_each_embed,
  validate_embeds,
}

-- The purposes of an embed: at most 128 safe identifiers, none twice.
pub record ArePurposes (purposes : List Text) : Type 0 where
  pub size : length purposes ≤ 128
  pub safe : All (λ p. safe_identifier p ≡ true) purposes
  pub distinct : Distinct purposes

-- No credentials, and a host to name.
pub record IsWebUrl (url : Url) : Type 0 where
  pub scheme : (url.scheme ≡ codes "http") ⊎ (url.scheme ≡ codes "https")
  pub host : url.host_str ≢ none
  pub username : url.username ≡ []
  pub password : url.password ≡ none

pub record IsEmbed (e : EmbedReference) : Type 0 where
  pub id : safe_identifier e.id ≡ true
  pub provider : safe_identifier e.provider ≡ true
  pub resource_id : is_blank e.resource_id ≡ false
  pub resource_size : byte_len e.resource_id ≤ 2000
  pub title : is_blank e.title ≡ false
  pub title_size : byte_len e.title ≤ 500
  pub url : IsWebUrl e.canonical_url
  pub purposes : ArePurposes e.consent_purpose_ids

no_unsafe_iff :
    (ps : List Text)
    → (any (λ p. not (safe_identifier p)) ps ≡ false) ↔ All (λ p. safe_identifier p ≡ true) ps
no_unsafe_iff [] = (λ h. tt, λ h. refl)
no_unsafe_iff (p ∷ ps) =
    let (to, of) = no_unsafe_iff ps in
    (λ h. (ground arith, to (ground arith)), λ h. ground (arith, h.0, of h.1))

purposes_iff : (ps : List Text) → (invalid_purposes ps ≡ false) ↔ ArePurposes ps
unfolding invalid_purposes
purposes_iff ps =
    let (safe, of_safe) = no_unsafe_iff ps in
    let (distinct, of_distinct) = length-to_set_iff ps in
    (
      λ h. record {
        size = ground arith;
        safe = safe (ground arith);
        distinct = distinct (ground arith);
      },
      λ a. ground (arith, a.size, of_safe a.safe, of_distinct a.distinct),
    )

url_iff : (url : Url) → (invalid_url url ≡ false) ↔ IsWebUrl url
unfolding invalid_url
url_iff url =
    let (http, of_http) = text_eq_iff url.scheme (codes "http") in
    let (https, of_https) = text_eq_iff url.scheme (codes "https") in
    (
      λ h. record {
        scheme = elim (Bool-cases (text_eq url.scheme (codes "http"))) [
          | inl e ↦ inl (http e)
          | inr e ↦ inr (https (ground arith))
        ];
        host = ground arith;
        username = ground arith;
        password = ground arith;
      },
      λ w. elim w.scheme [
        | inl e ↦ ground (arith, of_http e, w.host, w.username, w.password)
        | inr e ↦ ground (arith, of_https e, w.host, w.username, w.password)
      ],
    )

fields_iff : (e : EmbedReference) → (invalid_embed_fields e ≡ false) ↔ IsEmbed e
unfolding invalid_embed_fields
fields_iff e =
    let (purposes, of_purposes) = purposes_iff e.consent_purpose_ids in
    let (url, of_url) = url_iff e.canonical_url in
    (
      λ h. record {
        id = ground arith;
        provider = ground arith;
        resource_id = ground arith;
        resource_size = ground arith;
        title = ground arith;
        title_size = ground arith;
        url = url (ground arith);
        purposes = purposes (ground arith);
      },
      λ v. ground (
        arith,
        v.id,
        v.provider,
        v.resource_id,
        v.resource_size,
        v.title,
        v.title_size,
        of_url v.url,
        of_purposes v.purposes,
      ),
    )

abbrev ids : List EmbedReference → List Text
ids values = map EmbedReference.id values

each_iff :
    (seen : List Text) (values : List EmbedReference)
    → (validate_each_embed seen values ≡ ok tt)
      ↔ (All IsEmbed values × Distinct (ids values) × Apart seen (ids values))
unfolding validate_each_embed
each_iff seen [] = (λ h. (tt, tt, tt), λ h. refl)
each_iff seen (value ∷ values) =
    let (to, of) = each_iff (value.id ∷ seen) values in
    let (fields, of_fields) = fields_iff value in
    let (absent, fresh) = false_iff (has_text seen value.id) (has_text_iff seen value.id) in
    (
      λ h.
          let (rest, distinct, apart) = to (ground arith) in
          let (free, n) = Apart-tail value.id seen (ids values) apart in
          ((fields (ground arith), rest), (n, distinct), (absent (ground arith), free)),
      λ h.
          let rest = of (h.0.1, h.1.1, Apart-cons value.id seen (ids values) h.2.1 h.1.0) in
          ground (arith, of_fields h.0.0, fresh h.2.0),
    )

pub record AreEmbeds (values : List EmbedReference) : Type 0 where
  pub size : length values ≤ 10000
  pub each : All IsEmbed values
  pub distinct : Distinct (map EmbedReference.id values)

-- A list of embeds is accepted exactly when it has at most 10000 entries, each entry is within its
-- limits and points to an HTTP or HTTPS address with a host and no credentials, and no two entries
-- share an identifier.
pub validate_embeds_iff :
    (values : List EmbedReference) → (validate_embeds values ≡ ok tt) ↔ AreEmbeds values
unfolding validate_embeds
validate_embeds_iff values =
    let (to, of) = each_iff [] values in
    (
      λ h.
          let (each, distinct, apart) = to (ground arith) in
          record { size = ground arith; each = each; distinct = distinct },
      λ a. ground (arith, a.size, of (a.each, a.distinct, Apart-nil (ids values))),
    )
