-- ===== src/Features/Monetization/Tests.antt =====
-- Runs of features/monetization-policy, and the theorems about it at concrete inputs.
use open_soverign_blog.Prelude.{◌≡◌, ◌↔◌, refl, false, none, some, [], ◌∷◌, In, ok, err}
use open_soverign_blog.Text.{codes, trim, text_eq, byte_len, map_get}
use open_soverign_blog.Kernel.Content.{Url}
use open_soverign_blog.Features.Monetization.{
  ResourceDeclaration, ConsentSnapshot, ResourceGate, granted, consent, consent_required, gate_new,
  gate_authorize, declare_each, invalid_resource, ok_or, check_basis, all_granted,
}
use open_soverign_blog.Features.Monetization.Gate.{MayLoad, authorize_declared_iff}
use open_soverign_blog.Features.Monetization.FirstPartyAd.{
  FirstPartyAd, direct_sponsor, article_footer, sponsored, authorize_without_consent,
  render_safe_html, escaped_html, escaped_char, AuthorizedFirstPartyAd,
}
use open_soverign_blog.Features.Monetization.FirstPartyAd.Static.{
  IsStaticAd, authorize_without_consent-ok_iff,
}
use open_soverign_blog.Features.Monetization.FirstPartyAd.Escaping.{
  markup, skeleton, render_safe_html-inert,
}

abbrev script_url : Url
script_url = record {
  as_str = codes "https://ads.example/script.js";
  scheme = codes "https";
  cannot_be_a_base = false;
  host_str = some (codes "ads.example");
  username = [];
  password = none;
  fragment = none;
}

abbrev script : ResourceDeclaration
script = record {
  id = codes "provider-script";
  url = script_url;
  kind = codes "script";
  purpose_ids = codes "contextual_ads" ∷ codes "measurement" ∷ [];
  terminal_access_basis = consent;
  operator_confirmed = false;
  rationale = none;
}

abbrev gate : ResourceGate
gate = record { declared = (codes "provider-script", script) ∷ [] }

gate_made : gate_new (script ∷ []) ≡ ok gate
unfolding gate_new declare_each invalid_resource trim byte_len text_eq map_get
gate_made = refl

abbrev partial : ConsentSnapshot
partial = record { policy_version = codes "1"; decisions = (codes "contextual_ads", granted) ∷ [] }

abbrev full : ConsentSnapshot
full = record {
  policy_version = codes "1";
  decisions = (codes "contextual_ads", granted) ∷ (codes "measurement", granted) ∷ [];
}

partial_is_refused :
    gate_authorize gate (codes "provider-script") (some partial) ≡ err consent_required
unfolding gate_authorize ok_or check_basis all_granted map_get text_eq
partial_is_refused = refl

full_is_granted : gate_authorize gate (codes "provider-script") (some full) ≡ ok script
unfolding gate_authorize ok_or check_basis all_granted map_get text_eq
full_is_granted = refl

authorize_declared_iff_example :
    (gate_authorize gate (codes "provider-script") (some full) ≡ ok script) ↔ (
      In script (script ∷ [])
      × (codes "provider-script" ≡ codes "provider-script")
      × MayLoad script (some full))
authorize_declared_iff_example =
    authorize_declared_iff (script ∷ []) gate (codes "provider-script") (some full) script gate_made

abbrev ad : FirstPartyAd
ad = record {
  schema_version = codes "1.0";
  ad_id = codes "campaign:summer-1";
  kind = direct_sponsor;
  slot = article_footer;
  disclosure = sponsored;
  sponsor_name = codes "Example & Sons";
  body_text = codes "<script>";
  click_url = some script_url;
  image = none;
  delivery = record {
    third_party_fetches = false;
    scripts = false;
    tracking_pixels = false;
    raw_html = false;
    personalization = false;
    browser_storage = false;
    identifiers = false;
    measurement = false;
  };
}

script_is_escaped : escaped_html (codes "<b>&") ≡ codes "&lt;b&gt;&amp;"
unfolding escaped_html escaped_char
script_is_escaped = refl

abbrev authorized : AuthorizedFirstPartyAd
authorized = record { ad = ad }

authorize_without_consent-ok_iff_example :
    (authorize_without_consent ad ≡ ok authorized) ↔ (IsStaticAd ad × (authorized ≡ authorized))
authorize_without_consent-ok_iff_example = authorize_without_consent-ok_iff ad authorized

render_safe_html-inert_example :
    markup (render_safe_html (record { ad = ad }))
    ≡ markup (render_safe_html (record { ad = skeleton ad }))
render_safe_html-inert_example = render_safe_html-inert ad
