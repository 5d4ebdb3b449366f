-- ===== src/Kernel/Tests.antt =====
-- Runs of crates/kernel, and the theorems about it at concrete inputs.
use open_soverign_blog.Prelude.{
  ◌≡◌, ◌↔◌, ◌⊎◌, refl, true, false, none, some, [], ◌∷◌, arith, ok, err, ◌++◌,
}
use open_soverign_blog.Text.{
  codes, trim, byte_len, starts_with, is_control, has_prefix, ends_with, to_set, has_text, skip,
  text_eq, is_lower_hex, is_ascii_alphanumeric,
}
use open_soverign_blog.Kernel.Content.{
  AiSummary, RevisionSnapshot, RevisionActorKind, EmbedReference, IntentLayer, invalid_slug,
  invalid_embed,
}
use open_soverign_blog.Kernel.Content.Validation.{
  validate_slug, validate_authorship, validate_embeds, validate_optional_layers, safe_identifier,
  validate_title, invalid_embed_fields, validate_markdown, invalid_url, invalid_purposes,
}
use open_soverign_blog.Kernel.Content.Hash.{source_preimage, ai_summary_source_hash}
use open_soverign_blog.Kernel.Content.Hash.Preimage.{
  Hashed, WritesNoNull, SameHashed, Collides, content_preimage-injective,
}
use open_soverign_blog.Kernel.Content.Summary.{
  validate_ready_ai_summary, publishable_ai_summary, valid_summary_label,
  contains_disallowed_control, is_disallowed_control,
}
use open_soverign_blog.Kernel.Content.Summary.Boundary.{
  IsReady, publishable_iff, publishable_same_source,
}
use open_soverign_blog.Kernel.Content.Document.{validate_new, validate_proposed, validate_summary}
use open_soverign_blog.Kernel.Content.Document.Accepted.{
  IsContent, validate_new_iff, validate_proposed_iff,
}
use open_soverign_blog.Kernel.Ai2Ai.{
  Ai2AiEnvelope, AiActorKind, AiPolicySnapshot, ContextReceipt, approved_providers, validate_policy,
  validate_context_receipts, validate_envelope, unique_bounded_values, invalid_receipt,
  invalid_cost, valid_content_hash, check_boundary, has_pair,
}
use open_soverign_blog.Kernel.Ai2Ai.Accepted.{IsEnvelope, validate_envelope_iff}
use open_soverign_blog.Kernel.Samples.{plain, by_human, document, proposal}

document_is_valid : validate_new plain document ≡ ok tt
unfolding validate_new validate_title validate_slug validate_markdown validate_embeds
    validate_authorship validate_optional_layers validate_summary trim byte_len starts_with
    ends_with is_control
document_is_valid = refl

dotted_slug : validate_slug (codes "..") ≡ err invalid_slug
unfolding validate_slug trim byte_len starts_with
dotted_slug = refl

abbrev embed : EmbedReference
embed = record {
  id = codes "video-1";
  provider = codes "tube";
  resource_id = codes "x";
  canonical_url = record {
    as_str = codes "https://tube.example/x";
    scheme = codes "https";
    cannot_be_a_base = false;
    host_str = some (codes "tube.example");
    username = [];
    password = none;
    fragment = none;
  };
  title = codes "A video";
  consent_purpose_ids = codes "video" ∷ [];
}

embed_is_valid : validate_embeds (embed ∷ []) ≡ ok tt
unfolding validate_embeds invalid_embed_fields safe_identifier invalid_url invalid_purposes to_set
    has_text text_eq trim byte_len is_ascii_alphanumeric
embed_is_valid = refl

embed_twice : validate_embeds (embed ∷ embed ∷ []) ≡ err invalid_embed
unfolding validate_embeds invalid_embed_fields safe_identifier invalid_url invalid_purposes to_set
    has_text text_eq trim byte_len is_ascii_alphanumeric
embed_twice = refl

abbrev intent : IntentLayer
intent = record {
  format = codes "html";
  source_html = codes "<p>x</p>";
  renderer_hints = (codes "theme", codes "dark") ∷ [];
  provenance = none;
}

validate_new_iff_example : (validate_new plain document ≡ ok tt) ↔ (
    IsContent plain document.title document.slug document.source_markdown [] by_human none none
    × Unit {0})
validate_new_iff_example = validate_new_iff plain document

validate_proposed_iff_example : (validate_proposed plain proposal ≡ ok tt) ↔ (
    IsContent plain proposal.title proposal.slug proposal.source_markdown [] by_human none none
    × Unit {0}
    × Unit {0})
validate_proposed_iff_example = validate_proposed_iff plain proposal

abbrev summary : AiSummary
summary = record {
  text = codes "A short reviewed summary.";
  source_hash = codes "sha256:osb-ai-summary-source/1" ++ (0 ∷ codes "T" ++ (0 ∷ codes "m"));
  provenance = record {
    provider = codes "openai";
    model = codes "example-model";
    prompt_version = codes "summary-v1";
    generated_at = 0;
    human_reviewed = true;
  };
}

abbrev revision : RevisionSnapshot
revision = record {
  schema_version = codes "1.0";
  id = 3;
  document_id = 2;
  revision_number = 1;
  parent_revision_id = none;
  title = codes "T";
  slug = codes "t";
  source_markdown = codes "m";
  embeds = [];
  intent = none;
  ontology = none;
  ai_summary = some summary;
  authorship = by_human;
  actor = record { kind = RevisionActorKind.human; id = codes "owner"; display_name = none };
  content_hash = [];
  created_at = 0;
}

summary_is_published : publishable_ai_summary plain revision ≡ some summary
unfolding publishable_ai_summary validate_ready_ai_summary valid_summary_label is_control
    contains_disallowed_control is_disallowed_control ai_summary_source_hash source_preimage text_eq
    trim
summary_is_published = refl

publishable_iff_example :
    (publishable_ai_summary plain revision ≡ some summary)
    ↔ ((revision.ai_summary ≡ some summary) × IsReady plain (codes "T") (codes "m") summary)
publishable_iff_example = publishable_iff plain revision summary

publishable_same_source_example :
    ((codes "T" ≡ codes "T") × (codes "m" ≡ codes "m"))
    ⊎ Collides plain
        (source_preimage (codes "T") (codes "m"))
        (source_preimage (codes "T") (codes "m"))
publishable_same_source_example =
    publishable_same_source plain revision revision summary (ground arith) (ground arith)
      summary_is_published summary_is_published

abbrev hashed : Hashed
hashed = record {
  title = codes "T";
  slug = codes "t";
  markdown = codes "m";
  embeds = [];
  intent = none;
  ontology = none;
  ai_summary = some summary;
}

plain-WritesNoNull : WritesNoNull plain
plain-WritesNoNull = record {
  embeds = λ v. ground arith;
  intent = λ v. ground arith;
  ontology = λ v. ground arith;
}

content_preimage-injective_example : SameHashed plain hashed hashed
content_preimage-injective_example =
    content_preimage-injective plain hashed hashed plain-WritesNoNull (ground arith) (ground arith)
      refl

abbrev local_policy : AiPolicySnapshot
local_policy = record {
  data_boundary = approved_providers;
  allowed_provider_ids = codes "local-model" ∷ [];
  allowed_capabilities = codes "content.propose" ∷ [];
  max_cost = some 4591870180066957722;
  max_tokens = some 2000;
}

policy_is_valid : validate_policy local_policy (some (codes "local-model")) ≡ ok tt
unfolding validate_policy unique_bounded_values invalid_cost check_boundary has_text text_eq trim
    byte_len
policy_is_valid = refl

abbrev receipt : ContextReceipt
receipt = record {
  reference = codes "draft:private-note";
  content_hash = codes "sha256:aaaaaaaaaaaaaaaaaaaaaaaaaaaaaaaaaaaaaaaaaaaaaaaaaaaaaaaaaaaaaaaa";
  scope = codes "private";
  included = true;
  exclusion_reason = none;
}

receipt_is_valid : validate_context_receipts (receipt ∷ []) ≡ ok tt
unfolding validate_context_receipts invalid_receipt valid_content_hash has_prefix skip is_lower_hex
    has_pair trim byte_len
receipt_is_valid = refl

abbrev envelope : Ai2AiEnvelope
envelope = record {
  spec_version = codes "1.0";
  message_id = 11;
  idempotency_key = codes "proposal-1";
  occurred_at = 0;
  actor = record {
    kind = AiActorKind.agent;
    id = codes "writer-agent";
    provider = some (codes "local-model");
    model = some (codes "model-v1");
  };
  intent = codes "Propose a clearer introduction";
  proposal = proposal;
  policy = local_policy;
  context_receipts = receipt ∷ [];
  provenance = [];
}

validate_envelope_iff_example :
    (validate_envelope plain 0 envelope ≡ ok tt) ↔ IsEnvelope plain 0 envelope
validate_envelope_iff_example = validate_envelope_iff plain 0 envelope
