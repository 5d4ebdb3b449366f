-- ===== src/Kernel/Content/Layers.antt =====
-- The data types of crates/kernel/src/content.rs.
use open_soverign_blog.Prelude.{ℕ, Bool, Option, List}
use open_soverign_blog.Text.{Text}
use open_soverign_blog.Kernel.Policy.{Uuid}

pub data DocumentStatus : Type 0 where
  draft published archived : DocumentStatus

pub data RevisionActorKind : Type 0 where
  human agent importer system : RevisionActorKind

pub data PublicAuthorshipKind : Type 0 where
  human ai_generated ai_assisted imported : PublicAuthorshipKind

pub record PublicAuthorship : Type 0 where
  pub kind : PublicAuthorshipKind
  pub generator : Option Text
  pub human_reviewed : Bool

pub record RevisionActor : Type 0 where
  pub kind : RevisionActorKind
  pub id : Text
  pub display_name : Option Text

pub record Provenance : Type 0 where
  pub origin : Text
  pub source_uri : Option Text
  pub actor_id : Option Text
  pub generated_by : Option Text

pub record IntentLayer : Type 0 where
  pub format : Text
  pub source_html : Text
  pub renderer_hints : List (Text × Text)
  pub provenance : Option Provenance

pub record OntologyStatement : Type 0 where
  pub subject : Text
  pub predicate : Text
  pub object : Text
  pub evidence : Option Text
  pub confirmed_by_author : Bool

pub record OntologySidecar : Type 0 where
  pub schema : Text
  pub statements : List OntologyStatement

-- A parsed URL of the `url` crate, by what its accessors return.
pub record Url : Type 0 where
  pub as_str : Text
  pub scheme : Text
  pub cannot_be_a_base : Bool
  pub host_str : Option Text
  pub username : Text
  pub password : Option Text
  pub fragment : Option Text

pub record EmbedReference : Type 0 where
  pub id : Text
  pub provider : Text
  pub resource_id : Text
  pub canonical_url : Url
  pub title : Text
  pub consent_purpose_ids : List Text

pub record AiSummaryProvenance : Type 0 where
  pub provider : Text
  pub model : Text
  pub prompt_version : Text
  pub generated_at : ℕ
  pub human_reviewed : Bool

pub record AiSummary : Type 0 where
  pub text : Text
  pub source_hash : Text
  pub provenance : AiSummaryProvenance

pub record RevisionSnapshot : Type 0 where
  pub schema_version : Text
  pub id : Uuid
  pub document_id : Uuid
  pub revision_number : ℕ
  pub parent_revision_id : Option Uuid
  pub title : Text
  pub slug : Text
  pub source_markdown : Text
  pub embeds : List EmbedReference
  pub intent : Option IntentLayer
  pub ontology : Option OntologySidecar
  pub ai_summary : Option AiSummary
  pub authorship : PublicAuthorship
  pub actor : RevisionActor
  pub content_hash : Text
  pub created_at : ℕ

pub record DocumentSnapshot : Type 0 where
  pub schema_version : Text
  pub id : Uuid
  pub site_id : Uuid
  pub status : DocumentStatus
  pub current_revision_id : Uuid
  pub published_revision_id : Option Uuid
  pub revision : RevisionSnapshot
  pub created_at : ℕ
  pub updated_at : ℕ

pub record NewDocument : Type 0 where
  pub site_id : Uuid
  pub title : Text
  pub slug : Text
  pub source_markdown : Text
  pub embeds : List EmbedReference
  pub intent : Option IntentLayer
  pub ontology : Option OntologySidecar
  pub ai_summary : Option AiSummary
  pub authorship : PublicAuthorship
  pub actor : RevisionActor

pub record ProposedRevision : Type 0 where
  pub document_id : Uuid
  pub base_revision_id : Uuid
  pub title : Text
  pub slug : Text
  pub source_markdown : Text
  pub embeds : List EmbedReference
  pub intent : Option IntentLayer
  pub ontology : Option OntologySidecar
  pub ai_summary : Option AiSummary
  pub authorship : PublicAuthorship
  pub actor : RevisionActor
  pub idempotency_key : Option Text

-- The code of other packages that validation and hashing call: `Url::parse` (whether it succeeds),
-- `serde_json::to_vec` (whose results are read as ASCII-compatible text) and SHA-256 written as
-- hexadecimal digits.
pub record Library : Type 0 where
  pub url_parses : Text → Bool
  pub embeds_json : List EmbedReference → Text
  pub intent_json : IntentLayer → Text
  pub ontology_json : OntologySidecar → Text
  pub summary_json : AiSummary → Text
  pub sha256_hex : Text → Text
