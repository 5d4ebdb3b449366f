-- ===== src/Kernel/Content/Errors.antt =====
-- `ContentValidationError` of crates/kernel/src/content.rs.
pub data ContentValidationError : Type 0 where
  invalid_title invalid_slug invalid_markdown invalid_intent_layer : ContentValidationError
  invalid_ontology_layer invalid_idempotency_key invalid_embed : ContentValidationError
  invalid_authorship invalid_ai_summary_text : ContentValidationError
  invalid_ai_summary_provenance ai_summary_requires_human_review : ContentValidationError
  ai_summary_source_mismatch : ContentValidationError
