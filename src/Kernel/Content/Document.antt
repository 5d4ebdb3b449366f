-- ===== src/Kernel/Content/Document.antt =====
-- `validate` of `NewDocument` and `ProposedRevision` of crates/kernel/src/content.rs.
pub mod Accepted
use open_soverign_blog.Prelude.{
  Bool, ◌||◌, Option, none, some, ltb, is_some_and, Result, ok, ◌>>◌, reject_if,
}
use open_soverign_blog.Text.{Text, byte_len, is_blank}
use open_soverign_blog.Kernel.Content.Errors.{invalid_idempotency_key}
use open_soverign_blog.Kernel.Content.Layers.{AiSummary, NewDocument, ProposedRevision, Library}
use open_soverign_blog.Kernel.Content.Validation.{
  Check, validate_title, validate_slug, validate_markdown, validate_optional_layers,
  validate_authorship, validate_embeds,
}
use open_soverign_blog.Kernel.Content.Summary.{validate_ready_ai_summary}

-- the `if let Some(summary)` of both
unfoldable pub validate_summary : Library → Text → Text → Option AiSummary → Check
validate_summary lib title markdown none = ok tt
validate_summary lib title markdown (some summary) =
    validate_ready_ai_summary lib title markdown summary

-- `NewDocument::validate`
unfoldable pub validate_new : Library → NewDocument → Check
validate_new lib d = do
  validate_title d.title
  validate_slug d.slug
  validate_markdown d.source_markdown
  validate_embeds d.embeds
  validate_authorship d.authorship
  validate_optional_layers lib d.intent d.ontology
  validate_summary lib d.title d.source_markdown d.ai_summary

unfoldable pub invalid_key : Text → Bool
invalid_key key = is_blank key || ltb 200 (byte_len key)

-- `ProposedRevision::validate`
unfoldable pub validate_proposed : Library → ProposedRevision → Check
validate_proposed lib p = do
  validate_title p.title
  validate_slug p.slug
  validate_markdown p.source_markdown
  validate_embeds p.embeds
  validate_authorship p.authorship
  validate_optional_layers lib p.intent p.ontology
  validate_summary lib p.title p.source_markdown p.ai_summary
  reject_if (is_some_and p.idempotency_key invalid_key) invalid_idempotency_key
