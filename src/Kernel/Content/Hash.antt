-- ===== src/Kernel/Content/Hash.antt =====
-- The hashes of crates/kernel/src/content.rs. A hasher is fed the parts of its input one after the
-- other, so it is modelled by the whole input, a preimage, and one call of SHA-256. The input is
-- kept as characters: their UTF-8 bytes determine them, and a zero byte is the null character.
pub mod Preimage
use open_soverign_blog.Prelude.{ℕ, Option, none, some, List, [], ◌∷◌, ◌++◌}
use open_soverign_blog.Text.{Text, codes}
use open_soverign_blog.Kernel.Content.Layers.{
  IntentLayer, OntologySidecar, AiSummary, EmbedReference, Library,
}

abbrev pub content_schema_version : Text
content_schema_version = codes "1.0"

abbrev pub ai_summary_source_hash_version : Text
ai_summary_source_hash_version = codes "osb-ai-summary-source/1"

abbrev pub written {ℓ} : {A : Type ℓ} → (A → Text) → Option A → Text
written to_json none = []
written to_json (some value) = to_json value

module _ (lib : Library) where
  -- what is hashed behind the ontology
  unfoldable pub summary_part : Option AiSummary → Text
  summary_part none = []
  summary_part (some summary) = 0 ∷ (codes "ai-summary-v1" ++ (0 ∷ lib.summary_json summary))

  unfoldable pub content_preimage :
      Text
      → Text
      → Text
      → List EmbedReference
      → Option IntentLayer
      → Option OntologySidecar
      → Option AiSummary
      → Text
  unfolding summary_part
  content_preimage title slug markdown embeds intent ontology ai_summary =
      content_schema_version
      ++ (0 ∷ title
          ++ (0 ∷ slug
              ++ (0 ∷ markdown
                  ++ (0 ∷ lib.embeds_json embeds
                      ++ (0 ∷ written lib.intent_json intent
                          ++ (0
                              ∷ (written lib.ontology_json ontology
                                  ++ summary_part ai_summary)))))))

  unfoldable pub content_hash_with_ai_summary :
      Text
      → Text
      → Text
      → List EmbedReference
      → Option IntentLayer
      → Option OntologySidecar
      → Option AiSummary
      → Text
  content_hash_with_ai_summary title slug markdown embeds intent ontology ai_summary =
      codes "sha256:"
      ++ lib.sha256_hex (content_preimage title slug markdown embeds intent ontology ai_summary)

  unfoldable pub content_hash :
      Text → Text → Text → List EmbedReference → Option IntentLayer → Option OntologySidecar → Text
  content_hash title slug markdown embeds intent ontology =
      content_hash_with_ai_summary title slug markdown embeds intent ontology none

unfoldable pub source_preimage : Text → Text → Text
source_preimage title markdown = ai_summary_source_hash_version ++ (0 ∷ (title ++ (0 ∷ markdown)))

unfoldable pub ai_summary_source_hash : Library → Text → Text → Text
ai_summary_source_hash lib title markdown =
    codes "sha256:" ++ lib.sha256_hex (source_preimage title markdown)
