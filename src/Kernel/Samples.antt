-- ===== src/Kernel/Samples.antt =====
-- Small records of crates/kernel to run its code on.
use open_soverign_blog.Prelude.{true, false, none, []}
use open_soverign_blog.Text.{codes}
use open_soverign_blog.Kernel.Content.{
  Library, NewDocument, ProposedRevision, PublicAuthorship, PublicAuthorshipKind, RevisionActorKind,
}

-- A library whose functions are simple enough to run: the digest is the text itself.
abbrev pub plain : Library
plain = record {
  url_parses = λ t. true;
  embeds_json = λ v. codes "[]";
  intent_json = λ v. codes "{}";
  ontology_json = λ v. codes "{}";
  summary_json = λ v. codes "{}";
  sha256_hex = λ t. t;
}

abbrev pub by_human : PublicAuthorship
by_human = record { kind = PublicAuthorshipKind.human; generator = none; human_reviewed = false }

abbrev pub document : NewDocument
document = record {
  site_id = 1;
  title = codes "Portable first";
  slug = codes "portable-first";
  source_markdown = codes "# Portable first";
  embeds = [];
  intent = none;
  ontology = none;
  ai_summary = none;
  authorship = by_human;
  actor = record { kind = RevisionActorKind.human; id = codes "owner"; display_name = none };
}

abbrev pub proposal : ProposedRevision
proposal = record {
  document_id = 2;
  base_revision_id = 3;
  title = codes "Title";
  slug = codes "title";
  source_markdown = codes "# Title";
  embeds = [];
  intent = none;
  ontology = none;
  ai_summary = none;
  authorship = by_human;
  actor = record { kind = RevisionActorKind.agent; id = codes "writer-agent"; display_name = none };
  idempotency_key = none;
}
