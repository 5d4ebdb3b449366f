-- ===== src/Kernel/Content/Document/Accepted.antt =====
-- Which documents and proposals crates/kernel/src/content.rs accepts.
use open_soverign_blog.Prelude.{
  IfSome, ◌≤◌, ◌≡◌, ◌↔◌, Option, none, some, arith, ok, ◌>>◌, >>-ok_iff, refl, In, List,
  is_some_and, reject_if,
}
use open_soverign_blog.Text.{Text, byte_len, trim}
use open_soverign_blog.Kernel.Content.Layers.{
  NewDocument, ProposedRevision, Library, EmbedReference, IntentLayer, OntologySidecar, AiSummary,
  PublicAuthorship,
}
use open_soverign_blog.Kernel.Content.Errors.{invalid_idempotency_key}
use open_soverign_blog.Kernel.Content.Validation.{
  Check, max_bytes, validate_title, validate_slug, validate_markdown, validate_embeds,
  validate_authorship, validate_optional_layers,
}
use open_soverign_blog.Kernel.Content.Validation.Slug.{
  IsTitle, IsSegment, IsAttributed, validate_title_iff, validate_slug_iff, validate_markdown_iff,
  validate_authorship_iff,
}
use open_soverign_blog.Kernel.Content.Validation.Embeds.{AreEmbeds, validate_embeds_iff}
use open_soverign_blog.Kernel.Content.Validation.Optional.{
  IsNamed, IsIntent, IsOntology, validate_optional_layers_iff,
}
use open_soverign_blog.Kernel.Content.Summary.Boundary.{IsReady, validate_ready_ai_summary_iff}
use open_soverign_blog.Kernel.Content.Document.{
  validate_summary, validate_new, invalid_key, validate_proposed,
}

-- What every accepted revision of content meets, but for its summary.
pub record IsContent (lib : Library) (title slug markdown : Text) (embeds : List EmbedReference)
    (authorship : PublicAuthorship) (intent : Option IntentLayer)
    (ontology : Option OntologySidecar) : Type 0 where
  pub good_title : IsTitle title
  pub good_slug : IsSegment (trim slug)
  pub markdown_size : byte_len markdown ≤ max_bytes
  pub markdown_null : ¬ In 0 markdown
  pub good_embeds : AreEmbeds embeds
  pub attributed : IsAttributed authorship.kind authorship.generator
  pub good_intent : IfSome (IsIntent lib) intent
  pub good_ontology : IfSome (IsOntology lib) ontology

module _ (lib : Library) (title slug markdown : Text) (embeds : List EmbedReference)
    (authorship : PublicAuthorship) (intent : Option IntentLayer)
    (ontology : Option OntologySidecar) where
  six_checks_iff :
      (rest : Check)
      → ((validate_title title
            >> (validate_slug slug
                >> (validate_markdown markdown
                    >> (validate_embeds embeds
                        >> (validate_authorship authorship
                            >> (validate_optional_layers lib intent ontology >> rest))))))
          ≡ ok tt)
        ↔ (IsContent lib title slug markdown embeds authorship intent ontology × (rest ≡ ok tt))
  six_checks_iff rest = (
    λ h.
        let (t, h1) = (>>-ok_iff _ _).0 h in
        let (s, h2) = (>>-ok_iff _ _).0 h1 in
        let (m, h3) = (>>-ok_iff _ _).0 h2 in
        let (e, h4) = (>>-ok_iff _ _).0 h3 in
        let (a, h5) = (>>-ok_iff _ _).0 h4 in
        let (l, r) = (>>-ok_iff _ _).0 h5 in
        let (size, null) = (validate_markdown_iff markdown).0 m in
        let (i, o) = (validate_optional_layers_iff lib intent ontology).0 l in
        (
          record {
            good_title = (validate_title_iff title).0 t;
            good_slug = (validate_slug_iff slug).0 s;
            markdown_size = size;
            markdown_null = null;
            good_embeds = (validate_embeds_iff embeds).0 e;
            attributed = (validate_authorship_iff authorship).0 a;
            good_intent = i;
            good_ontology = o;
          },
          r,
        ),
    λ h.
        let c = h.0 in
        (>>-ok_iff _ _).1 (
          (validate_title_iff title).1 c.good_title,
          (>>-ok_iff _ _).1 (
            (validate_slug_iff slug).1 c.good_slug,
            (>>-ok_iff _ _).1 (
              (validate_markdown_iff markdown).1 (c.markdown_size, c.markdown_null),
              (>>-ok_iff _ _).1 (
                (validate_embeds_iff embeds).1 c.good_embeds,
                (>>-ok_iff _ _).1 (
                  (validate_authorship_iff authorship).1 c.attributed,
                  (>>-ok_iff _ _).1 (
                    (validate_optional_layers_iff lib intent ontology).1
                        (c.good_intent, c.good_ontology),
                    h.1,
                  ),
                ),
              ),
            ),
          ),
        ),
  )

summary_iff :
    (lib : Library) (title markdown : Text) (o : Option AiSummary)
    → (validate_summary lib title markdown o ≡ ok tt) ↔ IfSome (IsReady lib title markdown) o
unfolding validate_summary
summary_iff lib title markdown none = (λ h. tt, λ h. refl)
summary_iff lib title markdown (some s) = validate_ready_ai_summary_iff lib title markdown s

-- A new document is accepted exactly when its title, slug, Markdown, embeds, authorship and optional
-- layers are within the contract, and its AI summary, if there is one, is ready for its own title
-- and Markdown.
pub validate_new_iff :
    (lib : Library) (d : NewDocument)
    → (validate_new lib d ≡ ok tt) ↔ (
        IsContent lib d.title d.slug d.source_markdown d.embeds d.authorship d.intent d.ontology
        × IfSome (IsReady lib d.title d.source_markdown) d.ai_summary)
unfolding validate_new
validate_new_iff lib d =
    let (to, of) =
      six_checks_iff lib d.title d.slug d.source_markdown d.embeds d.authorship d.intent d.ontology
        (validate_summary lib d.title d.source_markdown d.ai_summary) in
    let (ready, of_ready) = summary_iff lib d.title d.source_markdown d.ai_summary in
    (λ h. let (c, s) = to h in (c, ready s), λ h. of (h.0, of_ready h.1))

key_iff :
    (o : Option Text)
    → (reject_if (is_some_and o invalid_key) invalid_idempotency_key ≡ ok tt)
      ↔ IfSome (IsNamed 200) o
unfolding invalid_key
key_iff none = (λ h. tt, λ h. refl)
key_iff (some key) =
    (λ h. record { not_blank = ground arith; size = ground arith }, λ n. ground arith)

-- A proposed revision is accepted exactly when a new document with its content is, and its
-- idempotency key, if there is one, is not blank and has at most 200 bytes.
pub validate_proposed_iff :
    (lib : Library) (p : ProposedRevision)
    → (validate_proposed lib p ≡ ok tt) ↔ (
        IsContent lib p.title p.slug p.source_markdown p.embeds p.authorship p.intent p.ontology
        × IfSome (IsReady lib p.title p.source_markdown) p.ai_summary
        × IfSome (IsNamed 200) p.idempotency_key)
unfolding validate_proposed
validate_proposed_iff lib p =
    let (to, of) =
      six_checks_iff lib p.title p.slug p.source_markdown p.embeds p.authorship p.intent p.ontology
        (validate_summary lib p.title p.source_markdown p.ai_summary
          >> reject_if (is_some_and p.idempotency_key invalid_key) invalid_idempotency_key) in
    let (ready, of_ready) = summary_iff lib p.title p.source_markdown p.ai_summary in
    let (key, of_key) = key_iff p.idempotency_key in
    (
      λ h. let (c, r) = to h in let (s, k) = (>>-ok_iff _ _).0 r in (c, ready s, key k),
      λ h. of (h.0, (>>-ok_iff _ _).1 (of_ready h.1, of_key h.2)),
    )
