-- ===== src/Kernel/Content/Validation.antt =====
-- The validation functions of crates/kernel/src/content.rs, one for each of the code's.
pub mod Slug
pub mod Embeds
pub mod Optional
use open_soverign_blog.Prelude.{
  ℕ, ◌*◌, Bool, true, false, ◌&&◌, ◌||◌, not, Option, List, [], ◌∷◌, ltb, leb, ◌==◌, if◌then◌else◌,
  length, is_empty, any, all, is_some, is_some_and, Result, ok, err, ◌>>◌, reject_if,
}
use open_soverign_blog.Text.{
  Text, codes, byte_len, contains, trim, is_blank, is_control, is_ascii_alphanumeric, text_eq,
  to_set, has_text, starts_with, ends_with,
}
use open_soverign_blog.Kernel.Content.Errors.{
  ContentValidationError, invalid_title, invalid_slug, invalid_markdown, invalid_intent_layer,
  invalid_ontology_layer, invalid_embed, invalid_authorship,
}
use open_soverign_blog.Kernel.Content.Layers.{
  IntentLayer, Provenance, OntologySidecar, OntologyStatement, PublicAuthorship,
  PublicAuthorshipKind, EmbedReference, Url, Library,
}

abbrev pub Check : Type 0
Check = Result (Unit {0}) ContentValidationError

abbrev pub max_bytes : ℕ
max_bytes = 10 * 1024 * 1024

unfoldable pub validate_title : Text → Check
validate_title value =
    let size = length (trim value) in
    reject_if (not (leb 1 size && leb size 300) || contains 0 value) invalid_title

unfoldable pub validate_slug : Text → Check
validate_slug value =
    let slug = trim value in
    reject_if
      (is_empty slug
        || ltb 240 (byte_len slug)
        || starts_with b'.' slug
        || ends_with b'.' slug
        || contains b'/' slug
        || contains 92 slug
        || contains 0 slug
        || any is_control slug)
      invalid_slug

unfoldable pub validate_markdown : Text → Check
validate_markdown value =
    reject_if (ltb max_bytes (byte_len value) || contains 0 value) invalid_markdown

-- longer than a limit, or with a null character
abbrev pub too_long_or_null : ℕ → Text → Bool
too_long_or_null limit value = ltb limit (byte_len value) || contains 0 value

unfoldable pub invalid_hint : Text × Text → Bool
invalid_hint (key, value) =
    is_blank key
    || ltb 100 (byte_len key)
    || ltb 1000 (byte_len value)
    || contains 0 key
    || contains 0 value

module _ (lib : Library) where
  unfoldable pub invalid_provenance : Provenance → Bool
  invalid_provenance p =
      is_blank p.origin
      || ltb 100 (byte_len p.origin)
      || is_some_and p.source_uri (λ value. ltb 2048 (byte_len value) || not (lib.url_parses value))
      || is_some_and p.actor_id (too_long_or_null 200)
      || is_some_and p.generated_by (too_long_or_null 500)

  unfoldable pub invalid_intent : IntentLayer → Bool
  invalid_intent intent =
      is_blank intent.format
      || ltb 100 (byte_len intent.format)
      || ltb max_bytes (byte_len intent.source_html)
      || contains 0 intent.source_html
      || (ltb 64 (length intent.renderer_hints) || any invalid_hint intent.renderer_hints)
      || is_some_and intent.provenance invalid_provenance

unfoldable pub invalid_statement : OntologyStatement → Bool
invalid_statement s =
    is_blank s.subject
    || ltb 2048 (byte_len s.subject)
    || contains 0 s.subject
    || is_blank s.predicate
    || ltb 2048 (byte_len s.predicate)
    || contains 0 s.predicate
    || is_some_and s.evidence (too_long_or_null 4096)

module _ (lib : Library) where
  unfoldable pub invalid_ontology : OntologySidecar → Bool
  invalid_ontology o =
      is_blank o.schema
      || ltb 2048 (byte_len o.schema)
      || not (lib.url_parses o.schema)
      || ltb 100000 (length o.statements)
      || any invalid_statement o.statements
      || ltb max_bytes (byte_len (lib.ontology_json o))

  unfoldable pub validate_optional_layers : Option IntentLayer → Option OntologySidecar → Check
  validate_optional_layers intent ontology = do
    reject_if (is_some_and intent (invalid_intent lib)) invalid_intent_layer
    reject_if (is_some_and ontology invalid_ontology) invalid_ontology_layer

unfoldable pub is_human : PublicAuthorshipKind → Bool
is_human PublicAuthorshipKind.human = true
is_human _ = false

unfoldable pub invalid_generator : Text → Bool
invalid_generator g = is_blank g || ltb 300 (byte_len g) || any is_control g

unfoldable pub validate_authorship : PublicAuthorship → Check
unfolding is_human
validate_authorship value = do
  reject_if (is_some_and value.generator invalid_generator) invalid_authorship
  reject_if (is_human value.kind && is_some value.generator) invalid_authorship
  reject_if (not (is_human value.kind) && not (is_some value.generator)) invalid_authorship

unfoldable pub safe_identifier : Text → Bool
safe_identifier candidate =
    not (is_empty candidate)
    && leb (byte_len candidate) 200
    && all (λ c. is_ascii_alphanumeric c || c == b'-' || c == b'_' || c == b'.') candidate

unfoldable pub invalid_purposes : List Text → Bool
invalid_purposes purposes =
    ltb 128 (length purposes)
    || any (λ purpose. not (safe_identifier purpose)) purposes
    || not (length (to_set purposes) == length purposes)

unfoldable pub invalid_url : Url → Bool
invalid_url url =
    not (text_eq url.scheme (codes "http") || text_eq url.scheme (codes "https"))
    || not (is_some url.host_str)
    || not (is_empty url.username)
    || is_some url.password

-- The tests of one embed, all but that its identifier is new.
unfoldable pub invalid_embed_fields : EmbedReference → Bool
invalid_embed_fields value =
    not (safe_identifier value.id)
    || not (safe_identifier value.provider)
    || is_blank value.resource_id
    || ltb 2000 (byte_len value.resource_id)
    || is_blank value.title
    || ltb 500 (byte_len value.title)
    || invalid_url value.canonical_url
    || invalid_purposes value.consent_purpose_ids

-- The loop of `validate_embeds` over the identifiers seen so far.
unfoldable pub validate_each_embed : List Text → List EmbedReference → Check
validate_each_embed ids [] = ok tt
validate_each_embed ids (value ∷ values) =
    let rest = validate_each_embed (value.id ∷ ids) values in
    if invalid_embed_fields value || has_text ids value.id then err invalid_embed else rest

unfoldable pub validate_embeds : List EmbedReference → Check
unfolding validate_each_embed
validate_embeds values = do
  reject_if (ltb 10000 (length values)) invalid_embed
  validate_each_embed [] values
