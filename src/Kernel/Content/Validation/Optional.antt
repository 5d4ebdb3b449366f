-- ===== src/Kernel/Content/Validation/Optional.antt =====
-- What the check of the intent layer and the ontology of crates/kernel/src/content.rs accepts.
use open_soverign_blog.Prelude.{
  ℕ, ◌≤◌, ◌≡◌, ◌↔◌, true, false, Option, In, All, arith, length, ok, ◌||◌, ltb, not, IfSome,
  absent_or_iff, none_bad_iff,
}
use open_soverign_blog.Text.{Text, byte_len, is_blank, contains-false_iff}
use open_soverign_blog.Kernel.Content.Layers.{
  IntentLayer, Provenance, OntologySidecar, OntologyStatement, Library,
}
use open_soverign_blog.Kernel.Content.Validation.{
  invalid_hint, invalid_provenance, invalid_intent, invalid_statement, invalid_ontology,
  validate_optional_layers, max_bytes, too_long_or_null,
}

pub record IsBounded (limit : ℕ) (value : Text) : Type 0 where
  pub size : byte_len value ≤ limit
  pub no_null : ¬ In 0 value

pub record IsNamed (limit : ℕ) (value : Text) : Type 0 where
  pub not_blank : is_blank value ≡ false
  pub size : byte_len value ≤ limit

pub record IsHint (hint : Text × Text) : Type 0 where
  pub key : IsNamed 100 hint.0
  pub value_size : byte_len hint.1 ≤ 1000
  pub key_null : ¬ In 0 hint.0
  pub value_null : ¬ In 0 hint.1

pub IsBounded-iff : (n : ℕ) (v : Text) → (too_long_or_null n v ≡ false) ↔ IsBounded n v
IsBounded-iff n v =
    let (absent, fresh) = contains-false_iff 0 v in
    (
      λ h. record { size = ground arith; no_null = absent (ground arith) },
      λ b. ground (arith, fresh b.no_null),
    )

IsHint-iff : (hint : Text × Text) → (invalid_hint hint ≡ false) ↔ IsHint hint
unfolding invalid_hint
IsHint-iff (key, value) =
    let (absent, fresh) = contains-false_iff 0 key in
    let (absent', fresh') = contains-false_iff 0 value in
    (
      λ h. record {
        key = record { not_blank = ground arith; size = ground arith };
        value_size = ground arith;
        key_null = absent (ground arith);
        value_null = absent' (ground arith);
      },
      λ v. ground (arith, fresh v.key_null, fresh' v.value_null, v.key, v.value_size),
    )

pub record IsStatement (s : OntologyStatement) : Type 0 where
  pub subject : IsNamed 2048 s.subject
  pub subject_null : ¬ In 0 s.subject
  pub predicate : IsNamed 2048 s.predicate
  pub predicate_null : ¬ In 0 s.predicate
  pub evidence : IfSome (IsBounded 4096) s.evidence

IsStatement-iff : (s : OntologyStatement) → (invalid_statement s ≡ false) ↔ IsStatement s
unfolding invalid_statement
IsStatement-iff s =
    let (absent, fresh) = contains-false_iff 0 s.subject in
    let (absent', fresh') = contains-false_iff 0 s.predicate in
    let (evidence, of_evidence) =
      absent_or_iff (too_long_or_null 4096) (IsBounded 4096) (IsBounded-iff 4096) s.evidence in
    (
      λ h. record {
        subject = record { not_blank = ground arith; size = ground arith };
        subject_null = absent (ground arith);
        predicate = record { not_blank = ground arith; size = ground arith };
        predicate_null = absent' (ground arith);
        evidence = evidence (ground arith);
      },
      λ v. ground (
        arith,
        v.subject,
        v.predicate,
        fresh v.subject_null,
        fresh' v.predicate_null,
        of_evidence v.evidence,
      ),
    )

module _ (lib : Library) where
  pub record IsUri (value : Text) : Type 0 where
    pub size : byte_len value ≤ 2048
    pub parses : lib.url_parses value ≡ true

  pub record IsProvenance (p : Provenance) : Type 0 where
    pub origin : IsNamed 100 p.origin
    pub source_uri : IfSome IsUri p.source_uri
    pub actor_id : IfSome (IsBounded 200) p.actor_id
    pub generated_by : IfSome (IsBounded 500) p.generated_by

  pub record IsIntent (i : IntentLayer) : Type 0 where
    pub format : IsNamed 100 i.format
    pub html : IsBounded max_bytes i.source_html
    pub hint_count : length i.renderer_hints ≤ 64
    pub hints : All IsHint i.renderer_hints
    pub provenance : IfSome IsProvenance i.provenance

  pub record IsOntology (o : OntologySidecar) : Type 0 where
    pub schema : IsNamed 2048 o.schema
    pub parses : lib.url_parses o.schema ≡ true
    pub count : length o.statements ≤ 100000
    pub statements : All IsStatement o.statements
    pub size : byte_len (lib.ontology_json o) ≤ max_bytes

  IsUri-iff :
      (value : Text)
      → ((ltb 2048 (byte_len value) || not (lib.url_parses value)) ≡ false) ↔ IsUri value
  IsUri-iff value = (λ h. record { size = ground arith; parses = ground arith }, λ u. ground arith)

  provenance_iff : (p : Provenance) → (invalid_provenance lib p ≡ false) ↔ IsProvenance p
  unfolding invalid_provenance
  provenance_iff p =
      let (uri, of_uri) =
        absent_or_iff (λ value. ltb 2048 (byte_len value) || not (lib.url_parses value)) IsUri
          IsUri-iff p.source_uri in
      let (actor, of_actor) =
        absent_or_iff (too_long_or_null 200) (IsBounded 200) (IsBounded-iff 200) p.actor_id in
      let (by, of_by) =
        absent_or_iff (too_long_or_null 500) (IsBounded 500) (IsBounded-iff 500) p.generated_by in
      (
        λ h. record {
          origin = record { not_blank = ground arith; size = ground arith };
          source_uri = uri (ground arith);
          actor_id = actor (ground arith);
          generated_by = by (ground arith);
        },
        λ v.
            ground
              (arith, v.origin, of_uri v.source_uri, of_actor v.actor_id, of_by v.generated_by),
      )

  IsIntent-iff : (i : IntentLayer) → (invalid_intent lib i ≡ false) ↔ IsIntent i
  unfolding invalid_intent
  IsIntent-iff i =
      let (absent, fresh) = contains-false_iff 0 i.source_html in
      let (hints, of_hints) = none_bad_iff invalid_hint IsHint IsHint-iff i.renderer_hints in
      let (provenance, of_provenance) =
        absent_or_iff (invalid_provenance lib) IsProvenance provenance_iff i.provenance in
      (
        λ h. record {
          format = record { not_blank = ground arith; size = ground arith };
          html = record { size = ground arith; no_null = absent (ground arith) };
          hint_count = ground arith;
          hints = hints (ground arith);
          provenance = provenance (ground arith);
        },
        λ v. ground (
          arith,
          v.format,
          v.html.size,
          fresh v.html.no_null,
          v.hint_count,
          of_hints v.hints,
          of_provenance v.provenance,
        ),
      )

  IsOntology-iff : (o : OntologySidecar) → (invalid_ontology lib o ≡ false) ↔ IsOntology o
  unfolding invalid_ontology
  IsOntology-iff o =
      let (statements, of_statements) =
        none_bad_iff invalid_statement IsStatement IsStatement-iff o.statements in
      (
        λ h. record {
          schema = record { not_blank = ground arith; size = ground arith };
          parses = ground arith;
          count = ground arith;
          statements = statements (ground arith);
          size = ground arith;
        },
        λ v. ground (arith, v.schema, v.parses, v.count, of_statements v.statements, v.size),
      )

  -- The optional layers are accepted exactly when the intent layer, if there is one, has a named
  -- format, bounded HTML without a null character, at most 64 bounded renderer hints and bounded
  -- provenance with a URL as its source, and the ontology, if there is one, has a URL as its schema,
  -- at most 100000 well-formed statements and at most 10 MiB of JSON.
  pub validate_optional_layers_iff :
      (intent : Option IntentLayer) (ontology : Option OntologySidecar)
      → (validate_optional_layers lib intent ontology ≡ ok tt)
        ↔ (IfSome IsIntent intent × IfSome IsOntology ontology)
  unfolding validate_optional_layers
  validate_optional_layers_iff intent ontology =
      let (intent_to, intent_of) =
        absent_or_iff (invalid_intent lib) IsIntent IsIntent-iff intent in
      let (onto_to, onto_of) =
        absent_or_iff (invalid_ontology lib) IsOntology IsOntology-iff ontology in
      (
        λ h. (intent_to (ground arith), onto_to (ground arith)),
        λ h. ground (arith, intent_of h.0, onto_of h.1),
      )
