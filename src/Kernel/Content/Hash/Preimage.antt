-- ===== src/Kernel/Content/Hash/Preimage.antt =====
-- What the hash inputs of crates/kernel/src/content.rs determine.
use mathlib.Core.Option
use open_soverign_blog.Prelude.{
  ◌≡◌, ◌≢◌, refl, ap, ◌⊎◌, inl, inr, Option, none, some, List, [], ◌∷◌, ◌++◌, In, Bool-cases,
}
use open_soverign_blog.Text.{
  Text, codes, text_eq, text_eq_iff, separated-injective, optional_part, optional_part-injective,
}
use open_soverign_blog.Kernel.Content.Layers.{
  IntentLayer, OntologySidecar, AiSummary, EmbedReference, Library,
}
use open_soverign_blog.Kernel.Content.Hash.{
  ai_summary_source_hash_version, written, summary_part, content_preimage, source_preimage,
  ai_summary_source_hash,
}

append_injective : (p s t : Text) → p ++ s ≡ p ++ t → s ≡ t
append_injective [] s t e = e
append_injective (c ∷ p) s t e = append_injective p s t (cc)

-- Two different inputs with one digest.
abbrev pub Collides : Library → Text → Text → Type 0
Collides lib x y = (x ≢ y) × (lib.sha256_hex x ≡ lib.sha256_hex y)

Collides-or_same :
    (lib : Library) (x y : Text) → lib.sha256_hex x ≡ lib.sha256_hex y → (x ≡ y) ⊎ Collides lib x y
Collides-or_same lib x y e = elim (Bool-cases (text_eq x y)) [
  | inl same ↦ inl ((text_eq_iff x y).0 same)
  | inr other ↦ inr ((λ p. cc ((text_eq_iff x y).1 p)), e)
]

source_preimage-injective :
    (title title' markdown markdown' : Text)
    → ¬ In 0 title
    → ¬ In 0 title'
    → source_preimage title markdown ≡ source_preimage title' markdown'
    → (title ≡ title') × (markdown ≡ markdown')
unfolding source_preimage
source_preimage-injective title title' markdown markdown' h k e =
    separated-injective 0 title title' markdown markdown' h k
      (cc (append_injective ai_summary_source_hash_version _ _ e))

-- The source hash of a summary determines the title and the Markdown that it was made from, for
-- titles without a null character, unless the two hashed inputs are a collision of SHA-256.
pub ai_summary_source_hash-injective :
    (lib : Library) (title title' markdown markdown' : Text)
    → ¬ In 0 title
    → ¬ In 0 title'
    → ai_summary_source_hash lib title markdown ≡ ai_summary_source_hash lib title' markdown'
    → ((title ≡ title') × (markdown ≡ markdown'))
      ⊎ Collides lib (source_preimage title markdown) (source_preimage title' markdown')
unfolding ai_summary_source_hash
ai_summary_source_hash-injective lib title title' markdown markdown' h k e =
    elim (Collides-or_same lib (source_preimage title markdown) (source_preimage title' markdown')
      (append_injective (codes "sha256:") _ _ e)) [
        | inl same ↦ inl (source_preimage-injective title title' markdown markdown' h k same)
        | inr c ↦ inr c
      ]

-- A null character stands in none of the texts that `serde_json` writes: it escapes them.
pub record WritesNoNull (lib : Library) : Type 0 where
  pub embeds : (v : List EmbedReference) → ¬ In 0 (lib.embeds_json v)
  pub intent : (v : IntentLayer) → ¬ In 0 (lib.intent_json v)
  pub ontology : (v : OntologySidecar) → ¬ In 0 (lib.ontology_json v)

-- What is hashed of a revision.
pub record Hashed : Type 0 where
  pub title : Text
  pub slug : Text
  pub markdown : Text
  pub embeds : List EmbedReference
  pub intent : Option IntentLayer
  pub ontology : Option OntologySidecar
  pub ai_summary : Option AiSummary

abbrev pub preimage_of : Library → Hashed → Text
preimage_of lib r =
    content_preimage lib r.title r.slug r.markdown r.embeds r.intent r.ontology r.ai_summary

abbrev pub NullFree : Hashed → Type 0
NullFree r = (¬ In 0 r.title) × (¬ In 0 r.slug) × (¬ In 0 r.markdown)

summary_text : Library → Option AiSummary → Option Text
summary_text lib none = none
summary_text lib (some s) = some (codes "ai-summary-v1" ++ (0 ∷ lib.summary_json s))

summary_part-eq-optional :
    (lib : Library) (o : Option AiSummary)
    → summary_part lib o ≡ optional_part 0 (summary_text lib o)
unfolding summary_part summary_text
summary_part-eq-optional lib none = refl
summary_part-eq-optional lib (some s) = refl

summary_text-injective :
    (lib : Library) (o p : Option AiSummary)
    → summary_text lib o ≡ summary_text lib p
    → Option.map lib.summary_json o ≡ Option.map lib.summary_json p
unfolding summary_text
summary_text-injective lib none none e = refl
summary_text-injective lib none (some t) e = cc
summary_text-injective lib (some s) none e = cc
summary_text-injective lib (some s) (some t) e = ap some (
    cc (
      append_injective (codes "ai-summary-v1") (0 ∷ lib.summary_json s) (0 ∷ lib.summary_json t)
        (cc)))

written-no_null :
    {A : Type 0} (to_json : A → Text) (o : Option A)
    → ((v : A) → ¬ In 0 (to_json v))
    → ¬ In 0 (written to_json o)
written-no_null to_json none h m = m
written-no_null to_json (some v) h m = h v m

-- The same text is hashed for two revisions.
pub record SameHashed (lib : Library) (r s : Hashed) : Type 0 where
  pub title : r.title ≡ s.title
  pub slug : r.slug ≡ s.slug
  pub markdown : r.markdown ≡ s.markdown
  pub embeds : lib.embeds_json r.embeds ≡ lib.embeds_json s.embeds
  pub intent : written lib.intent_json r.intent ≡ written lib.intent_json s.intent
  pub ontology : written lib.ontology_json r.ontology ≡ written lib.ontology_json s.ontology
  pub summary : Option.map lib.summary_json r.ai_summary ≡ Option.map lib.summary_json s.ai_summary

-- The input of the content hash determines every part of the revision, as text: two revisions
-- whose titles, slugs and Markdown hold no null character have one input only if these agree, and
-- the JSON of their embeds, intent layers, ontologies and AI summaries does, where an absent layer
-- counts as the empty text and the presence of a summary is seen. It is assumed that the JSON of
-- embeds and layers holds no null character.
pub content_preimage-injective :
    (lib : Library) (r s : Hashed)
    → WritesNoNull lib
    → NullFree r
    → NullFree s
    → preimage_of lib r ≡ preimage_of lib s
    → SameHashed lib r s
unfolding content_preimage
content_preimage-injective lib r s w h k e =
    let e0 = append_injective (codes "1.0") _ _ e in
    let (title, e1) = separated-injective 0 r.title s.title _ _ h.0 k.0 (cc e0) in
    let (slug, e2) = separated-injective 0 r.slug s.slug _ _ h.1 k.1 e1 in
    let (markdown, e3) = separated-injective 0 r.markdown s.markdown _ _ h.2 k.2 e2 in
    let (embeds, e4) =
      separated-injective 0 (lib.embeds_json r.embeds) (lib.embeds_json s.embeds) _ _
        (w.embeds r.embeds) (w.embeds s.embeds) e3 in
    let (intent, e5) =
      separated-injective 0 (written lib.intent_json r.intent) (written lib.intent_json s.intent) _
        _ (written-no_null lib.intent_json r.intent w.intent)
        (written-no_null lib.intent_json s.intent w.intent) e4 in
    let (ontology, summary) =
      optional_part-injective 0 (written lib.ontology_json r.ontology)
        (written lib.ontology_json s.ontology) (summary_text lib r.ai_summary)
        (summary_text lib s.ai_summary) (written-no_null lib.ontology_json r.ontology w.ontology)
        (written-no_null lib.ontology_json s.ontology w.ontology)
        (rw
          (← summary_part-eq-optional lib r.ai_summary, ← summary_part-eq-optional lib s.ai_summary)
          e5) in
    record {
      title = title;
      slug = slug;
      markdown = markdown;
      embeds = embeds;
      intent = intent;
      ontology = ontology;
      summary = summary_text-injective lib r.ai_summary s.ai_summary summary;
    }
