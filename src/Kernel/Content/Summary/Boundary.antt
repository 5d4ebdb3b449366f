-- ===== src/Kernel/Content/Summary/Boundary.antt =====
-- Which summaries crates/kernel/src/content.rs lets out.
use open_soverign_blog.Prelude.{
  ℕ, ◌≤◌, ◌≡◌, ◌↔◌, true, false, arith, length, any, ok, some, In, ◌⊎◌, sym, ◌∙◌,
}
use open_soverign_blog.Text.{Text, trim, is_control, text_eq_iff}
use open_soverign_blog.Kernel.Content.Layers.{AiSummary, RevisionSnapshot, Library}
use open_soverign_blog.Kernel.Content.Hash.{source_preimage, ai_summary_source_hash}
use open_soverign_blog.Kernel.Content.Summary.{
  ai_summary_max_characters, valid_summary_label, contains_disallowed_control,
  validate_ready_ai_summary, publishable_ai_summary,
}
use open_soverign_blog.Kernel.Content.Hash.Preimage.{Collides, ai_summary_source_hash-injective}

pub record IsLabel (max_length : ℕ) (value : Text) : Type 0 where
  pub not_empty : 1 ≤ length (trim value)
  pub size : length (trim value) ≤ max_length
  pub no_control : any is_control value ≡ false

pub record IsReady (lib : Library) (title markdown : Text) (summary : AiSummary) : Type 0 where
  pub text : 1 ≤ length (trim summary.text)
  pub text_size : length (trim summary.text) ≤ ai_summary_max_characters
  pub no_control : contains_disallowed_control summary.text ≡ false
  pub provider : IsLabel 100 summary.provenance.provider
  pub model : IsLabel 300 summary.provenance.model
  pub prompt_version : IsLabel 100 summary.provenance.prompt_version
  pub reviewed : summary.provenance.human_reviewed ≡ true
  pub of_source : summary.source_hash ≡ ai_summary_source_hash lib title markdown

IsLabel-iff : (n : ℕ) (value : Text) → (valid_summary_label value n ≡ true) ↔ IsLabel n value
unfolding valid_summary_label
IsLabel-iff n value = (
  λ h. record { not_empty = ground arith; size = ground arith; no_control = ground arith },
  λ l. ground arith,
)

module _ (lib : Library) (title markdown : Text) (summary : AiSummary) where
  -- A summary is ready for a source exactly when its trimmed text has 1 to 2000 characters and no
  -- active control character, its three provenance labels are within their limits, a human has
  -- reviewed it, and its source hash is that of the title and the Markdown.
  pub validate_ready_ai_summary_iff :
      (validate_ready_ai_summary lib title markdown summary ≡ ok tt)
      ↔ IsReady lib title markdown summary
  unfolding validate_ready_ai_summary
  validate_ready_ai_summary_iff =
      let p = summary.provenance in
      let hash = text_eq_iff summary.source_hash (ai_summary_source_hash lib title markdown) in
      (
        λ h. record {
          text = ground arith;
          text_size = ground arith;
          no_control = ground arith;
          provider = (IsLabel-iff 100 p.provider).0 (ground arith);
          model = (IsLabel-iff 300 p.model).0 (ground arith);
          prompt_version = (IsLabel-iff 100 p.prompt_version).0 (ground arith);
          reviewed = ground arith;
          of_source = hash.0 (ground arith);
        },
        λ r. ground (
          arith,
          r.text,
          r.text_size,
          r.no_control,
          r.reviewed,
          (IsLabel-iff 100 p.provider).1 r.provider,
          (IsLabel-iff 300 p.model).1 r.model,
          (IsLabel-iff 100 p.prompt_version).1 r.prompt_version,
          hash.1 r.of_source,
        ),
      )

-- A revision publishes a summary exactly when it carries that summary and the summary is ready for
-- the revision's own title and Markdown.
pub publishable_iff :
    (lib : Library) (r : RevisionSnapshot) (s : AiSummary)
    → (publishable_ai_summary lib r ≡ some s)
      ↔ ((r.ai_summary ≡ some s) × IsReady lib r.title r.source_markdown s)
unfolding publishable_ai_summary
publishable_iff lib r s =
    let (sound, complete) = validate_ready_ai_summary_iff lib r.title r.source_markdown s in
    (λ h. (ground arith, sound (ground arith)), λ h. ground (arith, complete h.1))

-- A summary that two revisions publish was made from the one source of both: their titles and their
-- Markdown agree, for titles without a null character, unless the two hashed sources are a
-- collision of SHA-256.
pub publishable_same_source :
    (lib : Library) (r r' : RevisionSnapshot) (s : AiSummary)
    → ¬ In 0 r.title
    → ¬ In 0 r'.title
    → publishable_ai_summary lib r ≡ some s
    → publishable_ai_summary lib r' ≡ some s
    → ((r.title ≡ r'.title) × (r.source_markdown ≡ r'.source_markdown))
      ⊎ Collides lib
          (source_preimage r.title r.source_markdown)
          (source_preimage r'.title r'.source_markdown)
publishable_same_source lib r r' s h h' e e' =
    let ready = ((publishable_iff lib r s).0 e).1 in
    let ready' = ((publishable_iff lib r' s).0 e').1 in
    ai_summary_source_hash-injective lib r.title r'.title r.source_markdown r'.source_markdown h h'
      (sym ready.of_source ∙ ready'.of_source)
