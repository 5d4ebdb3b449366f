-- ===== src/Kernel/Content/Validation/Slug.antt =====
-- What the title, slug, Markdown and authorship checks of crates/kernel/src/content.rs accept.
use open_soverign_blog.Prelude.{
  ◌≤◌, ◌≡◌, ◌≢◌, refl, ◌↔◌, false, Option, none, some, [], ◌∷◌, In, arith, length, Bool, is_empty,
  any, ok,
}
use open_soverign_blog.Text.{
  Text, byte_len, contains, contains-false_iff, trim, is_control, starts_with, ends_with,
}
use open_soverign_blog.Kernel.Content.Layers.{PublicAuthorship, PublicAuthorshipKind}
use open_soverign_blog.Kernel.Content.Validation.{
  validate_title, validate_slug, validate_markdown, validate_authorship, invalid_generator,
  max_bytes,
}

pub record IsTitle (value : Text) : Type 0 where
  pub not_empty : 1 ≤ length (trim value)
  pub size : length (trim value) ≤ 300
  pub no_null : ¬ In 0 value

pub validate_title_iff : (value : Text) → (validate_title value ≡ ok tt) ↔ IsTitle value
unfolding validate_title
validate_title_iff value =
    let (absent, fresh) = contains-false_iff 0 value in
    (
      λ h. record {
        not_empty = ground arith;
        size = ground arith;
        no_null = absent (ground arith);
      },
      λ t. ground (arith, fresh t.no_null),
    )

-- A single path segment that no file system or router takes for another place.
pub record IsSegment (slug : Text) : Type 0 where
  pub not_empty : slug ≢ []
  pub size : byte_len slug ≤ 240
  pub no_leading_dot : starts_with b'.' slug ≡ false
  pub no_trailing_dot : ends_with b'.' slug ≡ false
  pub no_slash : ¬ In b'/' slug
  pub no_backslash : ¬ In 92 slug
  pub no_control : any is_control slug ≡ false

no_control-no_null : (s : Text) → any is_control s ≡ false → contains 0 s ≡ false
unfolding is_control
no_control-no_null [] h = refl
no_control-no_null (c ∷ s) h = ground (arith, no_control-no_null s)

is_empty-false_iff : (s : Text) → (is_empty s ≡ false) ↔ (s ≢ [])
is_empty-false_iff [] = (λ h. cc, λ n. absurd (n refl))
is_empty-false_iff (c ∷ s) = (λ h. cc, λ n. refl)

-- A slug is accepted exactly when its trimmed text is a safe path segment: not empty, at most 240
-- bytes, with no dot at either end, no slash, no backslash and no control character.
pub validate_slug_iff : (value : Text) → (validate_slug value ≡ ok tt) ↔ IsSegment (trim value)
unfolding validate_slug
validate_slug_iff value =
    let slug = trim value in
    let (some_text, not_empty) = is_empty-false_iff slug in
    let (no_slash, slash_free) = contains-false_iff b'/' slug in
    let (no_backslash, backslash_free) = contains-false_iff 92 slug in
    (
      λ h. record {
        not_empty = some_text (ground arith);
        size = ground arith;
        no_leading_dot = ground arith;
        no_trailing_dot = ground arith;
        no_slash = no_slash (ground arith);
        no_backslash = no_backslash (ground arith);
        no_control = ground arith;
      },
      λ g. ground (
        arith,
        not_empty g.not_empty,
        g.size,
        g.no_leading_dot,
        g.no_trailing_dot,
        slash_free g.no_slash,
        backslash_free g.no_backslash,
        no_control-no_null slug g.no_control,
        g.no_control,
      ),
    )

pub validate_markdown_iff :
    (value : Text)
    → (validate_markdown value ≡ ok tt) ↔ ((byte_len value ≤ max_bytes) × (¬ In 0 value))
unfolding validate_markdown
validate_markdown_iff value =
    let (absent, fresh) = contains-false_iff 0 value in
    (λ h. (ground arith, absent (ground arith)), λ h. ground (arith, fresh h.1))

-- The generator is named, and named readably, exactly for what a human did not write alone.
abbrev pub IsAttributed : PublicAuthorshipKind → Option Text → Type 0
IsAttributed kind none = kind ≡ PublicAuthorshipKind.human
IsAttributed kind (some g) = (kind ≢ PublicAuthorshipKind.human) × (invalid_generator g ≡ false)

authorship_parts_iff :
    (kind : PublicAuthorshipKind) (generator : Option Text) (reviewed : Bool)
    → (validate_authorship
          (record { kind = kind; generator = generator; human_reviewed = reviewed })
        ≡ ok tt)
      ↔ IsAttributed kind generator
unfolding validate_authorship
authorship_parts_iff kind none reviewed = (λ h. ground arith, λ h. ground arith)
authorship_parts_iff kind (some g) reviewed = (λ h. (ground arith, ground arith), λ h. ground arith)

-- Authorship is accepted exactly when a human author names no generator, and any other kind names
-- one that is not blank, has at most 300 bytes and holds no control character.
pub validate_authorship_iff :
    (value : PublicAuthorship)
    → (validate_authorship value ≡ ok tt) ↔ IsAttributed value.kind value.generator
validate_authorship_iff value = authorship_parts_iff value.kind value.generator value.human_reviewed
