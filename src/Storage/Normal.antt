-- ===== src/Storage/Normal.antt =====
-- The texts that crates/storage-sqlite/src/lib.rs stores: how they are normalised, and which are
-- turned away.
pub mod Handles
use open_soverign_blog.Prelude.{
  ok, err, ◌>>◌, ◌>>=◌, ◌==◌, ◌≡◌, ◌++◌, ◌∷◌, [], ◌+◌, ◌&&◌, ◌||◌, not, true, false, none, some,
  if◌then◌else◌, refl, sym, ap, ◌∙◌, inl, inr, ◌⊎◌, ◌↔◌, arith, ℕ, List, Option, Bool, Result,
  is_empty, ltb, reject_if, length, leb, ◌^◌, all, ◌*◌, ◌-◌, any,
}
use open_soverign_blog.Kernel.Content.{DocumentStatus, draft, published}
use open_soverign_blog.Storage.Records.{handle, required, at_most, reserved, RepositoryError}
use open_soverign_blog.Storage.Records.{
  not_found, duplicate_slug, revision_conflict, duplicate_idempotency_key, validation, storage,
  content, envelope, message, active, archived,
}
use open_soverign_blog.Text.{
  Text, codes, is_ascii_lowercase, contains, is_ascii_digit, byte_len, to_ascii_lowercase, has_text,
  trim, has_prefix, text_eq, is_ascii, starts_with, split, ends_with, is_ascii_whitespace,
}
use open_soverign_blog.Storage.Queries.{Check}

abbrev pub handle_char : ℕ → Bool
handle_char c = is_ascii_lowercase c || is_ascii_digit c || c == b'-'

unfoldable pub invalid_handle : Text → Bool
invalid_handle normalized =
    is_empty normalized
    || ltb 40 (byte_len normalized)
    || not (is_ascii normalized)
    || starts_with b'-' normalized
    || ends_with b'-' normalized
    || any (λ c. not (handle_char c)) normalized

unfoldable pub normalize_handle : Text → Text → Result Text RepositoryError
unfolding invalid_handle
normalize_handle value field =
    let normalized = to_ascii_lowercase (trim value) in
    reject_if (invalid_handle normalized) (validation (handle field)) >> ok normalized

unfoldable pub normalize_category_slug : Text → Result Text RepositoryError
unfolding normalize_handle
normalize_category_slug value = normalize_handle value (codes "category slug")

abbrev pub reserved_slugs : List Text
reserved_slugs =
    codes "api"
    ∷ codes "assets"
    ∷ codes "blog"
    ∷ codes "docs"
    ∷ codes "healthz"
    ∷ codes "livez"
    ∷ codes "login"
    ∷ codes "media"
    ∷ codes "onboarding"
    ∷ codes "openapi"
    ∷ codes "providers"
    ∷ codes "references"
    ∷ codes "readyz"
    ∷ codes "schemas"
    ∷ codes "studio"
    ∷ codes "vendor"
    ∷ []

unfoldable pub normalize_new_category_slug : Text → Result Text RepositoryError
unfolding normalize_category_slug
normalize_new_category_slug value = do
  slug ← normalize_category_slug value
  reject_if (has_text reserved_slugs slug) (validation (reserved slug))
  ok slug

-- Behind the first `@` there is one more part, and no third.
abbrev pub two_parts : List Text → Bool
two_parts (local ∷ domain ∷ []) = not (is_empty local) && not (is_empty domain)
two_parts _ = false

abbrev pub ascii_control : ℕ → Bool
ascii_control c = ltb c 32 || c == 127

abbrev pub bad_address : Text
bad_address = codes "email must be a valid ASCII address"

unfoldable pub normalize_email : Text → Result Text RepositoryError
normalize_email value =
    let normalized = to_ascii_lowercase (trim value) in
    reject_if
      (ltb 320 (byte_len normalized)
        || not (is_ascii normalized)
        || not (two_parts (split b'@' normalized))
        || any (λ c. is_ascii_whitespace c || ascii_control c) normalized)
      (validation (message bad_address))
    >> ok normalized

unfoldable pub validate_required_text : Text → Text → ℕ → Result Text RepositoryError
validate_required_text value field max_chars =
    let trimmed = trim value in
    reject_if (is_empty trimmed || ltb max_chars (length trimmed) || contains 0 trimmed)
      (validation (required field max_chars))
    >> ok trimmed

unfoldable pub validate_optional_text :
    Option Text → Text → ℕ → Result (Option Text) RepositoryError
validate_optional_text none field max_chars = ok none
validate_optional_text (some value) field max_chars =
    let trimmed = trim value in
    if is_empty trimmed
    then ok none
    else (reject_if (ltb max_chars (length trimmed) || contains 0 trimmed)
          (validation (at_most field max_chars))
        >> ok (some trimmed))

abbrev pub bad_password : Text
bad_password = codes "password must be stored as a bounded Argon2id PHC string"

abbrev pub line_break : Text → Bool
line_break value = contains 13 value || contains 10 value

unfoldable pub validate_password_phc : Text → Check
validate_password_phc value =
    reject_if
      (not (has_prefix (codes "$argon2id$") value)
        || ltb 1024 (byte_len value)
        || contains 0 value
        || line_break value)
      (validation (message bad_password))

-- the three tests of a hash, each with its message
unfoldable pub check_hash : Text → List ℕ → Check
check_hash text value = reject_if (not (length value == 32)) (validation (message text))

unfoldable pub validate_token_hash : List ℕ → Check
unfolding check_hash
validate_token_hash value = check_hash (codes "session token hash must be exactly 32 bytes") value

unfoldable pub validate_fingerprint : List ℕ → Check
unfolding check_hash
validate_fingerprint value =
    check_hash (codes "admin binding fingerprint must be exactly 32 bytes") value

unfoldable pub validate_subject_hash : List ℕ → Check
unfolding check_hash
validate_subject_hash value =
    check_hash (codes "external subject hash must be exactly 32 bytes") value

-- `fixed_hash`, whose message is not kept
unfoldable pub fixed_hash : List ℕ → Result (List ℕ) RepositoryError
fixed_hash value = if length value == 32 then ok value else err storage

abbrev pub past_expiry : Text
past_expiry = codes "session expiry must be in the future"

unfoldable pub validate_session_expiry : ℕ → ℕ → Check
validate_session_expiry now expires_at =
    reject_if (leb expires_at now) (validation (message past_expiry))

abbrev pub bad_adapter : Text
bad_adapter = codes "external adapter must contain 1-64 lowercase ASCII letters, digits, _, or -"

abbrev pub adapter_char : ℕ → Bool
adapter_char c = is_ascii_lowercase c || is_ascii_digit c || c == b'_' || c == b'-'

unfoldable pub validate_external_adapter : Text → Result Text RepositoryError
validate_external_adapter value =
    let normalized = to_ascii_lowercase (trim value) in
    reject_if
      (is_empty normalized || ltb 64 (byte_len normalized) || not (all adapter_char normalized))
      (validation (message bad_adapter))
    >> ok normalized

abbrev pub bad_issuer : Text
bad_issuer = codes "external issuer must contain 1-2048 bounded characters"

unfoldable pub validate_external_issuer : Text → Result Text RepositoryError
validate_external_issuer value =
    let trimmed = trim value in
    reject_if
      (is_empty trimmed || ltb 2048 (byte_len trimmed) || contains 0 trimmed || line_break trimmed)
      (validation (message bad_issuer))
    >> ok trimmed

abbrev pub bad_comment : Text
bad_comment = codes "comment Markdown must contain 1-65536 bytes"

unfoldable pub validate_comment_markdown : Text → Result Text RepositoryError
validate_comment_markdown value =
    let trimmed = trim value in
    reject_if (is_empty trimmed || ltb (64 * 1024) (byte_len trimmed) || contains 0 trimmed)
      (validation (message bad_comment))
    >> ok trimmed

abbrev pub large_page : Text
large_page = codes "pagination offset or limit is too large"

unfoldable pub page_parameter : ℕ → Result ℕ RepositoryError
page_parameter value =
    reject_if (ltb (2 ^ 63 - 1) value) (validation (message large_page)) >> ok value

unfoldable pub status_text : DocumentStatus → Text
status_text draft = codes "draft"
status_text published = codes "published"
status_text DocumentStatus.archived = codes "archived"

unfoldable pub parse_status : Text → Result DocumentStatus RepositoryError
parse_status value =
    if text_eq value (codes "draft")
    then ok draft
    else if text_eq value (codes "published")
    then ok published
    else if text_eq value (codes "archived")
    then ok DocumentStatus.archived
    else err storage
