-- ===== src/Storage/Css.antt =====
-- `validate_custom_css` of crates/storage-sqlite/src/lib.rs and what it calls. The scan goes through
-- the characters of the text; the bytes that it looks for are ASCII, so no byte of another character
-- is one of them.
pub mod Embedding
use open_soverign_blog.Prelude.{
  ok, err, ◌>>◌, ◌>>=◌, ◌==◌, ◌≡◌, ◌++◌, ◌∷◌, [], ◌+◌, ◌&&◌, ◌||◌, not, true, false, none, some,
  if◌then◌else◌, refl, sym, ap, ◌∙◌, inl, inr, ◌⊎◌, ◌↔◌, arith, ℕ, Bool, Option, Result, length,
  reject_if, ltb, is_empty, any,
}
use open_soverign_blog.Prelude.{zero, suc, ◌-◌, ◌*◌, ◌^◌, min}
use open_soverign_blog.Storage.Records.{
  not_found, duplicate_slug, revision_conflict, duplicate_idempotency_key, validation, storage,
  content, envelope, message, active, archived, RepositoryError,
}
use open_soverign_blog.Text.{
  Text, codes, is_ascii_whitespace, to_ascii_lowercase, is_control, has_prefix, contains, skip,
  has_fragment, trim, byte_len,
}
use open_soverign_blog.Storage.Queries.{Check}

pub data ScanState : Type 0 where
  normal single_quoted double_quoted comment : ScanState

abbrev pub u32_max : ℕ
u32_max = 2 ^ 32 - 1

abbrev pub unmatched : Text
unmatched = codes "custom CSS contains an unmatched closing brace"

abbrev pub unterminated : Text
unterminated = codes "custom CSS contains an unterminated string or comment"

abbrev pub unclosed : Text
unclosed = codes "custom CSS contains an unclosed block"

-- the byte after the cursor, if it is `c`
abbrev pub next_is : ℕ → Text → Bool
next_is c [] = false
next_is c (n ∷ s) = n == c

-- One turn of the loop: the new state, the new depth, and whether the branch moves the cursor once
-- more.
unfoldable pub scan_byte : ScanState → ℕ → ℕ → Text → Result (ScanState × ℕ × Bool) RepositoryError
scan_byte normal depth byte rest =
    if byte == b'/' && next_is b'*' rest
    then ok (comment, depth, true)
    else if byte == b'\''
    then ok (single_quoted, depth, false)
    else if byte == b'"'
    then ok (double_quoted, depth, false)
    else if byte == b'{'
    then ok (normal, min (depth + 1) u32_max, false)
    else if byte == b'}' && depth == 0
    then err (validation (message unmatched))
    else if byte == b'}'
    then ok (normal, depth - 1, false)
    else ok (normal, depth, false)
scan_byte single_quoted depth byte rest =
    ok ((if byte == b'\'' then normal else single_quoted), depth, false)
scan_byte double_quoted depth byte rest =
    ok ((if byte == b'"' then normal else double_quoted), depth, false)
scan_byte comment depth byte rest =
    if byte == b'*' && next_is b'/' rest
    then ok (normal, depth, true)
    else ok (comment, depth, false)

abbrev pub is_normal : ScanState → Bool
is_normal normal = true
is_normal single_quoted = false
is_normal double_quoted = false
is_normal comment = false

-- the tests behind the loop
unfoldable pub finish_scan : ScanState → ℕ → Check
finish_scan state depth = do
  reject_if (not (is_normal state)) (validation (message unterminated))
  reject_if (not (depth == 0)) (validation (message unclosed))

-- The loop over `css`, up to a cursor that stands in front of `rest`: the state and the depth there,
-- and whether the last turn has moved the cursor once more.
unfoldable pub scan :
    ScanState → ℕ → Bool → Text → Text → Result (ScanState × ℕ × Bool) RepositoryError
unfolding scan_byte
scan state depth skip [] rest = ok (state, depth, skip)
scan state depth true (byte ∷ css) rest = scan state depth false css rest
scan state depth false (byte ∷ css) rest =
    scan_byte state depth byte (css ++ rest) >>= λ t. scan t.0 t.1 t.2 css rest

unfoldable pub validate_css_block_structure : Text → Check
unfolding scan finish_scan
validate_css_block_structure value = do
  (state, depth, _) ← scan normal 0 false value []
  finish_scan state depth

-- `while bytes.get(cursor).is_some_and(…)`, then `bytes.get(cursor) == Some(&b'(')`
unfoldable pub opens_call : Text → Bool
opens_call [] = false
opens_call (c ∷ s) = let rest = opens_call s in if is_ascii_whitespace c then rest else c == b'('

-- From an occurrence of the name the search goes on behind it, so that many characters are passed over.
unfoldable pub css_function_from : Text → ℕ → Text → Bool
unfolding opens_call
css_function_from name over [] = false
css_function_from name (suc over) (c ∷ s) = css_function_from name over s
css_function_from name zero (c ∷ s) =
    let later = css_function_from name (length name - 1) s in
    let next = css_function_from name 0 s in
    if has_prefix name (c ∷ s) then opens_call (skip name (c ∷ s)) || later else next

unfoldable pub contains_css_function : Text → Text → Bool
unfolding css_function_from
contains_css_function value name = css_function_from name 0 value

unfoldable pub unsafe_fragment : Text → Bool
unfolding contains_css_function
unsafe_fragment value =
    let lower = to_ascii_lowercase value in
    contains b'<' value
    || contains b'>' value
    || contains b'\\' value
    || contains b'@' lower
    || has_fragment (codes "http:") lower
    || has_fragment (codes "https:") lower
    || has_fragment (codes "data:") lower
    || has_fragment (codes "javascript:") lower
    || has_fragment (codes "//") lower
    || has_fragment (codes "expression(") lower
    || has_fragment (codes "behavior:") lower
    || has_fragment (codes "-moz-binding") lower
    || contains_css_function lower (codes "url")
    || contains_css_function lower (codes "image-set")
    || contains_css_function lower (codes "src")

abbrev pub long_css : Text
long_css = codes "custom CSS must not exceed 65536 bytes"

abbrev pub css_controls : Text
css_controls = codes "custom CSS contains unsupported control characters"

abbrev pub unsafe_css : Text
unsafe_css =
    codes "custom CSS must not contain HTML, at-rules, escapes, or external resource loaders"

abbrev pub is_css_control : ℕ → Bool
is_css_control c = is_control c && not (c == 10 || c == 13 || c == 9)

-- the value behind the trimming, if it is not empty
unfoldable pub validate_css_text : Text → Check
unfolding unsafe_fragment validate_css_block_structure
validate_css_text value = do
  reject_if (ltb (64 * 1024) (byte_len value)) (validation (message long_css))
  reject_if (contains 0 value || any is_css_control value) (validation (message css_controls))
  reject_if (unsafe_fragment value) (validation (message unsafe_css))
  validate_css_block_structure value

unfoldable pub validate_custom_css : Option Text → Result (Option Text) RepositoryError
unfolding validate_css_text
validate_custom_css none = ok none
validate_custom_css (some text) =
    let value = trim text in
    if is_empty value then ok none else (validate_css_text value >> ok (some value))
