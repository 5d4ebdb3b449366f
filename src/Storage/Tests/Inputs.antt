-- ===== src/Storage/Tests/Inputs.antt =====
-- Inputs of crates/storage-sqlite that are normalised or turned away.
use open_soverign_blog.Prelude.{ok, err, ◌≡◌, refl, ◌↔◌}
use open_soverign_blog.Storage.Records.{validation, message}
use open_soverign_blog.Storage.Normal.{normalize_handle, invalid_handle}
use open_soverign_blog.Text.{
  is_ascii, Text, codes, to_ascii_lowercase, trim, byte_len, starts_with, ends_with,
  is_ascii_alphanumeric, text_eq,
}
use open_soverign_blog.Storage.Css.{
  validate_css_block_structure, scan, scan_byte, finish_scan, unmatched,
}
use open_soverign_blog.Storage.Normal.Handles.{
  normalize_handle-again, IsHandle, normalize_handle-IsHandle,
}

normalized : normalize_handle (codes " Alice-1 ") (codes "handle") ≡ ok (codes "alice-1")
unfolding normalize_handle invalid_handle to_ascii_lowercase trim byte_len starts_with ends_with
    is_ascii_alphanumeric text_eq is_ascii
normalized = refl

normalize_handle-IsHandle_example :
    (normalize_handle (codes " Alice-1 ") (codes "handle") ≡ ok (codes "alice-1")) ↔ (
      (to_ascii_lowercase (trim (codes " Alice-1 ")) ≡ codes "alice-1")
      × IsHandle (codes "alice-1"))
normalize_handle-IsHandle_example =
    normalize_handle-IsHandle (codes " Alice-1 ") (codes "handle") (codes "alice-1")

normalize_handle-again_example :
    normalize_handle (codes "alice-1") (codes "slug") ≡ ok (codes "alice-1")
normalize_handle-again_example =
    normalize_handle-again (codes " Alice-1 ") (codes "handle") (codes "slug") (codes "alice-1")
      normalized

abbrev block : Text
block = codes "p{content:\"}\"}"

block_is_balanced : validate_css_block_structure block ≡ ok tt
unfolding validate_css_block_structure scan scan_byte finish_scan
block_is_balanced = refl

unbalanced : validate_css_block_structure (codes "}{") ≡ err (validation (message unmatched))
unfolding validate_css_block_structure scan scan_byte finish_scan
unbalanced = refl
