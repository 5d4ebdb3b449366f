-- ===== src/PluginApi/Names.antt =====
-- The classes of names of crates/plugin-api/src/lib.rs.
use open_soverign_blog.Prelude.{
  ℕ, Bool, true, ◌&&◌, ◌||◌, not, List, [], ◌∷◌, leb, ◌==◌, length, is_empty, all, any,
}
use open_soverign_blog.Text.{
  Text, codes, byte_len, contains, trim, text_eq, text_lt, has_text, split, starts_with, ends_with,
  is_control, is_ascii_digit, is_ascii_lowercase, is_ascii_alphanumeric, is_lower_hex,
}

abbrev lower_or_digit : ℕ → Bool
lower_or_digit c = is_ascii_lowercase c || is_ascii_digit c

abbrev is_label : Text → Bool
is_label label =
    not (is_empty label)
    && leb (byte_len label) 63
    && not (starts_with b'-' label)
    && not (ends_with b'-' label)
    && all (λ c. lower_or_digit c || c == b'-') label

unfoldable pub valid_plugin_id : Text → Bool
valid_plugin_id value =
    leb (length value) 190 && leb 3 (length (split b'.' value)) && all is_label (split b'.' value)

-- The test of a name whose first character is a lowercase letter.
abbrev named : (ℕ → Bool) → Text → Bool
named later [] = true
named later (c ∷ s) = is_ascii_lowercase c && all later s

unfoldable pub qualified_name : Text → Bool
qualified_name value =
    not (is_empty value)
    && leb (byte_len value) 128
    && named (λ c. lower_or_digit c || (c == b'_' || c == b'.' || c == b'-')) value

unfoldable pub valid_style_id : Text → Bool
valid_style_id value =
    (leb 1 (byte_len value) && leb (byte_len value) 64)
    && named (λ c. lower_or_digit c || (c == b'-' || c == b'_')) value

unfoldable pub valid_capability_name : Text → Bool
valid_capability_name value =
    (leb 3 (byte_len value) && leb (byte_len value) 128)
    && contains b'.' value
    && all (λ c. lower_or_digit c || (c == b'.' || c == b'_' || c == b'-')) value

abbrev is_segment : Text → Bool
is_segment segment =
    not (is_empty segment)
    && not (text_eq segment (codes ".."))
    && all
        (λ c.
          is_ascii_alphanumeric c
          || (c == b'.' || c == b'_' || c == b'@' || c == b'+' || c == b'-'))
        segment

unfoldable pub safe_relative_path : Text → Bool
safe_relative_path value =
    not (is_empty value)
    && leb (byte_len value) 512
    && not (starts_with b'/' value)
    && not (contains 92 value || contains 0 value)
    && all is_segment (split b'/' value)

-- `is_ascii_hexdigit` and not `is_ascii_uppercase`
unfoldable pub valid_sha256 : Text → Bool
valid_sha256 value = byte_len value == 64 && all is_lower_hex value

unfoldable pub bounded_install_text : Text → ℕ → ℕ → Bool
bounded_install_text value minimum maximum =
    (leb minimum (byte_len value) && leb (byte_len value) maximum)
    && text_eq (trim value) value
    && not (any is_control value)

-- `windows(2)`
unfoldable pub strictly_sorted_unique : List Text → Bool
strictly_sorted_unique [] = true
strictly_sorted_unique (a ∷ []) = true
strictly_sorted_unique (a ∷ b ∷ rest) = text_lt a b && strictly_sorted_unique (b ∷ rest)

-- `all` over the texts, each with those in front of it
all_unique_from : List Text → List Text → Bool
all_unique_from before [] = true
all_unique_from before (t ∷ ts) = not (has_text before t) && all_unique_from (t ∷ before) ts

unfoldable pub all_unique : List Text → Bool
unfolding all_unique_from
all_unique values = all_unique_from [] values
