-- ===== src/Text/Basic.antt =====
-- `len` (bytes of UTF-8), `contains`, `==`, `starts_with`, `ends_with`, and the classes of `char`.
use Prim.Native.Char.{code}
use Prim.Native.String.{String}
use open_soverign_blog.Prelude.{
  false_iff, ℕ, ◌+◌, ◌≡◌, refl, ◌↔◌, Bool, true, false, ◌&&◌, ◌||◌, List, [], ◌∷◌, ◌++◌, arith, ltb,
  leb, ◌==◌, ==_iff, if◌then◌else◌, any, any_iff, In, map, all,
}

abbrev pub Text : Type 0
Text = List ℕ

-- The scalar values of a literal.
abbrev pub codes : String → Text
codes String.[] = []
codes (String.◌∷◌ c s) = code c ∷ codes s

-- The bytes that a scalar value takes in UTF-8.
unfoldable pub utf8_width : ℕ → ℕ
utf8_width c = if ltb c 0x80 then 1 else if ltb c 0x800 then 2 else if ltb c 0x10000 then 3 else 4

-- `str::len`
unfoldable pub byte_len : Text → ℕ
unfolding utf8_width
byte_len [] = 0
byte_len (c ∷ s) = utf8_width c + byte_len s

-- `char::is_control`: the general category Cc.
unfoldable pub is_control : ℕ → Bool
is_control c = ltb c 32 || (leb 127 c && leb c 159)

unfoldable pub is_ascii_digit : ℕ → Bool
is_ascii_digit c = leb b'0' c && leb c b'9'

unfoldable pub is_ascii_lowercase : ℕ → Bool
is_ascii_lowercase c = leb b'a' c && leb c b'z'

unfoldable pub is_ascii_uppercase : ℕ → Bool
is_ascii_uppercase c = leb b'A' c && leb c b'Z'

unfoldable pub is_ascii_alphanumeric : ℕ → Bool
unfolding is_ascii_digit is_ascii_lowercase is_ascii_uppercase
is_ascii_alphanumeric c = is_ascii_digit c || is_ascii_lowercase c || is_ascii_uppercase c

unfoldable pub to_ascii_lowercase : Text → Text
unfolding is_ascii_uppercase
to_ascii_lowercase s = map (λ c. if is_ascii_uppercase c then c + 32 else c) s

unfoldable pub is_ascii : Text → Bool
is_ascii s = all (λ c. ltb c 128) s

-- `u8::is_ascii_whitespace`
unfoldable pub is_ascii_whitespace : ℕ → Bool
is_ascii_whitespace c = c == 9 || c == 10 || c == 12 || c == 13 || c == 32

-- `str::contains` for one character
abbrev pub contains : ℕ → Text → Bool
contains c s = any (λ d. d == c) s

-- `==` on texts
unfoldable pub text_eq : Text → Text → Bool
text_eq [] [] = true
text_eq (c ∷ s) (d ∷ t) = c == d && text_eq s t
text_eq _ _ = false

pub text_eq_iff : (s t : Text) → (text_eq s t ≡ true) ↔ (s ≡ t)
unfolding text_eq
text_eq_iff [] [] = (λ h. refl, λ h. refl)
text_eq_iff [] (d ∷ t) = (λ h. cc, λ h. cc)
text_eq_iff (c ∷ s) [] = (λ h. cc, λ h. cc)
text_eq_iff (c ∷ s) (d ∷ t) = (
  λ h. ground (arith, (text_eq_iff s t).0 (ground arith)),
  λ h. ground (arith, (text_eq_iff s t).1 (ground arith)),
)

-- `values.iter().any(|value| value == text)`
unfoldable pub has_text : List Text → Text → Bool
has_text values t = any (λ value. text_eq value t) values

pub has_text_iff : (values : List Text) (t : Text) → (has_text values t ≡ true) ↔ In t values
unfolding has_text
has_text_iff values t =
    any_iff (λ value. text_eq value t) (λ value. value ≡ t) (λ v. text_eq_iff v t) values

pub contains_iff : (c : ℕ) (s : Text) → (contains c s ≡ true) ↔ In c s
contains_iff c s = any_iff (λ d. d == c) (λ d. d ≡ c) (λ d. ==_iff d c) s

pub contains-false_iff : (c : ℕ) (s : Text) → (contains c s ≡ false) ↔ (¬ In c s)
contains-false_iff c s = false_iff _ (contains_iff c s)

-- `str::starts_with` and `str::ends_with` for one character
unfoldable pub starts_with : ℕ → Text → Bool
starts_with c [] = false
starts_with c (d ∷ s) = d == c

unfoldable pub ends_with : ℕ → Text → Bool
ends_with c [] = false
ends_with c (d ∷ []) = d == c
ends_with c (d ∷ e ∷ s) = ends_with c (e ∷ s)

-- `str::starts_with` for a text, and what a slice leaves behind a number of characters
unfoldable pub has_prefix : Text → Text → Bool
has_prefix [] s = true
has_prefix (c ∷ p) [] = false
has_prefix (c ∷ p) (d ∷ s) = c == d && has_prefix p s

unfoldable pub skip : Text → Text → Text
skip [] s = s
skip (c ∷ p) [] = []
skip (c ∷ p) (d ∷ s) = skip p s

-- `str::contains` for a text
unfoldable pub has_fragment : Text → Text → Bool
unfolding has_prefix
has_fragment p [] = has_prefix p []
has_fragment p (c ∷ s) = has_prefix p (c ∷ s) || has_fragment p s

pub has_prefix_iff : (p s : Text) → (has_prefix p s ≡ true) ↔ (s ≡ p ++ skip p s)
unfolding has_prefix skip
has_prefix_iff [] s = (λ h. refl, λ h. refl)
has_prefix_iff (c ∷ p) [] = (λ h. cc, λ h. cc)
has_prefix_iff (c ∷ p) (d ∷ s) = (
  λ h. ground (arith, (has_prefix_iff p s).0 (ground arith)),
  λ h. ground (arith, (has_prefix_iff p s).1 (ground arith)),
)

-- a digit of lowercase hexadecimal
unfoldable pub is_lower_hex : ℕ → Bool
unfolding is_ascii_digit
is_lower_hex c = is_ascii_digit c || (leb b'a' c && leb c b'f')

push_front : ℕ → List Text → List Text
push_front c [] = (c ∷ []) ∷ []
push_front c (part ∷ parts) = (c ∷ part) ∷ parts

-- `str::split` at a character: a text without it is one part.
unfoldable pub split : ℕ → Text → List Text
unfolding push_front
split at [] = [] ∷ []
split at (c ∷ s) = let rest = split at s in if c == at then [] ∷ rest else push_front c rest

-- `<` on texts, byte by byte: UTF-8 keeps the order of the scalar values.
unfoldable pub text_lt : Text → Text → Bool
text_lt s [] = false
text_lt [] (d ∷ t) = true
text_lt (c ∷ s) (d ∷ t) = ltb c d || (c == d && text_lt s t)
