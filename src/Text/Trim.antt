-- ===== src/Text/Trim.antt =====
-- `str::trim`
use open_soverign_blog.Prelude.{
  ◌≡◌, false, ℕ, ◌≤◌, Bool, ◌&&◌, ◌||◌, List, [], ◌∷◌, arith, leb, ◌==◌, if◌then◌else◌, length,
  is_empty, ◌≡◌, false,
}

-- `char::is_whitespace`: the property White_Space.
unfoldable pub is_whitespace : ℕ → Bool
is_whitespace c =
    (leb 9 c && leb c 13)
    || c == 32
    || c == 133
    || c == 160
    || c == 5760
    || (leb 8192 c && leb c 8202)
    || c == 8232
    || c == 8233
    || c == 8239
    || c == 8287
    || c == 12288

unfoldable pub trim_start : List ℕ → List ℕ
trim_start [] = []
trim_start (c ∷ s) = if is_whitespace c then trim_start s else c ∷ s

pub trim_cons : ℕ → List ℕ → List ℕ
trim_cons c rest = if is_empty rest && is_whitespace c then [] else c ∷ rest

unfoldable pub trim_end : List ℕ → List ℕ
unfolding trim_cons
trim_end [] = []
trim_end (c ∷ s) = trim_cons c (trim_end s)

unfoldable pub trim : List ℕ → List ℕ
unfolding is_whitespace trim_start trim_end
trim s = trim_end (trim_start s)

-- `trim().is_empty()`
abbrev pub is_blank : List ℕ → Bool
is_blank s = is_empty (trim s)

length-trim_start-le : (s : List ℕ) → length (trim_start s) ≤ length s
unfolding trim_start
length-trim_start-le [] = omega arith
length-trim_start-le (c ∷ s) = ground (arith, length-trim_start-le s)

length-trim_end-le : (s : List ℕ) → length (trim_end s) ≤ length s
unfolding trim_end
length-trim_end-le [] = omega arith
length-trim_end-le (c ∷ s) = ground (arith, length-trim_end-le s)

pub length-trim-le : (s : List ℕ) → length (trim s) ≤ length s
length-trim-le s =
    unfold trim in omega (arith, length-trim_end-le (trim_start s), length-trim_start-le s)

pub trim_cons-kept : (c : ℕ) (s : List ℕ) → is_whitespace c ≡ false → trim_cons c s ≡ c ∷ s
unfolding trim_cons
trim_cons-kept c s h = ground arith
