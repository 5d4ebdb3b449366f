-- ===== src/Storage/Normal/Handles.antt =====
-- What a normalised handle is, and that normalising it again changes nothing.
use open_soverign_blog.Prelude.{
  ok, ◌≡◌, ◌∷◌, [], not, true, false, refl, sym, ap, ◌∙◌, ◌↔◌, arith, is_empty, All, none_bad_iff,
  >>-value_iff, reject_if, ◌≤◌, reject_iff, ℕ, subst, ltb,
}
use open_soverign_blog.Kernel.Content.{DocumentStatus, draft, published, archived}
use open_soverign_blog.Storage.Records.{handle}
use open_soverign_blog.Storage.Records.{validation}
use open_soverign_blog.Text.{
  Text, is_ascii_lowercase, is_ascii, to_ascii_lowercase, trim_end, trim, is_ascii_digit,
  trim_start, byte_len, is_whitespace, text_eq, is_ascii_uppercase, trim_cons-kept, starts_with,
  ends_with,
}
use open_soverign_blog.Storage.Normal.{
  invalid_handle, normalize_handle, parse_status, status_text, handle_char,
}

-- 1 to 40 lowercase letters, digits and hyphens, with no hyphen at either end.
pub record IsHandle (s : Text) : Type 0 where
  pub filled : is_empty s ≡ false
  pub size : byte_len s ≤ 40
  pub first : starts_with b'-' s ≡ false
  pub last : ends_with b'-' s ≡ false
  pub letters : All (λ c. handle_char c ≡ true) s

handle_char-IsPlain :
    (c : ℕ)
    → handle_char c ≡ true
    → (ltb c 128 ≡ true) × (is_whitespace c ≡ false) × (is_ascii_uppercase c ≡ false)
unfolding is_ascii_lowercase is_ascii_digit is_whitespace is_ascii_uppercase
handle_char-IsPlain c h = (ground (arith, h), ground (arith, h), ground (arith, h))

handles-ascii : (s : Text) → All (λ c. handle_char c ≡ true) s → is_ascii s ≡ true
unfolding is_ascii
handles-ascii [] h = refl
handles-ascii (c ∷ s) h = rw ((handle_char-IsPlain c h.0).0) (handles-ascii s h.1)

pub handles-lowercase : (s : Text) → All (λ c. handle_char c ≡ true) s → to_ascii_lowercase s ≡ s
unfolding to_ascii_lowercase
handles-lowercase [] h = refl
handles-lowercase (c ∷ s) h = rw ((handle_char-IsPlain c h.0).2, handles-lowercase s h.1) refl

handles-trim_end : (s : Text) → All (λ c. handle_char c ≡ true) s → trim_end s ≡ s
unfolding trim_end
handles-trim_end [] h = refl
handles-trim_end (c ∷ s) h =
    rw (handles-trim_end s h.1) (trim_cons-kept c s (handle_char-IsPlain c h.0).1)

handles-trim : (s : Text) → All (λ c. handle_char c ≡ true) s → trim s ≡ s
unfolding trim trim_start
handles-trim [] h = refl
handles-trim (c ∷ s) h = rw ((handle_char-IsPlain c h.0).1) (handles-trim_end (c ∷ s) h)

invalid_handle_iff : (s : Text) → (invalid_handle s ≡ false) ↔ IsHandle s
unfolding invalid_handle
invalid_handle_iff s =
    let (to, of) =
      none_bad_iff (λ c. not (handle_char c)) (λ c. handle_char c ≡ true)
        (λ c. (λ h. ground (arith, h), λ h. ground (arith, h))) s in
    (
      λ h. record {
        filled = ground (arith, h);
        size = ground (arith, h);
        first = ground (arith, h);
        last = ground (arith, h);
        letters = to (ground (arith, h));
      },
      λ k.
          ground
            (arith, k.filled, k.size, k.first, k.last, of k.letters, handles-ascii s k.letters),
    )

-- A text is normalised to a handle exactly when it is that handle but for the case of its letters and
-- the white space around it.
pub normalize_handle-IsHandle :
    (value field s : Text)
    → (normalize_handle value field ≡ ok s) ↔ ((to_ascii_lowercase (trim value) ≡ s) × IsHandle s)
unfolding normalize_handle
normalize_handle-IsHandle value field s =
    let n = to_ascii_lowercase (trim value) in
    let (to, of) = >>-value_iff (reject_if (invalid_handle n) (validation (handle field))) n s in
    let (to', of') =
      reject_iff (invalid_handle n) (validation (handle field)) (invalid_handle_iff n) in
    (
      λ h. let (c, q) = to h in (q, subst IsHandle q (to' c)),
      λ h. of (of' (subst IsHandle (sym h.0) h.1), h.0),
    )

-- Normalising a handle again leaves it as it is, whatever field it is for.
pub normalize_handle-again :
    (value field field' s : Text)
    → normalize_handle value field ≡ ok s
    → normalize_handle s field' ≡ ok s
normalize_handle-again value field field' s h =
    let (q, k) = (normalize_handle-IsHandle value field s).0 h in
    (normalize_handle-IsHandle s field' s).1
      (ap to_ascii_lowercase (handles-trim s k.letters) ∙ handles-lowercase s k.letters, k)

-- A stored status is read back as it was written.
pub parse_status-text : (status : DocumentStatus) → parse_status (status_text status) ≡ ok status
unfolding parse_status status_text text_eq
parse_status-text draft = refl
parse_status-text published = refl
parse_status-text archived = refl
