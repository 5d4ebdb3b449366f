-- ===== src/Kernel/Ai2Ai/Records.antt =====
-- Which context receipts and provenance entries crates/kernel/src/ai2ai.rs accepts.
use open_soverign_blog.Prelude.{
  ◌≤◌, ◌≡◌, refl, sym, ◌↔◌, inl, inr, Bool, true, false, Option, none, some, List, [], ◌∷◌, ◌++◌,
  map, In, All, Distinct, arith, length, ok, all, false_iff, IfSome, absent_or_iff, Bool-cases,
  subst, is_some_and, not, ◌||◌, ◌&&◌, is_some,
}
use open_soverign_blog.Text.{
  Text, codes, byte_len, is_blank, contains-false_iff, text_eq_iff, has_prefix, has_prefix_iff,
  skip, is_lower_hex, Apart, Apart-cons, Apart-tail, Apart-nil,
}
use open_soverign_blog.Kernel.Content.Validation.Optional.{IsNamed}
use open_soverign_blog.Kernel.Ai2Ai.{
  ContextReceipt, AiProvenanceEntry, valid_content_hash, pair_eq, has_pair, invalid_reason, key_of,
  invalid_receipt, validate_each_receipt, validate_context_receipts, invalid_entry,
  validate_each_entry, validate_provenance,
}

pair_eq_iff : (p q : Text × Text) → (pair_eq p q ≡ true) ↔ (p ≡ q)
pair_eq_iff (r, s) (r', s') =
    let (to, of) = text_eq_iff r r' in
    let (to', of') = text_eq_iff s s' in
    (
      λ h. ground (arith, to (ground arith), to' (ground arith)),
      λ h. ground (arith, of (ground arith), of' (ground arith)),
    )

has_pair_iff : (qs : List (Text × Text)) (p : Text × Text) → (has_pair qs p ≡ true) ↔ In p qs
unfolding has_pair
has_pair_iff [] p = (λ h. cc, λ h. elim h [ ])
has_pair_iff (q ∷ qs) p =
    let (to, of) = pair_eq_iff q p in
    let (member, listed) = has_pair_iff qs p in
    (
      λ h. elim (Bool-cases (pair_eq q p)) [
        | inl e ↦ inl (to e)
        | inr e ↦ inr (member (ground arith))
      ],
      elim [ inl e ↦ ground (arith, of e) | inr m ↦ ground (arith, listed m) ],
    )

-- `sha256:` and lowercase hexadecimal digits, 71 bytes in all.
pub record IsDigest (value : Text) : Type 0 where
  pub size : byte_len value ≡ 71
  pub digits : Text
  pub prefixed : value ≡ codes "sha256:" ++ digits
  pub hex : all is_lower_hex digits ≡ true

prefixed-valid :
    (digits : Text)
    → byte_len (codes "sha256:" ++ digits) ≡ 71
    → all is_lower_hex digits ≡ true
    → valid_content_hash (codes "sha256:" ++ digits) ≡ true
unfolding valid_content_hash has_prefix skip
prefixed-valid digits size hex = ground arith

digest_iff : (value : Text) → (valid_content_hash value ≡ true) ↔ IsDigest value
unfolding valid_content_hash
digest_iff value =
    let (split, join) = has_prefix_iff (codes "sha256:") value in
    (
      λ h. record {
        size = ground arith;
        digits = skip (codes "sha256:") value;
        prefixed = split (ground arith);
        hex = ground arith;
      },
      λ d.
          subst (λ t. valid_content_hash t ≡ true) (sym d.prefixed)
            (prefixed-valid d.digits (subst (λ t. byte_len t ≡ 71) d.prefixed d.size) d.hex),
    )

pub record IsReason (value : Text) : Type 0 where
  pub not_blank : is_blank value ≡ false
  pub size : byte_len value ≤ 1000
  pub no_null : ¬ In 0 value

IsReason-iff : (value : Text) → (invalid_reason value ≡ false) ↔ IsReason value
unfolding invalid_reason
IsReason-iff value =
    let (absent, fresh) = contains-false_iff 0 value in
    (
      λ h. record {
        not_blank = ground arith;
        size = ground arith;
        no_null = absent (ground arith);
      },
      λ r. ground (arith, r, fresh r.no_null),
    )

-- A source that was left out says why, and one that was used does not.
abbrev pub Explains : Bool → Option Text → Type 0
Explains included none = included ≡ true
Explains included (some reason) = (included ≡ false) × IsReason reason

pub record IsReceipt (value : ContextReceipt) : Type 0 where
  pub reference : IsNamed 2048 value.reference
  pub scope : IsNamed 100 value.scope
  pub content_hash : IsDigest value.content_hash
  pub explained : Explains value.included value.exclusion_reason

abbrev reason_tests : Bool → Option Text → Bool
reason_tests included reason =
    is_some_and reason invalid_reason
    || (not included && not (is_some reason))
    || (included && is_some reason)

Explains-iff :
    (included : Bool) (o : Option Text) → (reason_tests included o ≡ false) ↔ Explains included o
Explains-iff included none = (λ h. ground arith, λ h. ground arith)
Explains-iff included (some reason) =
    let (good, of_good) = IsReason-iff reason in
    (λ h. (ground arith, good (ground arith)), λ h. ground (arith, of_good h.1))

IsReceipt-iff : (value : ContextReceipt) → (invalid_receipt value ≡ false) ↔ IsReceipt value
unfolding invalid_receipt
IsReceipt-iff value =
    let (digest, of_digest) = digest_iff value.content_hash in
    let (explained, of_explained) = Explains-iff value.included value.exclusion_reason in
    (
      λ h. record {
        reference = record { not_blank = ground arith; size = ground arith };
        scope = record { not_blank = ground arith; size = ground arith };
        content_hash = digest (ground arith);
        explained = explained (ground arith);
      },
      λ r. ground (arith, r.reference, r.scope, of_digest r.content_hash, of_explained r.explained),
    )

each-IsReceipt_iff :
    (seen : List (Text × Text)) (values : List ContextReceipt)
    → (validate_each_receipt seen values ≡ ok tt)
      ↔ (All IsReceipt values × Distinct (map key_of values) × Apart seen (map key_of values))
unfolding validate_each_receipt
each-IsReceipt_iff seen [] = (λ h. (tt, tt, tt), λ h. refl)
each-IsReceipt_iff seen (v ∷ vs) =
    let key = key_of v in
    let (to, of) = each-IsReceipt_iff (key ∷ seen) vs in
    let (good, of_good) = IsReceipt-iff v in
    let (absent, fresh) = false_iff (has_pair seen key) (has_pair_iff seen key) in
    (
      λ h.
          let (each, distinct, apart) = to (ground arith) in
          let (free, n) = Apart-tail key seen (map key_of vs) apart in
          ((good (ground arith), each), (n, distinct), (absent (ground arith), free)),
      λ h.
          let rest = of (h.0.1, h.1.1, Apart-cons key seen (map key_of vs) h.2.1 h.1.0) in
          ground (arith, of_good h.0.0, fresh h.2.0),
    )

pub record AreReceipts (values : List ContextReceipt) : Type 0 where
  pub size : length values ≤ 10000
  pub each : All IsReceipt values
  pub distinct : Distinct (map key_of values)

-- The context receipts are accepted exactly when there are at most 10000, each names its reference
-- and its scope within their limits and carries a SHA-256 digest, a reason is given exactly for the
-- sources that were left out, and no two receipts have the same reference and scope.
pub validate_context_receipts_iff :
    (values : List ContextReceipt) → (validate_context_receipts values ≡ ok tt) ↔ AreReceipts values
unfolding validate_context_receipts
validate_context_receipts_iff values =
    let (to, of) = each-IsReceipt_iff [] values in
    (
      λ h.
          let (each, distinct, apart) = to (ground arith) in
          record { size = ground arith; each = each; distinct = distinct },
      λ a. ground (arith, a.size, of (a.each, a.distinct, Apart-nil (map key_of values))),
    )

pub record IsEntry (value : AiProvenanceEntry) : Type 0 where
  pub kind : IsNamed 100 value.kind
  pub reference : IsNamed 2048 value.reference
  pub content_hash : IfSome IsDigest value.content_hash

not_digest_iff : (value : Text) → (not (valid_content_hash value) ≡ false) ↔ IsDigest value
not_digest_iff value =
    let (to, of) = digest_iff value in (λ h. to (ground arith), λ d. ground (arith, of d))

IsEntry-iff : (value : AiProvenanceEntry) → (invalid_entry value ≡ false) ↔ IsEntry value
unfolding invalid_entry
IsEntry-iff value =
    let (digest, of_digest) =
      absent_or_iff (λ d. not (valid_content_hash d)) IsDigest not_digest_iff value.content_hash in
    (
      λ h. record {
        kind = record { not_blank = ground arith; size = ground arith };
        reference = record { not_blank = ground arith; size = ground arith };
        content_hash = digest (ground arith);
      },
      λ e. ground (arith, e.kind, e.reference, of_digest e.content_hash),
    )

each-IsEntry_iff :
    (values : List AiProvenanceEntry) → (validate_each_entry values ≡ ok tt) ↔ All IsEntry values
unfolding validate_each_entry
each-IsEntry_iff [] = (λ h. tt, λ h. refl)
each-IsEntry_iff (v ∷ vs) =
    let (to, of) = each-IsEntry_iff vs in
    let (good, of_good) = IsEntry-iff v in
    (λ h. (good (ground arith), to (ground arith)), λ h. ground (arith, of_good h.0, of h.1))

pub validate_provenance_iff :
    (values : List AiProvenanceEntry)
    → (validate_provenance values ≡ ok tt) ↔ ((length values ≤ 10000) × All IsEntry values)
unfolding validate_provenance
validate_provenance_iff values =
    let (to, of) = each-IsEntry_iff values in
    (λ h. (ground arith, to (ground arith)), λ h. ground (arith, h.0, of h.1))
