-- ===== src/Kernel/Ai2Ai.antt =====
-- crates/kernel/src/ai2ai.rs: the envelope in which an agent proposes a revision.
pub mod Policy
pub mod Records
pub mod Accepted
use open_soverign_blog.Prelude.{
  ℕ, ◌+◌, ◌*◌, ◌/◌, ◌%◌, ◌^◌, Bool, true, false, ◌&&◌, ◌||◌, not, Option, none, some, List, [], ◌∷◌,
  ltb, leb, ◌==◌, if◌then◌else◌, length, is_empty, all, is_some, is_some_and, Result, ok, err, ◌>>◌,
  ◌>>=◌, reject_if,
}
use open_soverign_blog.Text.{
  Text, codes, text_eq, has_text, byte_len, contains, is_blank, has_prefix, skip, is_lower_hex,
}
use open_soverign_blog.Kernel.Policy.{Uuid}
use open_soverign_blog.Kernel.Content.{ProposedRevision, Library, ContentValidationError}
use open_soverign_blog.Kernel.Content.Validation.{too_long_or_null}
use open_soverign_blog.Kernel.Content.Document.{validate_proposed}

abbrev pub ai2ai_spec_version : Text
ai2ai_spec_version = codes "1.0"

pub data AiActorKind : Type 0 where
  human agent tool service : AiActorKind

pub record AiActor : Type 0 where
  pub kind : AiActorKind
  pub id : Text
  pub provider : Option Text
  pub model : Option Text

pub data DataBoundary : Type 0 where
  local_only approved_providers redact_before_send external_allowed : DataBoundary

-- An `f64` is the number of its 64 bits.
abbrev pub F64 : Type 0
F64 = ℕ

abbrev pub exponent : F64 → ℕ
exponent x = x / 2 ^ 52 % 2048

abbrev pub mantissa : F64 → ℕ
mantissa x = x % 2 ^ 52

unfoldable pub is_finite : F64 → Bool
is_finite x = not (exponent x == 2047)

unfoldable pub is_nan : F64 → Bool
is_nan x = exponent x == 2047 && not (mantissa x == 0)

-- `x < 0.0`: the sign is set, and `x` is neither a zero nor a NaN.
unfoldable pub lt_zero : F64 → Bool
unfolding is_nan
lt_zero x = leb (2 ^ 63) x && not (exponent x == 0 && mantissa x == 0) && not (is_nan x)

pub record AiPolicySnapshot : Type 0 where
  pub data_boundary : DataBoundary
  pub allowed_provider_ids : List Text
  pub allowed_capabilities : List Text
  pub max_cost : Option F64
  pub max_tokens : Option ℕ

pub record ContextReceipt : Type 0 where
  pub reference : Text
  pub content_hash : Text
  pub scope : Text
  pub included : Bool
  pub exclusion_reason : Option Text

pub record AiProvenanceEntry : Type 0 where
  pub kind : Text
  pub reference : Text
  pub content_hash : Option Text

pub record Ai2AiEnvelope : Type 0 where
  pub spec_version : Text
  pub message_id : Uuid
  pub idempotency_key : Text
  pub occurred_at : ℕ
  pub actor : AiActor
  pub intent : Text
  pub proposal : ProposedRevision
  pub policy : AiPolicySnapshot
  pub context_receipts : List ContextReceipt
  pub provenance : List AiProvenanceEntry

pub record AiProposalAuditRecord : Type 0 where
  pub schema_version : Text
  pub document_id : Uuid
  pub accepted_revision_id : Uuid
  pub received_at : ℕ
  pub envelope : Ai2AiEnvelope

pub data Ai2AiValidationError : Type 0 where
  unsupported_version invalid_idempotency_key missing_identity_or_intent : Ai2AiValidationError
  invalid_proposal invalid_identifier invalid_timestamp invalid_policy : Ai2AiValidationError
  invalid_context_receipt invalid_provenance : Ai2AiValidationError

abbrev pub Check : Type 0
Check = Result (Unit {0}) Ai2AiValidationError

unfoldable pub valid_content_hash : Text → Bool
valid_content_hash value =
    byte_len value == 71
    && has_prefix (codes "sha256:") value
    && all is_lower_hex (skip (codes "sha256:") value)

-- The closure of `all` in `unique_bounded_values` over the texts seen so far: a text is inserted
-- only if it passes the tests before it.
unfoldable pub unique_bounded_from : List Text → List Text → ℕ → Bool
unique_bounded_from seen [] maximum = true
unique_bounded_from seen (value ∷ values) maximum =
    let rest = unique_bounded_from (value ∷ seen) values maximum in
    not (is_blank value)
    && leb (byte_len value) maximum
    && not (contains 0 value)
    && not (has_text seen value)
    && rest

unfoldable pub unique_bounded_values : List Text → ℕ → Bool
unfolding unique_bounded_from
unique_bounded_values values maximum = unique_bounded_from [] values maximum

unfoldable pub invalid_cost : F64 → Bool
unfolding is_finite lt_zero
invalid_cost value = not (is_finite value) || lt_zero value

-- the `ok_or` and the search among the allowed providers
unfoldable pub check_provider : List Text → Option Text → Check
check_provider allowed none = err invalid_policy
check_provider allowed (some provider) =
    if has_text allowed provider then ok tt else err invalid_policy

unfoldable pub check_boundary : DataBoundary → List Text → Option Text → Check
unfolding check_provider
check_boundary local_only allowed actor_provider = reject_if (not (is_empty allowed)) invalid_policy
check_boundary approved_providers allowed actor_provider = check_provider allowed actor_provider
check_boundary redact_before_send allowed actor_provider = ok tt
check_boundary external_allowed allowed actor_provider = ok tt

unfoldable pub validate_policy : AiPolicySnapshot → Option Text → Check
validate_policy policy actor_provider = do
  reject_if
      (ltb 128 (length policy.allowed_provider_ids)
        || ltb 128 (length policy.allowed_capabilities)
        || not (unique_bounded_values policy.allowed_provider_ids 300)
        || not (unique_bounded_values policy.allowed_capabilities 300)
        || is_some_and policy.max_cost invalid_cost)
      invalid_policy
  check_boundary policy.data_boundary policy.allowed_provider_ids actor_provider

abbrev pub pair_eq : Text × Text → Text × Text → Bool
pair_eq (r, s) (r', s') = text_eq r r' && text_eq s s'

unfoldable pub has_pair : List (Text × Text) → Text × Text → Bool
has_pair [] p = false
has_pair (q ∷ qs) p = pair_eq q p || has_pair qs p

unfoldable pub invalid_reason : Text → Bool
invalid_reason reason = is_blank reason || ltb 1000 (byte_len reason) || contains 0 reason

abbrev pub key_of : ContextReceipt → Text × Text
key_of value = (value.reference, value.scope)

-- The tests of one receipt, all but that its reference and scope are new.
unfoldable pub invalid_receipt : ContextReceipt → Bool
invalid_receipt value =
    is_blank value.reference
    || ltb 2048 (byte_len value.reference)
    || is_blank value.scope
    || ltb 100 (byte_len value.scope)
    || not (valid_content_hash value.content_hash)
    || is_some_and value.exclusion_reason invalid_reason
    || (not value.included && not (is_some value.exclusion_reason))
    || (value.included && is_some value.exclusion_reason)

unfoldable pub validate_each_receipt : List (Text × Text) → List ContextReceipt → Check
validate_each_receipt references [] = ok tt
validate_each_receipt references (value ∷ values) =
    let rest = validate_each_receipt (key_of value ∷ references) values in
    if invalid_receipt value || has_pair references (key_of value)
    then err invalid_context_receipt
    else rest

unfoldable pub validate_context_receipts : List ContextReceipt → Check
unfolding validate_each_receipt
validate_context_receipts values = do
  reject_if (ltb 10000 (length values)) invalid_context_receipt
  validate_each_receipt [] values

unfoldable pub invalid_entry : AiProvenanceEntry → Bool
invalid_entry value =
    is_blank value.kind
    || ltb 100 (byte_len value.kind)
    || is_blank value.reference
    || ltb 2048 (byte_len value.reference)
    || is_some_and value.content_hash (λ digest. not (valid_content_hash digest))

unfoldable pub validate_each_entry : List AiProvenanceEntry → Check
validate_each_entry [] = ok tt
validate_each_entry (value ∷ values) =
    let rest = validate_each_entry values in
    if invalid_entry value then err invalid_provenance else rest

unfoldable pub validate_provenance : List AiProvenanceEntry → Check
unfolding validate_each_entry
validate_provenance values = do
  reject_if (ltb 10000 (length values)) invalid_provenance
  validate_each_entry values

-- `map_err(|_| InvalidProposal)`
abbrev pub as_proposal_check : Result (Unit {0}) ContentValidationError → Check
as_proposal_check (ok u) = ok u
as_proposal_check (err e) = err invalid_proposal

unfoldable pub invalid_identity : Ai2AiEnvelope → Bool
invalid_identity e =
    is_blank e.actor.id
    || too_long_or_null 300 e.actor.id
    || is_blank e.intent
    || too_long_or_null 2000 e.intent
    || is_some_and e.actor.provider (too_long_or_null 300)
    || is_some_and e.actor.model (too_long_or_null 300)

-- five minutes, in nanoseconds
abbrev pub clock_skew : ℕ
clock_skew = 5 * 60 * 1000000000

-- `Ai2AiEnvelope::validate`, at the time `now`
unfoldable pub validate_envelope : Library → ℕ → Ai2AiEnvelope → Check
validate_envelope lib now e = do
  reject_if (not (text_eq e.spec_version ai2ai_spec_version)) unsupported_version
  reject_if (e.message_id == 0 || e.proposal.document_id == 0 || e.proposal.base_revision_id == 0)
      invalid_identifier
  reject_if (is_blank e.idempotency_key || too_long_or_null 200 e.idempotency_key)
      invalid_idempotency_key
  reject_if (invalid_identity e) missing_identity_or_intent
  reject_if (ltb (now + clock_skew) e.occurred_at) invalid_timestamp
  validate_policy e.policy e.actor.provider
  validate_context_receipts e.context_receipts
  validate_provenance e.provenance
  as_proposal_check (validate_proposed lib e.proposal)
