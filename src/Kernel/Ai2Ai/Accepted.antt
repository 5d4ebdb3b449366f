-- ===== src/Kernel/Ai2Ai/Accepted.antt =====
-- Which envelopes crates/kernel/src/ai2ai.rs accepts.
use open_soverign_blog.Prelude.{
  ℕ, ◌+◌, ◌≤◌, ◌≡◌, ◌≢◌, refl, ◌↔◌, false, All, arith, length, ok, err, IfSome, absent_or_iff,
  Result, ◌||◌, not, ltb, ◌==◌, then_iff, reject_iff,
}
use open_soverign_blog.Text.{Text, text_eq, text_eq_iff, is_blank}
use open_soverign_blog.Kernel.Content.{Library, ContentValidationError}
use open_soverign_blog.Kernel.Content.Validation.{too_long_or_null}
use open_soverign_blog.Kernel.Content.Validation.Optional.{IsBounded, IsBounded-iff}
use open_soverign_blog.Kernel.Content.Document.{validate_proposed}
use open_soverign_blog.Kernel.Ai2Ai.{
  Ai2AiEnvelope, ai2ai_spec_version, clock_skew, invalid_identity, as_proposal_check,
  validate_envelope,
}
use open_soverign_blog.Kernel.Ai2Ai.Policy.{IsPolicy, validate_policy_iff}
use open_soverign_blog.Kernel.Ai2Ai.Records.{
  AreReceipts, IsEntry, validate_context_receipts_iff, validate_provenance_iff,
}

-- Not blank, within a limit of bytes, and without a null character.
pub record IsLabelled (limit : ℕ) (value : Text) : Type 0 where
  pub not_blank : is_blank value ≡ false
  pub bounded : IsBounded limit value

pub record IsEnvelope (lib : Library) (now : ℕ) (e : Ai2AiEnvelope) : Type 0 where
  pub version : e.spec_version ≡ ai2ai_spec_version
  pub message : e.message_id ≢ 0
  pub document : e.proposal.document_id ≢ 0
  pub base : e.proposal.base_revision_id ≢ 0
  pub key : IsLabelled 200 e.idempotency_key
  pub actor : IsLabelled 300 e.actor.id
  pub intent : IsLabelled 2000 e.intent
  pub provider : IfSome (IsBounded 300) e.actor.provider
  pub model : IfSome (IsBounded 300) e.actor.model
  pub time : e.occurred_at ≤ now + clock_skew
  pub policy : IsPolicy e.policy e.actor.provider
  pub receipts : AreReceipts e.context_receipts
  pub entry_count : length e.provenance ≤ 10000
  pub entries : All IsEntry e.provenance
  pub proposal : validate_proposed lib e.proposal ≡ ok tt

labelled_iff : (n : ℕ) (v : Text) → ((is_blank v || too_long_or_null n v) ≡ false) ↔ IsLabelled n v
labelled_iff n v =
    let (to, of) = IsBounded-iff n v in
    (
      λ h. record { not_blank = ground arith; bounded = to (ground arith) },
      λ l. ground (arith, l.not_blank, of l.bounded),
    )

proposal_iff :
    (r : Result (Unit {0}) ContentValidationError) → (as_proposal_check r ≡ ok tt) ↔ (r ≡ ok tt)
proposal_iff (ok u) = (λ h. refl, λ h. refl)
proposal_iff (err e) = (λ h. cc, λ h. cc)

module _ (lib : Library) (now : ℕ) (e : Ai2AiEnvelope) where
  record HasIdentity : Type 0 where
    actor : IsLabelled 300 e.actor.id
    intent : IsLabelled 2000 e.intent
    provider : IfSome (IsBounded 300) e.actor.provider
    model : IfSome (IsBounded 300) e.actor.model

  identity_iff : (invalid_identity e ≡ false) ↔ HasIdentity
  unfolding invalid_identity
  identity_iff =
      let (actor, of_actor) = labelled_iff 300 e.actor.id in
      let (intent, of_intent) = labelled_iff 2000 e.intent in
      let (provider, of_provider) =
        absent_or_iff (too_long_or_null 300) (IsBounded 300) (IsBounded-iff 300) e.actor.provider in
      let (model, of_model) =
        absent_or_iff (too_long_or_null 300) (IsBounded 300) (IsBounded-iff 300) e.actor.model in
      (
        λ h. record {
          actor = actor (ground arith);
          intent = intent (ground arith);
          provider = provider (ground arith);
          model = model (ground arith);
        },
        λ i.
            ground (
              arith,
              of_actor i.actor,
              of_intent i.intent,
              of_provider i.provider,
              of_model i.model,
            ),
      )

  version_iff :
      (not (text_eq e.spec_version ai2ai_spec_version) ≡ false)
      ↔ (e.spec_version ≡ ai2ai_spec_version)
  version_iff =
      let (to, of) = text_eq_iff e.spec_version ai2ai_spec_version in
      (λ h. to (ground arith), λ p. ground (arith, of p))

  time_iff : (ltb (now + clock_skew) e.occurred_at ≡ false) ↔ (e.occurred_at ≤ now + clock_skew)
  time_iff = (λ h. ground arith, λ h. ground arith)

  nil_iff :
      ((e.message_id == 0 || e.proposal.document_id == 0 || e.proposal.base_revision_id == 0)
        ≡ false)
      ↔ ((e.message_id ≢ 0) × (e.proposal.document_id ≢ 0) × (e.proposal.base_revision_id ≢ 0))
  nil_iff = (λ h. ground arith, λ h. ground arith)

  checks_iff : (validate_envelope lib now e ≡ ok tt) ↔ (
      (e.spec_version ≡ ai2ai_spec_version)
      × (((e.message_id ≢ 0) × (e.proposal.document_id ≢ 0) × (e.proposal.base_revision_id ≢ 0))
          × (IsLabelled 200 e.idempotency_key
              × (HasIdentity
                  × ((e.occurred_at ≤ now + clock_skew)
                      × (IsPolicy e.policy e.actor.provider
                          × (AreReceipts e.context_receipts
                              × (((length e.provenance ≤ 10000) × All IsEntry e.provenance)
                                  × (validate_proposed lib e.proposal ≡ ok tt)))))))))
  unfolding validate_envelope
  checks_iff = then_iff _ _ (reject_iff _ _ version_iff) (
      then_iff _ _ (reject_iff _ _ nil_iff) (
        then_iff _ _ (reject_iff _ _ (labelled_iff 200 e.idempotency_key)) (
          then_iff _ _ (reject_iff _ _ identity_iff) (
            then_iff _ _ (reject_iff _ _ time_iff) (
              then_iff _ _ (validate_policy_iff e.policy e.actor.provider) (
                then_iff _ _ (validate_context_receipts_iff e.context_receipts) (
                  then_iff _ _ (validate_provenance_iff e.provenance)
                    (proposal_iff (validate_proposed lib e.proposal)))))))))

  -- An envelope is accepted at a time exactly when it has the supported version, no nil identifier,
  -- a bounded idempotency key, a bounded identity of its actor and a bounded intent, a time at most
  -- five minutes ahead, a policy that is accepted for the actor's provider, accepted context
  -- receipts and provenance, and a proposal that the content rules accept.
  pub validate_envelope_iff : (validate_envelope lib now e ≡ ok tt) ↔ IsEnvelope lib now e
  validate_envelope_iff = (
    λ h.
        let (version, (ids, (key, (identity, (time, (policy, (receipts, (entries, proposal)))))))) =
          checks_iff.0 h in
        record {
          version = version;
          message = ids.0;
          document = ids.1;
          base = ids.2;
          key = key;
          actor = identity.actor;
          intent = identity.intent;
          provider = identity.provider;
          model = identity.model;
          time = time;
          policy = policy;
          receipts = receipts;
          entry_count = entries.0;
          entries = entries.1;
          proposal = proposal;
        },
    λ a. checks_iff.1 (
      a.version,
      (
        (a.message, a.document, a.base),
        (
          a.key,
          (
            record { actor = a.actor; intent = a.intent; provider = a.provider; model = a.model },
            (a.time, (a.policy, (a.receipts, ((a.entry_count, a.entries), a.proposal)))),
          ),
        ),
      ),
    ),
  )
