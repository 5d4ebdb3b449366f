-- ===== src/Kernel/Ai2Ai/Policy.antt =====
-- Which policy snapshots crates/kernel/src/ai2ai.rs accepts for a provider.
use open_soverign_blog.Prelude.{
  ◌^◌, subst, ◌≤◌, ◌<◌, ◌≡◌, ◌≢◌, refl, ◌↔◌, ◌⊎◌, true, false, Option, none, some, List, [], ◌∷◌,
  In, All, Distinct, arith, length, ok, false_iff, IfSome, absent_or_iff, subst,
}
use open_soverign_blog.Text.{
  Text, byte_len, is_blank, contains-false_iff, has_text, has_text_iff, Apart, Apart-cons,
  Apart-tail, Apart-nil,
}
use open_soverign_blog.Kernel.Ai2Ai.{
  AiPolicySnapshot, DataBoundary, local_only, approved_providers, redact_before_send,
  external_allowed, F64, exponent, mantissa, invalid_cost, unique_bounded_from,
  unique_bounded_values, check_provider, check_boundary, validate_policy,
}

pub record IsListed (value : Text) : Type 0 where
  pub not_blank : is_blank value ≡ false
  pub size : byte_len value ≤ 300
  pub no_null : ¬ In 0 value

unique_from_iff :
    (seen values : List Text)
    → (unique_bounded_from seen values 300 ≡ true)
      ↔ (All IsListed values × Distinct values × Apart seen values)
unfolding unique_bounded_from
unique_from_iff seen [] = (λ h. (tt, tt, tt), λ h. refl)
unique_from_iff seen (v ∷ vs) =
    let (to, of) = unique_from_iff (v ∷ seen) vs in
    let (absent, fresh) = false_iff (has_text seen v) (has_text_iff seen v) in
    let (no_null, null_free) = contains-false_iff 0 v in
    (
      λ h.
          let (each, distinct, apart) = to (ground arith) in
          let (free, n) = Apart-tail v seen vs apart in
          (
            (
              record {
                not_blank = ground arith;
                size = ground arith;
                no_null = no_null (ground arith);
              },
              each,
            ),
            (n, distinct),
            (absent (ground arith), free),
          ),
      λ h.
          let rest = of (h.0.1, h.1.1, Apart-cons v seen vs h.2.1 h.1.0) in
          let listed = h.0.0 in ground (arith, listed, null_free listed.no_null, fresh h.2.0),
    )

unique_iff :
    (values : List Text)
    → (unique_bounded_values values 300 ≡ true) ↔ (All IsListed values × Distinct values)
unfolding unique_bounded_values
unique_iff values =
    let (to, of) = unique_from_iff [] values in
    (
      λ h. let (each, distinct, apart) = to h in (each, distinct),
      λ h. of (h.0, h.1, Apart-nil values),
    )

-- A cost is a number that is neither infinite nor a NaN, and not below zero.
abbrev pub IsCost : F64 → Type 0
IsCost x = (exponent x ≢ 2047) × ((x < 2 ^ 63) ⊎ ((exponent x ≡ 0) × (mantissa x ≡ 0)))

IsCost-iff : (x : F64) → (invalid_cost x ≡ false) ↔ IsCost x
unfolding invalid_cost
IsCost-iff x = (λ h. (ground arith, ground arith), λ h. ground arith)

-- What the boundary asks of the providers that may see the data.
abbrev pub Respects : DataBoundary → List Text → Option Text → Type 0
Respects local_only allowed actor_provider = allowed ≡ []
Respects approved_providers allowed actor_provider =
    (p : Text) × (actor_provider ≡ some p) × In p allowed
Respects redact_before_send allowed actor_provider = Unit
Respects external_allowed allowed actor_provider = Unit

provider_iff :
    (allowed : List Text) (o : Option Text)
    → (check_provider allowed o ≡ ok tt) ↔ ((p : Text) × (o ≡ some p) × In p allowed)
unfolding check_provider
provider_iff allowed none = (λ h. cc, λ h. cc (h.1))
provider_iff allowed (some p) =
    let (sound, complete) = has_text_iff allowed p in
    (
      λ h. (p, refl, sound (ground arith)),
      λ h.
          let (q, e, m) = h in
          let same : q ≡ p = cc in ground (arith, complete (subst (λ t. In t allowed) same m)),
    )

boundary_iff :
    (b : DataBoundary) (allowed : List Text) (o : Option Text)
    → (check_boundary b allowed o ≡ ok tt) ↔ Respects b allowed o
unfolding check_boundary
boundary_iff local_only [] o = (λ h. refl, λ h. refl)
boundary_iff local_only (a ∷ as') o = (λ h. cc, λ h. cc)
boundary_iff approved_providers allowed o = provider_iff allowed o
boundary_iff redact_before_send allowed o = (λ h. tt, λ h. refl)
boundary_iff external_allowed allowed o = (λ h. tt, λ h. refl)

pub record IsPolicy (policy : AiPolicySnapshot) (actor_provider : Option Text) : Type 0 where
  pub provider_count : length policy.allowed_provider_ids ≤ 128
  pub providers : All IsListed policy.allowed_provider_ids
  pub distinct_providers : Distinct policy.allowed_provider_ids
  pub capability_count : length policy.allowed_capabilities ≤ 128
  pub capabilities : All IsListed policy.allowed_capabilities
  pub distinct_capabilities : Distinct policy.allowed_capabilities
  pub cost : IfSome IsCost policy.max_cost
  pub boundary : Respects policy.data_boundary policy.allowed_provider_ids actor_provider

-- A policy snapshot is accepted for a provider exactly when its providers and its capabilities are
-- at most 128 distinct texts within their limits, its maximal cost, if there is one, is a finite
-- number not below zero, and its data boundary is respected: a local boundary allows no provider,
-- and a boundary of approved providers allows the actor's, which has to be named.
pub validate_policy_iff :
    (policy : AiPolicySnapshot) (actor_provider : Option Text)
    → (validate_policy policy actor_provider ≡ ok tt) ↔ IsPolicy policy actor_provider
unfolding validate_policy
validate_policy_iff policy actor_provider =
    let (providers, of_providers) = unique_iff policy.allowed_provider_ids in
    let (capabilities, of_capabilities) = unique_iff policy.allowed_capabilities in
    let (cost, of_cost) = absent_or_iff invalid_cost IsCost IsCost-iff policy.max_cost in
    let (boundary, of_boundary) =
      boundary_iff policy.data_boundary policy.allowed_provider_ids actor_provider in
    (
      λ h. record {
        provider_count = ground arith;
        providers = (providers (ground arith)).0;
        distinct_providers = (providers (ground arith)).1;
        capability_count = ground arith;
        capabilities = (capabilities (ground arith)).0;
        distinct_capabilities = (capabilities (ground arith)).1;
        cost = cost (ground arith);
        boundary = boundary (ground arith);
      },
      λ v. ground (
        arith,
        v.provider_count,
        v.capability_count,
        of_providers (v.providers, v.distinct_providers),
        of_capabilities (v.capabilities, v.distinct_capabilities),
        of_cost v.cost,
        of_boundary v.boundary,
      ),
    )
