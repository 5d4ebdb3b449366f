-- ===== src/Features/ExternalAuth/Mapping.antt =====
-- Which identities features/external-auth/src/lib.rs accepts, and what they are given.
use open_soverign_blog.Prelude.{
  ◌≤◌, ◌≡◌, refl, sym, ◌∙◌, subst, ◌↔◌, false, Option, none, some, List, [], map, arith, In,
  in-filter_iff, ok,
}
use open_soverign_blog.Text.{
  Text, has_text, has_text_iff, byte_len, trim, is_blank, separated-injective, split,
}
use open_soverign_blog.Kernel.Policy.{Principal}
use open_soverign_blog.Features.ExternalAuth.{
  VerifiedExternalIdentity, IdentityMappingPolicy, claimed, roles_of, principal_id, map_verified,
}

pub record IsTrusted (policy : IdentityMappingPolicy) (identity : VerifiedExternalIdentity)
    : Type 0 where
  pub issuer : In identity.issuer policy.allowed_issuers
  pub subject : is_blank identity.subject ≡ false
  pub subject_size : byte_len identity.subject ≤ 500

-- The principal that a trusted identity becomes.
abbrev pub principal_of : IdentityMappingPolicy → VerifiedExternalIdentity → Principal
principal_of policy identity = record {
  id = principal_id identity.issuer identity.subject;
  roles = roles_of policy.role_allowlist (claimed policy.role_claim identity.claims);
  capabilities = [];
}

-- An identity is mapped exactly when its issuer is allowed and its subject is not blank and has at
-- most 500 bytes, and then to the principal with no capabilities whose roles come from the role
-- claim.
pub map_verified-ok_iff :
    (policy : IdentityMappingPolicy) (identity : VerifiedExternalIdentity) (p : Principal)
    → (map_verified policy identity ≡ ok p)
      ↔ (IsTrusted policy identity × (p ≡ principal_of policy identity))
unfolding map_verified
map_verified-ok_iff policy identity p = (
  λ h. (
    record {
      issuer = (has_text_iff policy.allowed_issuers identity.issuer).0 (ground arith);
      subject = ground arith;
      subject_size = ground arith;
    },
    ground arith,
  ),
  λ h. ground (arith, (has_text_iff policy.allowed_issuers identity.issuer).1 h.0.issuer),
)

in_roles_of :
    (allowlist : List Text) (claim : Option Text) (role : Text)
    → In role (roles_of allowlist claim) ↔ (
        (value : Text) × (claim ≡ some value)
        × In role (map trim (split b',' value))
        × In role allowlist)
unfolding roles_of
in_roles_of allowlist none role = (λ m. elim m [ ], λ h. cc (h.1))
in_roles_of allowlist (some value) role =
    let (to, of) = in-filter_iff (λ r. has_text allowlist r) role (map trim (split b',' value)) in
    let (sound, complete) = has_text_iff allowlist role in
    (
      λ m. (value, refl, (to m).0, sound (to m).1),
      λ h.
          let (v, e, part, listed) = h in
          let same : v ≡ value = cc in
          of (subst (λ t. In role (map trim (split b',' t))) same part, complete listed),
    )

-- A mapped principal has a role exactly when the policy names a role claim, the identity makes that
-- claim, the role is one of the trimmed comma-separated parts of its value, and the role stands in
-- the allowlist.
pub map_verified-roles_iff :
    (policy : IdentityMappingPolicy) (identity : VerifiedExternalIdentity) (p : Principal)
    (role : Text)
    → map_verified policy identity ≡ ok p
    → In role p.roles ↔ (
        (value : Text) × (claimed policy.role_claim identity.claims ≡ some value)
        × In role (map trim (split b',' value))
        × In role policy.role_allowlist)
map_verified-roles_iff policy identity p role h =
    let e : p ≡ principal_of policy identity = ((map_verified-ok_iff policy identity p).0 h).1 in
    rw e (in_roles_of policy.role_allowlist (claimed policy.role_claim identity.claims) role)

-- Two identities of issuers without a hash character that are mapped to the same principal
-- identifier have the same issuer and the same subject.
pub map_verified-id_injective :
    (policy : IdentityMappingPolicy) (a b : VerifiedExternalIdentity) (p q : Principal)
    → ¬ In b'#' a.issuer
    → ¬ In b'#' b.issuer
    → map_verified policy a ≡ ok p
    → map_verified policy b ≡ ok q
    → p.id ≡ q.id
    → (a.issuer ≡ b.issuer) × (a.subject ≡ b.subject)
unfolding principal_id
map_verified-id_injective policy a b p q h k e f same =
    separated-injective b'#' a.issuer b.issuer a.subject b.subject h k
      (sym (id_of a p e) ∙ same ∙ id_of b q f)
  where
    id_of :
        (i : VerifiedExternalIdentity) (r : Principal)
        → map_verified policy i ≡ ok r
        → r.id ≡ principal_id i.issuer i.subject
    id_of i r m = ground (arith, ((map_verified-ok_iff policy i r).0 m).1)
