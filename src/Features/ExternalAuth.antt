-- ===== src/Features/ExternalAuth.antt =====
-- features/external-auth/src/lib.rs: an identity that an adapter has verified becomes a principal.
pub mod Mapping
use open_soverign_blog.Prelude.{
  ℕ, Bool, true, false, ◌||◌, not, Option, none, some, List, [], ◌∷◌, ◌++◌, map, ltb, ◌==◌,
  if◌then◌else◌, filter, Result, ok, err, ◌>>=◌, ◌>>◌, reject_if,
}
use open_soverign_blog.Text.{Text, codes, text_eq, has_text, byte_len, trim, is_blank, split}
use open_soverign_blog.Kernel.Policy.{Principal}

-- The claims, a `BTreeMap`, are an association list.
pub record VerifiedExternalIdentity : Type 0 where
  pub issuer : Text
  pub subject : Text
  pub claims : List (Text × Text)

pub record IdentityMappingPolicy : Type 0 where
  pub allowed_issuers : List Text
  pub role_claim : Option Text
  pub role_allowlist : List Text

pub data ExternalAuthError : Type 0 where
  untrusted_issuer invalid_subject : ExternalAuthError

-- `claims.get(claim)`
unfoldable pub get : Text → List (Text × Text) → Option Text
get key [] = none
get key ((k, v) ∷ rest) = if text_eq k key then some v else get key rest

-- `role_claim.as_ref().and_then(|claim| claims.get(claim))`
unfoldable pub claimed : Option Text → List (Text × Text) → Option Text
unfolding get
claimed none claims = none
claimed (some claim) claims = get claim claims

-- The chain of iterators over the value of the role claim, if there is one.
unfoldable pub roles_of : List Text → Option Text → List Text
roles_of allowlist none = []
roles_of allowlist (some value) =
    filter (λ role. has_text allowlist role) (map trim (split b',' value))

-- `format!("{}#{}", issuer, subject)`
unfoldable pub principal_id : Text → Text → Text
principal_id issuer subject = issuer ++ (b'#' ∷ subject)

-- `IdentityMappingPolicy::map_verified`
unfoldable pub map_verified :
    IdentityMappingPolicy → VerifiedExternalIdentity → Result Principal ExternalAuthError
map_verified policy identity = do
  reject_if (not (has_text policy.allowed_issuers identity.issuer)) untrusted_issuer
  reject_if (is_blank identity.subject || ltb 500 (byte_len identity.subject)) invalid_subject
  ok (record {
    id = principal_id identity.issuer identity.subject;
    roles = roles_of policy.role_allowlist (claimed policy.role_claim identity.claims);
    capabilities = [];
  })
