-- ===== src/Features/Tests.antt =====
-- Runs of features/*, and the theorems about them at concrete inputs.
use open_soverign_blog.Prelude.{◌≡◌, ◌↔◌, ◌⊎◌, refl, none, some, [], ◌∷◌, arith, ok, err, inl, true}
use open_soverign_blog.Text.{codes, trim, text_eq, byte_len, has_text, split}
use open_soverign_blog.Kernel.Policy.{
  Principal, ResourceScope, read_published, revise, single_owner_authorize, action_eq,
}
use open_soverign_blog.Kernel.Policy.Laws.{Owns}
use open_soverign_blog.Features.Rbac.{RoleGrant, RbacPolicy, rbac_authorize, grant_matches}
use open_soverign_blog.Features.Rbac
use open_soverign_blog.Features.Rbac.Laws.{IsGranted, rbac-allowed_iff}
use open_soverign_blog.Features.Comments.{
  Comment, CommentSubmission, pending, rejected, deleted, validate, moderate, invalid_body,
  render_if_approved, transition_allowed,
}
use open_soverign_blog.Features.Comments.Moderation.{Later, here, next, hidden_forever}
use open_soverign_blog.Features.ExternalAuth.{
  VerifiedExternalIdentity, IdentityMappingPolicy, claimed, map_verified, untrusted_issuer,
  roles_of, principal_id,
}
use open_soverign_blog.Features.ExternalAuth.Mapping.{map_verified-id_injective}

abbrev editor : Principal
editor = record { id = codes "editor-1"; roles = codes "editor" ∷ []; capabilities = [] }

abbrev site_editors : RbacPolicy
site_editors =
    Rbac.new (codes "owner")
      (record { role = codes "editor"; action = revise; site_id = some 7; document_id = none } ∷ [])

abbrev here_scope : ResourceScope
here_scope = record { site_id = 7; document_id = none }

abbrev other_scope : ResourceScope
other_scope = record { site_id = 8; document_id = none }

grant_in_its_site : (rbac_authorize site_editors (some editor) revise here_scope).allowed ≡ true
unfolding rbac_authorize single_owner_authorize grant_matches action_eq has_text text_eq
grant_in_its_site = refl

rbac-allowed_iff_example :
    ((rbac_authorize site_editors (some editor) revise here_scope).allowed ≡ true) ↔ (
      (revise ≡ read_published)
      ⊎ Owns site_editors.fallback (some editor)
      ⊎ IsGranted site_editors (some editor) revise here_scope)
rbac-allowed_iff_example = rbac-allowed_iff site_editors (some editor) revise here_scope

abbrev owner : Principal
owner = record { id = codes "owner"; roles = []; capabilities = [] }

abbrev submission : CommentSubmission
submission = record {
  site_id = 1;
  document_id = 2;
  author_reference = codes "external:user-1";
  source_markdown = codes " hello ";
}

empty_body : validate (record submission { source_markdown = codes " \t " }) ≡ err invalid_body
unfolding validate trim byte_len
empty_body = refl

abbrev comment : Comment
comment = record {
  id = 9;
  site_id = 1;
  document_id = 2;
  author_reference = codes "external:user-1";
  source_markdown = codes " hello ";
  status = pending;
  created_at = 100;
  updated_at = 100;
}

abbrev spammed : Comment
spammed = record comment { status = rejected; updated_at = 101 }

abbrev removed : Comment
removed = record comment { status = deleted; updated_at = 102 }

Later-removed : Later spammed removed
unfolding moderate transition_allowed
Later-removed = next 102 deleted here refl

hidden_forever_example : render_if_approved (λ t. t) removed ≡ none
hidden_forever_example = hidden_forever (λ t. t) spammed removed (inl refl) Later-removed

abbrev mapping : IdentityMappingPolicy
mapping = record {
  allowed_issuers = codes "https://identity.example" ∷ [];
  role_claim = some (codes "roles");
  role_allowlist = codes "editor" ∷ [];
}

abbrev identity : VerifiedExternalIdentity
identity = record {
  issuer = codes "https://identity.example";
  subject = codes "user-1";
  claims = (codes "roles", codes "editor, root") ∷ [];
}

abbrev mapped : Principal
mapped = record {
  id = codes "https://identity.example#user-1";
  roles = codes "editor" ∷ [];
  capabilities = [];
}

identity_is_mapped : map_verified mapping identity ≡ ok mapped
unfolding map_verified has_text text_eq trim byte_len claimed roles_of principal_id split
identity_is_mapped = refl

untrusted : map_verified mapping (record identity { issuer = codes "x" }) ≡ err untrusted_issuer
unfolding map_verified has_text text_eq
untrusted = refl

map_verified-id_injective_example :
    (identity.issuer ≡ identity.issuer) × (identity.subject ≡ identity.subject)
map_verified-id_injective_example =
    map_verified-id_injective mapping identity identity mapped mapped (ground arith) (ground arith)
      identity_is_mapped identity_is_mapped refl
