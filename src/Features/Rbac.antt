-- ===== src/Features/Rbac.antt =====
-- features/rbac/src/lib.rs: role grants in front of the single-owner fallback.
pub mod Laws
use open_soverign_blog.Prelude.{
  Bool, ◌&&◌, Option, none, some, List, ◌==◌, if◌then◌else◌, is_none_or, is_some_and, any,
}
use open_soverign_blog.Text.{Text, has_text}
use open_soverign_blog.Kernel.Policy.{
  Uuid, Principal, ContentAction, ResourceScope, AccessDecision, AccessPolicy, SingleOwnerPolicy,
  single_owner_authorize, action_eq,
}

pub record RoleGrant : Type 0 where
  pub role : Text
  pub action : ContentAction
  pub site_id : Option Uuid
  pub document_id : Option Uuid

pub record RbacPolicy : Type 0 where
  pub fallback : SingleOwnerPolicy
  pub grants : List RoleGrant

-- `RbacPolicy::new`
abbrev pub new : Text → List RoleGrant → RbacPolicy
new owner_id grants = record { fallback = record { owner_id = owner_id }; grants = grants }

-- The test of one grant, the closure of `any`.
unfoldable pub grant_matches : Principal → ContentAction → ResourceScope → RoleGrant → Bool
grant_matches principal action resource grant =
    action_eq grant.action action
    && has_text principal.roles grant.role
    && is_none_or grant.site_id (λ site_id. site_id == resource.site_id)
    && is_none_or grant.document_id
        (λ document_id. is_some_and resource.document_id (λ d. document_id == d))

-- `authorize` after the fallback has refused.
unfoldable pub authorize_by_grants :
    RbacPolicy → Option Principal → ContentAction → ResourceScope → AccessDecision → AccessDecision
authorize_by_grants policy none action resource fallback = fallback
authorize_by_grants policy (some principal) action resource fallback =
    let granted = any (grant_matches principal action resource) policy.grants in
    record {
      allowed = granted;
      reason =
          if granted
          then "role grant matched the exact resource scope"
          else "no role grant matched; deny by default";
    }

unfoldable pub rbac_authorize :
    RbacPolicy → Option Principal → ContentAction → ResourceScope → AccessDecision
unfolding authorize_by_grants
rbac_authorize policy principal action resource =
    let fallback = single_owner_authorize policy.fallback principal action resource in
    if fallback.allowed
    then fallback
    else authorize_by_grants policy principal action resource fallback

-- `impl AccessPolicy for RbacPolicy`
abbrev pub rbac : RbacPolicy → AccessPolicy
rbac policy = record { authorize = rbac_authorize policy }
