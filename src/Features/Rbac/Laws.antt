-- ===== src/Features/Rbac/Laws.antt =====
-- What features/rbac/src/lib.rs allows: the fallback's requests and those of a matching grant.
use open_soverign_blog.Prelude.{
  ◌≡◌, ◌≢◌, refl, ◌↔◌, ◌⊎◌, inl, inr, Bool, true, false, ◌&&◌, Option, none, some, List, [], ◌∷◌,
  arith, ◌==◌, any_iff, All, Any, In, Bool-cases, is_none_or, is_some_and, if◌then◌else◌,
}
use open_soverign_blog.Text.{has_text_iff}
use open_soverign_blog.Kernel.Policy.{
  Uuid, Principal, ContentAction, read_published, ResourceScope, AccessDecision, action_eq_iff,
  single_owner_authorize,
}
use open_soverign_blog.Kernel.Policy.Laws.{Owns, single_owner-allowed_iff}
use open_soverign_blog.Features.Rbac.{
  RoleGrant, RbacPolicy, grant_matches, authorize_by_grants, rbac_authorize,
}

-- A grant without a site is for every site.
abbrev pub CoversSite : RoleGrant → ResourceScope → Type 0
CoversSite grant resource = (grant.site_id ≡ none) ⊎ (grant.site_id ≡ some resource.site_id)

-- A grant for a document does not cover a resource without one.
abbrev pub CoversDocument : RoleGrant → ResourceScope → Type 0
CoversDocument grant resource =
    (grant.document_id ≡ none)
    ⊎ ((grant.document_id ≡ resource.document_id) × (resource.document_id ≢ none))

pub record Grants (principal : Principal) (action : ContentAction) (resource : ResourceScope)
    (grant : RoleGrant) : Type 0 where
  pub for_action : grant.action ≡ action
  pub has_role : In grant.role principal.roles
  pub site : CoversSite grant resource
  pub document : CoversDocument grant resource

covers_site_iff :
    (o : Option Uuid) (s : Uuid)
    → (is_none_or o (λ site_id. site_id == s) ≡ true) ↔ ((o ≡ none) ⊎ (o ≡ some s))
covers_site_iff none s = (λ h. inl refl, λ h. refl)
covers_site_iff (some t) s = (λ h. ground arith, λ h. ground arith)

covers_document_iff :
    (o r : Option Uuid)
    → (is_none_or o (λ document_id. is_some_and r (λ d. document_id == d)) ≡ true)
      ↔ ((o ≡ none) ⊎ ((o ≡ r) × (r ≢ none)))
covers_document_iff none r = (λ h. inl refl, λ h. refl)
covers_document_iff (some t) none = (λ h. cc, λ h. ground arith)
covers_document_iff (some t) (some s) = (λ h. ground arith, λ h. ground arith)

and_four_iff :
    (a b c d : Bool)
    → ((a && b && c && d) ≡ true) ↔ ((a ≡ true) × (b ≡ true) × (c ≡ true) × (d ≡ true))
and_four_iff a b c d = (λ h. ground arith, λ h. ground arith)

pub grant_matches_iff :
    (principal : Principal) (action : ContentAction) (resource : ResourceScope) (grant : RoleGrant)
    → (grant_matches principal action resource grant ≡ true)
      ↔ Grants principal action resource grant
unfolding grant_matches
grant_matches_iff principal action resource grant = (
  λ h.
      let (a, r, s, d) = (and_four_iff _ _ _ _).0 h in
      record {
        for_action = (action_eq_iff grant.action action).0 a;
        has_role = (has_text_iff principal.roles grant.role).0 r;
        site = (covers_site_iff grant.site_id resource.site_id).0 s;
        document = (covers_document_iff grant.document_id resource.document_id).0 d;
      },
  λ g. (and_four_iff _ _ _ _).1 (
    (action_eq_iff grant.action action).1 g.for_action,
    (has_text_iff principal.roles grant.role).1 g.has_role,
    (covers_site_iff grant.site_id resource.site_id).1 g.site,
    (covers_document_iff grant.document_id resource.document_id).1 g.document,
  ),
)

-- The principal is present and one of the grants is for its request.
abbrev pub IsGranted : RbacPolicy → Option Principal → ContentAction → ResourceScope → Type 0
IsGranted policy none action resource = ⊥
IsGranted policy (some principal) action resource =
    Any (Grants principal action resource) policy.grants

by_grants-allowed_iff :
    (policy : RbacPolicy) (principal : Option Principal) (action : ContentAction)
    (resource : ResourceScope) (fallback : AccessDecision)
    → fallback.allowed ≡ false
    → ((authorize_by_grants policy principal action resource fallback).allowed ≡ true)
      ↔ IsGranted policy principal action resource
unfolding authorize_by_grants
by_grants-allowed_iff policy none action resource fallback h = (λ e. cc, λ g. elim g [ ])
by_grants-allowed_iff policy (some principal) action resource fallback h =
    any_iff (grant_matches principal action resource) (Grants principal action resource)
      (grant_matches_iff principal action resource) policy.grants

first_allowed_iff :
    (a b : AccessDecision)
    → ((if a.allowed then a else b).allowed ≡ true)
      ↔ ((a.allowed ≡ true) ⊎ ((a.allowed ≡ false) × (b.allowed ≡ true)))
first_allowed_iff a b = (λ h. ground arith, λ h. ground arith)

-- The role policy allows a request exactly when the request reads published content, or comes from
-- the owner, or comes from a principal that holds the role of a grant for that very action whose
-- site and document restrictions cover the resource.
pub rbac-allowed_iff :
    (policy : RbacPolicy) (principal : Option Principal) (action : ContentAction)
    (resource : ResourceScope)
    → ((rbac_authorize policy principal action resource).allowed ≡ true) ↔ (
        (action ≡ read_published)
        ⊎ Owns policy.fallback principal
        ⊎ IsGranted policy principal action resource)
unfolding rbac_authorize
rbac-allowed_iff policy principal action resource =
    let fallback = single_owner_authorize policy.fallback principal action resource in
    let owner = single_owner-allowed_iff policy.fallback principal action resource in
    let grants = by_grants-allowed_iff policy principal action resource fallback in
    let (to, of) =
      first_allowed_iff fallback (authorize_by_grants policy principal action resource fallback) in
    (
      λ h. elim (to h) [
        | inl e ↦ elim (owner.0 e) [ inl r ↦ inl r | inr o ↦ inr (inl o) ]
        | inr (e, g) ↦ inr (inr ((grants e).0 g))
      ],
      elim [
        | inl r ↦ of (inl (owner.1 (inl r)))
        | inr (inl o) ↦ of (inl (owner.1 (inr o)))
        | inr (inr g) ↦ elim (Bool-cases fallback.allowed) [
          | inl e ↦ of (inl e)
          | inr e ↦ of (inr (e, (grants e).1 g))
        ]
      ],
    )

-- A grant for one site never lets a principal act on another site: if every grant names a site
-- other than the resource's, only published reads and the owner are allowed.
pub rbac_other_site :
    (policy : RbacPolicy) (principal : Option Principal) (action : ContentAction)
    (resource : ResourceScope)
    → All (λ grant. (s : Uuid) × (grant.site_id ≡ some s) × (s ≢ resource.site_id)) policy.grants
    → (rbac_authorize policy principal action resource).allowed ≡ true
    → (action ≡ read_published) ⊎ Owns policy.fallback principal
rbac_other_site policy principal action resource elsewhere h =
    elim ((rbac-allowed_iff policy principal action resource).0 h) [
      | inl r ↦ inl r
      | inr (inl o) ↦ inr o
      | inr (inr g) ↦ absurd (no_grant principal g)
    ]
  where
    none_covers :
        (p : Principal) (gs : List RoleGrant)
        → All (λ grant. (s : Uuid) × (grant.site_id ≡ some s) × (s ≢ resource.site_id)) gs
        → ¬ Any (Grants p action resource) gs
    none_covers p [] e g = g
    none_covers p (x ∷ xs) e (inl g) = let (there, named, other) = e.0 in ground arith
    none_covers p (x ∷ xs) e (inr g) = none_covers p xs e.1 g

    no_grant : (o : Option Principal) → ¬ IsGranted policy o action resource
    no_grant none g = g
    no_grant (some p) g = none_covers p policy.grants elsewhere g
