-- ===== src/Kernel/Policy/Laws.antt =====
-- What the fallback policy of crates/kernel/src/policy.rs allows.
use open_soverign_blog.Prelude.{◌≡◌, ◌↔◌, ◌⊎◌, inl, inr, true, Option, none, some, arith}
use open_soverign_blog.Text.{text_eq_iff}
use open_soverign_blog.Kernel.Policy.{
  Principal, ContentAction, read_published, ResourceScope, SingleOwnerPolicy,
  single_owner_authorize, action_eq_iff,
}

-- The principal is present and is the configured owner.
abbrev pub Owns : SingleOwnerPolicy → Option Principal → Type 0
Owns policy none = ⊥
Owns policy (some p) = p.id ≡ policy.owner_id

-- The fallback policy allows a request exactly when it reads published content or comes from the
-- configured owner, whatever the resource.
pub single_owner-allowed_iff :
    (policy : SingleOwnerPolicy) (principal : Option Principal) (action : ContentAction)
    (resource : ResourceScope)
    → ((single_owner_authorize policy principal action resource).allowed ≡ true)
      ↔ ((action ≡ read_published) ⊎ Owns policy principal)
unfolding single_owner_authorize
single_owner-allowed_iff policy none action resource =
    (λ h. ground arith, elim [ inl e ↦ ground arith | inr e ↦ elim e [ ] ])
single_owner-allowed_iff policy (some p) action resource = (
  λ h. ground (arith, text_eq_iff p.id policy.owner_id, action_eq_iff action read_published),
  elim [
    | inl e ↦ ground (arith, action_eq_iff action read_published)
    | inr e ↦ ground (arith, text_eq_iff p.id policy.owner_id)
  ],
)
