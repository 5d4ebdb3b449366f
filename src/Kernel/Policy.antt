-- ===== src/Kernel/Policy.antt =====
-- crates/kernel/src/policy.rs: who may do what. The theorems are in the module below.
pub mod Laws
use Prim.Native.String.{String}
use open_soverign_blog.Prelude.{
  ℕ, ◌≡◌, refl, ◌↔◌, Bool, true, false, Option, none, some, List, arith, if◌then◌else◌, is_some_and,
}
use open_soverign_blog.Text.{Text, text_eq}

-- A UUID is the number of its 128 bits.
abbrev pub Uuid : Type 0
Uuid = ℕ

pub record Principal : Type 0 where
  pub id : Text
  pub roles : List Text
  pub capabilities : List Text

pub data ContentAction : Type 0 where
  read_published read_draft create revise publish archive purge : ContentAction

-- the derived `PartialEq`
unfoldable pub action_eq : ContentAction → ContentAction → Bool
action_eq read_published read_published = true
action_eq read_draft read_draft = true
action_eq create create = true
action_eq revise revise = true
action_eq publish publish = true
action_eq archive archive = true
action_eq purge purge = true
action_eq _ _ = false

pub record ResourceScope : Type 0 where
  pub site_id : Uuid
  pub document_id : Option Uuid

pub record AccessDecision : Type 0 where
  pub allowed : Bool
  pub reason : String

-- The trait that both policies implement.
pub record AccessPolicy : Type 0 where
  pub authorize : Option Principal → ContentAction → ResourceScope → AccessDecision

pub record SingleOwnerPolicy : Type 0 where
  pub owner_id : Text

unfoldable pub single_owner_authorize :
    SingleOwnerPolicy → Option Principal → ContentAction → ResourceScope → AccessDecision
unfolding action_eq
single_owner_authorize policy principal action resource =
    if action_eq action read_published
    then record { allowed = true; reason = "published content is public" }
    else let allowed = is_some_and principal (λ value. text_eq value.id policy.owner_id) in
      record {
        allowed = allowed;
        reason = if allowed then "single owner policy" else "mutation denied by default";
      }

-- `impl AccessPolicy for SingleOwnerPolicy`
abbrev pub single_owner : SingleOwnerPolicy → AccessPolicy
single_owner policy = record { authorize = single_owner_authorize policy }

pub action_eq_iff : (a b : ContentAction) → (action_eq a b ≡ true) ↔ (a ≡ b)
unfolding action_eq
action_eq_iff a b = (λ h. ground arith, λ h. ground arith)
