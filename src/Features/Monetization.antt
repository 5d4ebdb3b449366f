-- ===== src/Features/Monetization.antt =====
-- features/monetization-policy/src/lib.rs: the gate in front of resources that need consent. Both maps
-- are association lists, and a set of purposes is the list of its members.
pub mod Gate
pub mod FirstPartyAd
mod Tests
use Prim.Native.String.{String}
use open_soverign_blog.Prelude.{
  Bool, true, false, ◌&&◌, ◌||◌, not, Option, none, some, List, [], ◌∷◌, if◌then◌else◌, is_empty,
  all, is_some, is_none_or, Result, ok, err, ◌>>=◌, ◌>>◌, reject_if,
}
use open_soverign_blog.Text.{Text, codes, is_blank, text_eq, map_get}
use open_soverign_blog.Kernel.Content.{Url}

pub data ConsentDecision : Type 0 where
  granted denied : ConsentDecision

pub data TerminalAccessBasis : Type 0 where
  consent transmission_exception requested_service_exception : TerminalAccessBasis

pub record ResourceDeclaration : Type 0 where
  pub id : Text
  pub url : Url
  pub kind : Text
  pub purpose_ids : List Text
  pub terminal_access_basis : TerminalAccessBasis
  pub operator_confirmed : Bool
  pub rationale : Option Text

pub record ConsentSnapshot : Type 0 where
  pub policy_version : Text
  pub decisions : List (Text × ConsentDecision)

pub record ResourceGate : Type 0 where
  pub declared : List (Text × ResourceDeclaration)

pub data GateError : Type 0 where
  invalid_declaration undeclared_resource consent_required unconfirmed_exception : GateError
  missing_disclosure : GateError
  invalid_static_ad restricted_static_delivery : String → GateError

-- The tests of one declaration, all but that its identifier is new.
unfoldable pub invalid_resource : ResourceDeclaration → Bool
invalid_resource resource =
    is_blank resource.id
    || is_blank resource.kind
    || not (text_eq resource.url.scheme (codes "https"))

-- The loop of `ResourceGate::new` over what is declared so far. `insert` returns the value that it
-- replaces.
unfoldable pub declare_each :
    List (Text × ResourceDeclaration) → List ResourceDeclaration → Result ResourceGate GateError
declare_each declared [] = ok (record { declared = declared })
declare_each declared (resource ∷ resources) =
    let rest = declare_each ((resource.id, resource) ∷ declared) resources in
    if invalid_resource resource || is_some (map_get resource.id declared)
    then err invalid_declaration
    else rest

-- `ResourceGate::new`
unfoldable pub gate_new : List ResourceDeclaration → Result ResourceGate GateError
unfolding declare_each
gate_new resources = declare_each [] resources

unfoldable pub ok_or : {A : Type 0} → Option A → GateError → Result A GateError
ok_or none e = err e
ok_or (some a) e = ok a

-- `== Some(&ConsentDecision::Granted)`
abbrev pub is_granted : Option ConsentDecision → Bool
is_granted (some granted) = true
is_granted _ = false

unfoldable pub all_granted : List Text → ConsentSnapshot → Bool
all_granted purposes snapshot =
    not (is_empty purposes)
    && all (λ purpose. is_granted (map_get purpose snapshot.decisions)) purposes

unfoldable pub unconfirmed : ResourceDeclaration → Bool
unconfirmed resource = not resource.operator_confirmed || is_none_or resource.rationale is_blank

-- The `match` on the basis of access.
unfoldable pub check_basis :
    TerminalAccessBasis → ResourceDeclaration → Option ConsentSnapshot → Result (Unit {0}) GateError
unfolding ok_or
check_basis consent resource given = do
  snapshot ← ok_or given consent_required
  reject_if (not (all_granted resource.purpose_ids snapshot)) consent_required
check_basis transmission_exception resource given =
    reject_if (unconfirmed resource) unconfirmed_exception
check_basis requested_service_exception resource given =
    reject_if (unconfirmed resource) unconfirmed_exception

-- `ResourceGate::authorize`
unfoldable pub gate_authorize :
    ResourceGate → Text → Option ConsentSnapshot → Result ResourceDeclaration GateError
unfolding ok_or check_basis
gate_authorize gate resource_id given = do
  resource ← ok_or (map_get resource_id gate.declared) undeclared_resource
  check_basis resource.terminal_access_basis resource given
  ok resource

pub record AdDisclosure : Type 0 where
  pub ad_id : Text
  pub slot_id : Text
  pub visible_label : Text
  pub on_behalf_of : Text
  pub paid_by : Option Text
  pub targeting_mode : Text
  pub main_targeting_parameters : List Text
  pub data_processing_purpose_ids : List Text

-- `AdDisclosure::validate`
unfoldable pub validate_disclosure : AdDisclosure → Result (Unit {0}) GateError
validate_disclosure d =
    reject_if
      (is_blank d.ad_id
        || is_blank d.slot_id
        || is_blank d.visible_label
        || is_blank d.on_behalf_of)
      missing_disclosure
