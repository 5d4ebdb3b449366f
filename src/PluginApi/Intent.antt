-- ===== src/PluginApi/Intent.antt =====
-- The intent of an installation of crates/plugin-api/src/lib.rs: what its author asks for.
pub mod Accepted
use open_soverign_blog.Prelude.{
  ℕ, ◌≤◌, ◌≡◌, refl, ◌↔◌, Bool, true, false, not, some, List, [], ◌∷◌, map, arith, ltb, length, All,
  Distinct, ok, ◌>>=◌, ◌>>◌, reject_if, then_iff, reject_iff, false_iff,
}
use open_soverign_blog.Text.{
  Text, codes, text_eq, text_eq_iff, has_text, has_text_iff, Apart, Apart-cons, Apart-tail,
  Apart-nil,
}
use open_soverign_blog.PluginApi.Names.{valid_plugin_id}
use open_soverign_blog.PluginApi.Records.{
  InstallationSelection, Library, unsupported_schema, invalid,
}
use open_soverign_blog.PluginApi.Validation.{Check, some_or, validate_style}
use open_soverign_blog.PluginApi.Lock.Valid.{some_or_iff}

abbrev pub install_intent_schema_version : Text
install_intent_schema_version = codes "open-soverign-blog-install/1"

pub record RequestedDlc : Type 0 where
  pub id : Text
  pub version : Text
  pub enabled : Bool

pub record InstallationIntent : Type 0 where
  pub schema_version : Text
  pub installation_id : Text
  pub site_id : Text
  pub created_with : Text
  pub selection : InstallationSelection
  pub dlcs : List RequestedDlc

module _ (lib : Library) where
  -- `RequestedDlc::validate`
  unfoldable pub validate_requested : RequestedDlc → Check
  validate_requested d = do
    reject_if (not (valid_plugin_id d.id)) (invalid "requested DLC id is invalid")
    requirement ← some_or (lib.parse_req d.version) "requested DLC version"
    ok tt

  -- the loop over the identifiers seen so far
  unfoldable pub validate_each_requested : List Text → List RequestedDlc → Check
  validate_each_requested ids [] = ok tt
  validate_each_requested ids (d ∷ ds) =
      let rest = validate_each_requested (d.id ∷ ids) ds in
      do
        validate_requested d
        reject_if (has_text ids d.id) (invalid "dlcs contains a duplicate id")
        rest

  -- `InstallationIntent::validate`
  unfoldable pub validate_intent : InstallationIntent → Check
  validate_intent i = do
    reject_if (not (text_eq i.schema_version install_intent_schema_version))
        (unsupported_schema i.schema_version)
    reject_if (not (lib.uuid_parses i.installation_id)) (invalid "installation_id")
    reject_if (not (lib.uuid_parses i.site_id)) (invalid "site_id")
    version ← some_or (lib.parse i.created_with) "created_with"
    validate_style i.selection.style
    reject_if (ltb 256 (length i.dlcs)) (invalid "dlcs exceeds 256 records")
    validate_each_requested [] i.dlcs
