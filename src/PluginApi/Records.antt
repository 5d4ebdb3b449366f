-- ===== src/PluginApi/Records.antt =====
-- The records of an installation of crates/plugin-api/src/lib.rs.
use Prim.Native.String.{String}
use open_soverign_blog.Prelude.{ℕ, Bool, Option, List}
use open_soverign_blog.Text.{Text, codes}
use open_soverign_blog.Kernel.Content.{Url}
use open_soverign_blog.PluginApi.Json.{Value}

abbrev pub plugin_manifest_version : ℕ
plugin_manifest_version = 1

abbrev pub plugin_api_version : Text
plugin_api_version = codes "1"

abbrev pub install_lock_schema_version : Text
install_lock_schema_version = codes "open-soverign-blog-lock/1"

pub data InstallContractError : Type 0 where
  unsupported_schema : Text → InstallContractError
  invalid : String → InstallContractError
  digest_mismatch : InstallContractError

pub data InstallationAdminAuth : Type 0 where
  access_key external disabled : InstallationAdminAuth

pub data InstallationCache : Type 0 where
  no_cache redis_standalone redis_managed : InstallationCache

pub data InstallationStyleKind : Type 0 where
  no_style builtin custom : InstallationStyleKind

pub record InstallationStyle : Type 0 where
  pub kind : InstallationStyleKind
  pub id : Option Text
  pub file : Option Text
  pub sha256 : Option Text

pub record InstallationSelection : Type 0 where
  pub admin_auth : InstallationAdminAuth
  pub style : InstallationStyle
  pub cache : InstallationCache

pub record LockedEngine : Type 0 where
  pub version : Text
  pub config_schema_version : Text
  pub database_schema_version : ℕ
  pub plugin_api : Text
  pub source : Text
  pub artifact_sha256 : Option Text

pub data InstalledDlcSourceKind : Type 0 where
  bundled file https : InstalledDlcSourceKind

pub record InstalledDlc : Type 0 where
  pub id : Text
  pub requested_version : Text
  pub version : Text
  pub core_compatibility : Text
  pub manifest_version : ℕ
  pub plugin_api : Text
  pub source_kind : InstalledDlcSourceKind
  pub source : Text
  pub manifest_sha256 : Text
  pub artifact_sha256 : Option Text
  pub enabled : Bool
  pub approved_capabilities : List Text
  pub config_sha256 : Option Text
  pub state_version : Option ℕ
  pub applied_migrations : List Text

pub record RetainedDlcState : Type 0 where
  pub id : Text
  pub removed_version : Text
  pub state_version : Option ℕ
  pub applied_migrations : List Text

pub data DlcHistoryAction : Type 0 where
  was_installed was_enabled was_disabled was_upgraded was_removed : DlcHistoryAction

pub record DlcHistoryRecord : Type 0 where
  pub sequence : ℕ
  pub action : DlcHistoryAction
  pub dlc_id : Text
  pub from_version : Option Text
  pub to_version : Option Text
  pub engine_version : Text

pub record InstallationLock : Type 0 where
  pub schema_version : Text
  pub installation_id : Text
  pub engine : LockedEngine
  pub selection : InstallationSelection
  pub dlcs : List InstalledDlc
  pub retained_dlcs : List RetainedDlcState
  pub history : List DlcHistoryRecord
  pub lock_digest : Text

-- The code of other packages that a lock and an intent call: versions and requirements of `semver` with
-- their order, `Url::parse`, `Uuid::parse_str` (whether it succeeds), the JSON value that serde derives
-- for a lock, its text, and SHA-256 written as hexadecimal digits. The three that may fail in their
-- types, `to_value`, `to_vec` and the digest, do not fail on these values.
pub record Library : Type 1 where
  pub Version : Type 0
  pub Requirement : Type 0
  pub parse : Text → Option Version
  pub parse_req : Text → Option Requirement
  pub matches : Requirement → Version → Bool
  pub lt : Version → Version → Bool
  pub parse_url : Text → Option Url
  pub uuid_parses : Text → Bool
  pub lock_value : InstallationLock → Value
  pub json_text : Value → Text
  pub sha256_hex : Text → Text
