-- ===== src/PluginApi/Tests.antt =====
-- Runs of crates/plugin-api, and the theorems about it at concrete inputs.
use open_soverign_blog.Prelude.{
  Bool-cases, inl, inr, subst, arith, ℕ, ◌≡◌, ◌↔◌, refl, true, false, none, some, Option, [], ◌∷◌,
  All, ltb, leb, ok, err,
}
use open_soverign_blog.Text.{
  text_eq_iff, is_control, starts_with, ends_with, is_ascii_lowercase, is_lower_hex,
  is_ascii_alphanumeric, Text, codes, text_eq, text_lt, trim, byte_len, split, has_text,
}
use open_soverign_blog.PluginApi.Names.{
  valid_plugin_id, safe_relative_path, qualified_name, valid_sha256, bounded_install_text,
  strictly_sorted_unique, all_unique, valid_capability_name,
}
use open_soverign_blog.PluginApi.Records.{
  Library, InstallationLock, InstalledDlc, DlcHistoryRecord, access_key, no_cache, no_style,
  bundled, was_installed, invalid,
}
use open_soverign_blog.PluginApi.Validation.{
  validate_engine, validate_style, validate_dlc, validate_record, versions_are_valid, check_source,
  bad_material, bad_lists,
}
use open_soverign_blog.PluginApi.Lock.{
  validate_lock, record_engine_upgrade, upgraded, validate_each_dlc, validate_each_retained,
  validate_each_record, out_of_order, expected_digest, refresh_digest, check_upgrade,
}
use open_soverign_blog.PluginApi.Lock.Valid.{digest_of, IsLock, validate_lock_iff}
use open_soverign_blog.PluginApi.Lock.Upgrade.{
  retargeted, Ascends, RunsOn, record_engine_upgrade-ok_iff, record_engine_upgrade-RunsOn,
}
use open_soverign_blog.PluginApi.Intent.{InstallationIntent}
use open_soverign_blog.PluginApi.Json.{
  Entries, null, boolean, object, entry, no_entries, canonical_json, insert, collect,
}
use open_soverign_blog.PluginApi.Json.Unordered.{member, canonical_json-unordered}

abbrev one_digit : Text → Option ℕ
one_digit (c ∷ []) = some c
one_digit _ = none

abbrev digest : Text
digest = codes "aaaaaaaaaaaaaaaaaaaaaaaaaaaaaaaaaaaaaaaaaaaaaaaaaaaaaaaaaaaaaaaa"

-- Versions of one digit; a requirement is the least version that meets it.
abbrev simple : Library
simple = record {
  Version = ℕ;
  Requirement = ℕ;
  parse = one_digit;
  parse_req = one_digit;
  matches = leb;
  lt = ltb;
  parse_url = λ t. none;
  uuid_parses = λ t. true;
  lock_value = λ lock. null;
  json_text = λ value. [];
  sha256_hex = λ text. digest;
}

abbrev seo : InstalledDlc
seo = record {
  id = codes "org.example.seo";
  requested_version = codes "1";
  version = codes "1";
  core_compatibility = codes "1";
  manifest_version = 1;
  plugin_api = codes "1";
  source_kind = bundled;
  source = codes "seo";
  manifest_sha256 = digest;
  artifact_sha256 = none;
  enabled = true;
  approved_capabilities = codes "seo.read" ∷ codes "seo.write" ∷ [];
  config_sha256 = none;
  state_version = some 1;
  applied_migrations = codes "first" ∷ [];
}

abbrev installed : DlcHistoryRecord
installed = record {
  sequence = 1;
  action = was_installed;
  dlc_id = codes "org.example.seo";
  from_version = none;
  to_version = some (codes "1");
  engine_version = codes "1";
}

abbrev lock : InstallationLock
lock = record {
  schema_version = codes "open-soverign-blog-lock/1";
  installation_id = codes "1";
  engine = record {
    version = codes "1";
    config_schema_version = codes "1";
    database_schema_version = 1;
    plugin_api = codes "1";
    source = codes "release";
    artifact_sha256 = none;
  };
  selection = record {
    admin_auth = access_key;
    style = record { kind = no_style; id = none; file = none; sha256 = none };
    cache = no_cache;
  };
  dlcs = seo ∷ [];
  retained_dlcs = [];
  history = installed ∷ [];
  lock_digest = digest;
}

abbrev next : InstallationLock
next = upgraded simple (codes "2") (codes "release") none lock

path_traversal_is_unsafe : safe_relative_path (codes "plugins/../secret") ≡ false
unfolding safe_relative_path split text_eq byte_len starts_with is_ascii_alphanumeric
path_traversal_is_unsafe = refl

lock_upgrades :
    record_engine_upgrade simple (codes "1") (codes "2") (codes "release") none lock ≡ (next, ok tt)
unfolding record_engine_upgrade text_eq text_lt trim byte_len split has_text valid_plugin_id
    qualified_name valid_sha256 bounded_install_text strictly_sorted_unique all_unique
    valid_capability_name validate_lock validate_engine validate_style validate_each_dlc
    validate_each_retained validate_each_record validate_dlc validate_record versions_are_valid
    check_source bad_material bad_lists out_of_order expected_digest refresh_digest check_upgrade
    is_control starts_with ends_with is_ascii_lowercase is_lower_hex
lock_upgrades = refl

lock_does_not_downgrade :
    (record_engine_upgrade simple (codes "1") (codes "0") (codes "release") none lock).1
    ≡ err (invalid "engine upgrade target must be greater than its source")
unfolding record_engine_upgrade text_eq text_lt trim byte_len split has_text valid_plugin_id
    qualified_name valid_sha256 bounded_install_text strictly_sorted_unique all_unique
    valid_capability_name validate_lock validate_engine validate_style validate_each_dlc
    validate_each_retained validate_each_record validate_dlc validate_record versions_are_valid
    check_source bad_material bad_lists out_of_order expected_digest refresh_digest check_upgrade
    is_control starts_with ends_with is_ascii_lowercase is_lower_hex
lock_does_not_downgrade = refl

validate_lock_iff_example : (validate_lock simple lock ≡ ok tt) ↔ IsLock simple lock
validate_lock_iff_example = validate_lock_iff simple lock

record_engine_upgrade-ok_iff_example :
    (record_engine_upgrade simple (codes "1") (codes "2") (codes "release") none lock
      ≡ (next, ok tt))
    ↔ (IsLock simple lock
        × (codes "1" ≡ codes "1")
        × Ascends simple (codes "1") (codes "2")
        × IsLock simple next
        × (next ≡ record (retargeted (codes "2") (codes "release") none lock) {
          lock_digest = digest_of simple (retargeted (codes "2") (codes "release") none lock);
        }))
record_engine_upgrade-ok_iff_example =
    record_engine_upgrade-ok_iff simple (codes "1") (codes "2") (codes "release") none lock next

record_engine_upgrade-RunsOn_example :
    (codes "2" ≡ codes "2")
    × All (RunsOn simple (codes "2")) (seo ∷ [])
    × (seo ∷ [] ≡ seo ∷ [])
    × (lock.retained_dlcs ≡ lock.retained_dlcs)
    × (lock.history ≡ lock.history)
    × (lock.selection ≡ lock.selection)
    × (lock.installation_id ≡ lock.installation_id)
unfolding refresh_digest
record_engine_upgrade-RunsOn_example =
    record_engine_upgrade-RunsOn simple (codes "1") (codes "2") (codes "release") none lock next
      lock_upgrades

abbrev intent : InstallationIntent
intent = record {
  schema_version = codes "open-soverign-blog-install/1";
  installation_id = codes "1";
  site_id = codes "2";
  created_with = codes "1";
  selection = lock.selection;
  dlcs = record { id = codes "org.example.seo"; version = codes "1"; enabled = true } ∷ [];
}

abbrev a_then_b : Entries
a_then_b = entry (codes "a") null (entry (codes "b") (boolean true) no_entries)

abbrev b_then_a : Entries
b_then_a = entry (codes "b") (boolean true) (entry (codes "a") null no_entries)

keys_are_sorted : canonical_json (object b_then_a) ≡ object a_then_b
unfolding canonical_json insert collect text_lt text_eq
keys_are_sorted = refl

same_members : (key : Text) → member key b_then_a ≡ member key a_then_b
unfolding text_eq
same_members key = elim (Bool-cases (text_eq (codes "a") key)) [
  | inl here ↦
      subst (λ t. member t b_then_a ≡ member t a_then_b) ((text_eq_iff (codes "a") key).0 here) refl
  | inr away ↦ ground (arith, away)
]

canonical_json-unordered_example :
    canonical_json (object b_then_a) ≡ canonical_json (object a_then_b)
canonical_json-unordered_example = canonical_json-unordered b_then_a a_then_b same_members
