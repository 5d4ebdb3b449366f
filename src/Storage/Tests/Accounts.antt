-- ===== src/Storage/Tests/Accounts.antt =====
-- Categories and sessions of crates/storage-sqlite at concrete inputs.
use open_soverign_blog.Kernel.Content.{draft}
use open_soverign_blog.Prelude.{ok, err, ◌≡◌, ◌∷◌, [], true, none, some, refl, ℕ, List}
use open_soverign_blog.Storage.Records.{
  duplicate_slug, Database, DocumentRow, not_found, active, CategoryRecord,
}
use open_soverign_blog.Storage.Tests.{fresh}
use open_soverign_blog.Storage.Categories.{
  CreateCategoryInput, create_category, create_category_in_transaction, insert_category,
}
use open_soverign_blog.Storage.Categories.Admitted.{IsCreated, create_category-IsCreated}
use open_soverign_blog.Storage.Sessions.{
  legacy, AdminControlPlaneRecord, SessionRecord, Accounts, get_session, revoke_session, is_legacy,
  AdminAuthMode, SessionAuthMethod, load_active_session_by_hash, load_admin_control_plane,
  check_binding, session_method,
}
use open_soverign_blog.Storage.Sessions.Live.{
  IsLive, get_session-IsLive, revoke_session-gone, rotate-legacy,
}
use open_soverign_blog.Storage.Sessions.Rotation.{
  rotate_admin_control_plane, rotated_control, rotated_accounts,
}
use open_soverign_blog.Text.{
  is_ascii, codes, text_eq, to_ascii_lowercase, trim, byte_len, starts_with, ends_with,
  is_ascii_alphanumeric, has_text,
}
use open_soverign_blog.Storage.Normal.{
  validate_token_hash, check_hash, validate_fingerprint, normalize_new_category_slug,
  normalize_category_slug, normalize_handle, invalid_handle, validate_required_text,
  validate_optional_text,
}
use open_soverign_blog.Storage.Queries.{
  ensure_site_owner, owns_site_in_connection, is_owner, or_not_found,
  ensure_category_landing_available, nocase_eq, load_category_by_id, ensure_root_slug_not_category,
}

abbrev category_input : CreateCategoryInput
category_input = record {
  slug = codes "Notes";
  title = codes " Notes ";
  description = none;
  theme_profile = none;
}

abbrev notes : CategoryRecord
notes = record {
  id = 7;
  site_id = 1;
  slug = codes "notes";
  title = codes "Notes";
  description = none;
  theme_profile = none;
  status = active;
  created_by_user_id = 10;
  created_at = 50;
  updated_at = 50;
}

category_created :
    create_category 7 10 1 category_input 50 fresh
    ≡ ok (notes, record fresh { categories = notes ∷ [] })
unfolding create_category create_category_in_transaction ensure_site_owner owns_site_in_connection
    is_owner normalize_new_category_slug normalize_category_slug normalize_handle invalid_handle
    validate_required_text validate_optional_text ensure_category_landing_available insert_category
    nocase_eq load_category_by_id or_not_found to_ascii_lowercase trim byte_len starts_with
    ends_with is_ascii_alphanumeric text_eq has_text is_ascii
category_created = refl

create_category-IsCreated_example :
    IsCreated 10 1 fresh notes (record fresh { categories = notes ∷ [] })
create_category-IsCreated_example =
    create_category-IsCreated 7 10 1 category_input 50 fresh
      (record fresh { categories = notes ∷ [] }) notes category_created

-- A document of the root whose slug differs from that of the new category in the case of a letter.
abbrev capital : DocumentRow
capital = record {
  id = 2;
  site_id = 1;
  status = draft;
  current_revision_id = 3;
  published_revision_id = none;
  current_slug = codes "Notes";
  created_at = 0;
  updated_at = 0;
}

abbrev with_capital : Database
with_capital = record fresh { documents = capital ∷ [] }

category_beside_capital :
    create_category 7 10 1 category_input 50 with_capital
    ≡ ok (notes, record with_capital { categories = notes ∷ [] })
unfolding create_category create_category_in_transaction ensure_site_owner owns_site_in_connection
    is_owner normalize_new_category_slug normalize_category_slug normalize_handle invalid_handle
    validate_required_text validate_optional_text ensure_category_landing_available insert_category
    nocase_eq load_category_by_id or_not_found to_ascii_lowercase trim byte_len starts_with
    ends_with is_ascii_alphanumeric text_eq has_text is_ascii
category_beside_capital = refl

capital_blocked :
    ensure_root_slug_not_category
      (record with_capital { categories = notes ∷ [] })
      1
      (codes "Notes")
    ≡ err duplicate_slug
unfolding ensure_root_slug_not_category nocase_eq to_ascii_lowercase text_eq
capital_blocked = refl

-- any 32 bytes
abbrev bytes : ℕ → List ℕ
bytes n =
    n ∷ 1 ∷ 2 ∷ 3 ∷ 4 ∷ 5 ∷ 6 ∷ 7 ∷ 8 ∷ 9 ∷ 10 ∷ 11 ∷ 12 ∷ 13 ∷ 14 ∷ 15 ∷ 16 ∷ 17 ∷ 18 ∷ 19 ∷ 20
    ∷ 21 ∷ 22 ∷ 23 ∷ 24 ∷ 25 ∷ 26 ∷ 27 ∷ 28 ∷ 29 ∷ 30 ∷ 31 ∷ []

abbrev control : AdminControlPlaneRecord
control = record {
  primary_site_id = 1;
  owner_user_id = 10;
  auth_mode = AdminAuthMode.access_key;
  auth_epoch = 4;
  setup_complete = true;
  binding_fingerprint = bytes 0;
  created_at = 0;
  updated_at = 0;
}

abbrev admin_session : SessionRecord
admin_session = record {
  id = 20;
  user_id = 10;
  auth_epoch = 4;
  auth_method = SessionAuthMethod.access_key;
  expires_at = 900;
  created_at = 100;
  revoked_at = none;
}

abbrev local_session : SessionRecord
local_session = record admin_session { id = 21; auth_epoch = 0; auth_method = legacy }

abbrev accounts : Accounts
accounts = record {
  base = fresh;
  sessions =
      record { token_hash = bytes 1; session = admin_session }
      ∷ record { token_hash = bytes 2; session = local_session }
      ∷ [];
  control = some control;
  external_identities = [];
}

admin_found : get_session accounts (bytes 1) 200 ≡ ok admin_session
unfolding get_session validate_token_hash check_hash load_active_session_by_hash or_not_found
    check_binding load_admin_control_plane session_method text_eq
admin_found = refl

get_session-IsLive_example : IsLive accounts (bytes 1) 200 admin_session
get_session-IsLive_example = get_session-IsLive accounts (bytes 1) 200 admin_session admin_found

abbrev signed_out : Accounts
signed_out = record accounts {
  sessions =
      record { token_hash = bytes 1; session = record admin_session { revoked_at = some 300 } }
      ∷ record { token_hash = bytes 2; session = local_session }
      ∷ [];
}

admin_revoked : revoke_session (bytes 1) 300 accounts ≡ ok (true, signed_out)
unfolding revoke_session validate_token_hash check_hash text_eq
admin_revoked = refl

revoke_session-gone_example : get_session signed_out (bytes 1) 301 ≡ err not_found
revoke_session-gone_example =
    revoke_session-gone accounts signed_out (bytes 1) 300 301 true admin_revoked

abbrev next_control : AdminControlPlaneRecord
next_control = rotated_control control AdminAuthMode.external (bytes 9) 300

abbrev rotated : Accounts
rotated = record signed_out { control = some next_control }

binding_rotated :
    rotate_admin_control_plane 1 AdminAuthMode.external (bytes 9) 300 accounts
    ≡ ok (next_control, rotated)
unfolding rotate_admin_control_plane rotated_accounts validate_fingerprint check_hash
    load_admin_control_plane or_not_found ensure_site_owner owns_site_in_connection is_owner text_eq
binding_rotated = refl

local_found : get_session rotated (bytes 2) 400 ≡ ok local_session
unfolding get_session validate_token_hash check_hash load_active_session_by_hash or_not_found
    text_eq
local_found = refl

rotate-legacy_example : is_legacy local_session.auth_method ≡ true
rotate-legacy_example =
    rotate-legacy accounts rotated 1 AdminAuthMode.external (bytes 9) 300 control next_control
      (bytes 2) 400 local_session refl binding_rotated (λ q. cc q) local_found
