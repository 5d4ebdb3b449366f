-- ===== src/Storage/Sessions.antt =====
-- The sessions of crates/storage-sqlite/src/lib.rs and the administrator's authentication that they
-- are bound to.
pub mod Live
pub mod Rotation
use open_soverign_blog.Prelude.{
  ok, err, ◌>>◌, ◌>>=◌, ◌==◌, ◌≡◌, ◌++◌, ◌∷◌, [], ◌+◌, ◌&&◌, ◌||◌, not, true, false, none, some,
  if◌then◌else◌, refl, sym, ap, ◌∙◌, inl, inr, ◌⊎◌, ◌↔◌, arith, Bool, Option, List, ℕ, Result,
  is_some_and, reject_if, is_some, ltb, find, any, leb, update_where,
}
use open_soverign_blog.Prelude.{◌^◌, ◌-◌}
use open_soverign_blog.Storage.Records.{
  not_found, duplicate_slug, revision_conflict, duplicate_idempotency_key, validation, storage,
  content, envelope, message, active, archived, Database, RepositoryError,
}
use open_soverign_blog.Kernel.Policy.{Uuid}
use open_soverign_blog.Storage.Queries.{or_not_found, Check, ensure_site_owner}
use open_soverign_blog.Text.{Text, codes, text_eq}
use open_soverign_blog.Storage.Normal.{
  validate_token_hash, validate_fingerprint, validate_session_expiry,
}
use open_soverign_blog.Storage.Publish.{i64_max}

pub data AdminAuthMode : Type 0 where
  access_key external disabled : AdminAuthMode

pub data SessionAuthMethod : Type 0 where
  legacy access_key external : SessionAuthMethod

abbrev pub mode_eq : AdminAuthMode → AdminAuthMode → Bool
mode_eq AdminAuthMode.access_key AdminAuthMode.access_key = true
mode_eq AdminAuthMode.external AdminAuthMode.external = true
mode_eq disabled disabled = true
mode_eq _ _ = false

abbrev pub method_eq : SessionAuthMethod → SessionAuthMethod → Bool
method_eq legacy legacy = true
method_eq SessionAuthMethod.access_key SessionAuthMethod.access_key = true
method_eq SessionAuthMethod.external SessionAuthMethod.external = true
method_eq _ _ = false

unfoldable pub session_method : AdminAuthMode → Option SessionAuthMethod
session_method AdminAuthMode.access_key = some SessionAuthMethod.access_key
session_method AdminAuthMode.external = some SessionAuthMethod.external
session_method disabled = none

pub record SessionRecord : Type 0 where
  pub id : Uuid
  pub user_id : Uuid
  pub auth_epoch : ℕ
  pub auth_method : SessionAuthMethod
  pub expires_at : ℕ
  pub created_at : ℕ
  pub revoked_at : Option ℕ

-- a row of the table `sessions`
pub record SessionRow : Type 0 where
  pub token_hash : List ℕ
  pub session : SessionRecord

pub record AdminControlPlaneRecord : Type 0 where
  pub primary_site_id : Uuid
  pub owner_user_id : Uuid
  pub auth_mode : AdminAuthMode
  pub auth_epoch : ℕ
  pub setup_complete : Bool
  pub binding_fingerprint : List ℕ
  pub created_at : ℕ
  pub updated_at : ℕ

-- The tables of this part, beside those of the documents. Of an external identity only the user
-- matters here.
pub record Accounts : Type 0 where
  pub base : Database
  pub sessions : List SessionRow
  pub control : Option AdminControlPlaneRecord
  pub external_identities : List Uuid

unfoldable pub load_admin_control_plane : Accounts → Result AdminControlPlaneRecord RepositoryError
unfolding or_not_found
load_admin_control_plane a = or_not_found a.control

abbrev pub large_epoch : Text
large_epoch = codes "session auth epoch is too large"

abbrev pub known_credential : Text
known_credential = codes "session credential is already registered"

abbrev pub bad_record : Text
bad_record = codes "community record violates a storage constraint"

-- `INSERT INTO sessions` and `map_community_constraint_error`. An `id` that is new is not tested
-- before the token, since only one of them can be in the table already.
unfoldable pub insert_session :
    Uuid
    → Uuid
    → List ℕ
    → ℕ
    → ℕ
    → SessionAuthMethod
    → ℕ
    → Accounts
    → Result (SessionRecord × Accounts) RepositoryError
unfolding validate_token_hash validate_session_expiry
insert_session id user token_hash expires_at auth_epoch auth_method now a = do
  validate_token_hash token_hash
  validate_session_expiry now expires_at
  reject_if (ltb i64_max auth_epoch) (validation (message large_epoch))
  reject_if (any (λ s. text_eq s.token_hash token_hash) a.sessions)
      (validation (message known_credential))
  reject_if (any (λ s. s.session.id == id) a.sessions) (validation (message bad_record))
  reject_if (not (any (λ u. u == user) a.base.users)) not_found
  let session : SessionRecord = record {
    id = id;
    user_id = user;
    auth_epoch = auth_epoch;
    auth_method = auth_method;
    expires_at = expires_at;
    created_at = now;
    revoked_at = none;
  }
  ok (
    session,
    record a { sessions = record { token_hash = token_hash; session = session } ∷ a.sessions },
  )

unfoldable pub create_session :
    Uuid → Uuid → List ℕ → ℕ → ℕ → Accounts → Result (SessionRecord × Accounts) RepositoryError
unfolding validate_token_hash validate_session_expiry insert_session
create_session id user token_hash expires_at now a = do
  validate_token_hash token_hash
  validate_session_expiry now expires_at
  insert_session id user token_hash expires_at 0 legacy now a

-- the session method of the active mode, compared with another one
abbrev pub is_method : AdminAuthMode → SessionAuthMethod → Bool
is_method mode auth_method = is_some_and (session_method mode) (λ m. method_eq m auth_method)

abbrev pub unbound_session : Text
unbound_session =
    codes "session issuance does not match the active administrator authentication binding"

unfoldable pub create_primary_owner_session :
    Uuid
    → List ℕ
    → ℕ
    → SessionAuthMethod
    → List ℕ
    → ℕ
    → Accounts
    → Result (SessionRecord × Accounts) RepositoryError
unfolding validate_token_hash validate_session_expiry validate_fingerprint load_admin_control_plane
    ensure_site_owner insert_session
create_primary_owner_session id token_hash expires_at auth_method fingerprint now a = do
  validate_token_hash token_hash
  validate_session_expiry now expires_at
  validate_fingerprint fingerprint
  control ← load_admin_control_plane a
  reject_if
      (not (is_method control.auth_mode auth_method)
        || not (text_eq control.binding_fingerprint fingerprint))
      (validation (message unbound_session))
  ensure_site_owner a.base control.owner_user_id control.primary_site_id
  insert_session id control.owner_user_id token_hash expires_at control.auth_epoch auth_method now a

-- a stored session of the token that is not revoked
abbrev pub is_active_row : List ℕ → SessionRow → Bool
is_active_row token_hash s = text_eq s.token_hash token_hash && not (is_some s.session.revoked_at)

unfoldable pub load_active_session_by_hash :
    Accounts → List ℕ → ℕ → Result SessionRecord RepositoryError
unfolding or_not_found
load_active_session_by_hash a token_hash now = do
  row ← or_not_found (find (is_active_row token_hash) a.sessions)
  reject_if (leb row.session.expires_at now) not_found
  ok row.session

-- the binding of a session of the administrator
abbrev pub is_bound : AdminControlPlaneRecord → SessionRecord → Bool
is_bound control s =
    s.user_id == control.owner_user_id
    && s.auth_epoch == control.auth_epoch
    && is_method control.auth_mode s.auth_method

abbrev pub is_legacy : SessionAuthMethod → Bool
is_legacy legacy = true
is_legacy _ = false

unfoldable pub check_binding : Accounts → SessionRecord → Check
unfolding load_admin_control_plane session_method
check_binding a session = do
  control ← load_admin_control_plane a
  reject_if (not (is_bound control session)) not_found

unfoldable pub get_session : Accounts → List ℕ → ℕ → Result SessionRecord RepositoryError
unfolding validate_token_hash load_active_session_by_hash check_binding
get_session a token_hash now = do
  validate_token_hash token_hash
  session ← load_active_session_by_hash a token_hash now
  if is_legacy session.auth_method then ok tt else check_binding a session
  ok session

-- `SET revoked_at = ?1`
abbrev pub revoke : ℕ → SessionRow → SessionRow
revoke now s = record s { session = record s.session { revoked_at = some now } }

unfoldable pub revoke_session : List ℕ → ℕ → Accounts → Result (Bool × Accounts) RepositoryError
unfolding validate_token_hash
revoke_session token_hash now a = do
  validate_token_hash token_hash
  ok (
    any (is_active_row token_hash) a.sessions,
    record a { sessions = update_where (is_active_row token_hash) (revoke now) a.sessions },
  )
