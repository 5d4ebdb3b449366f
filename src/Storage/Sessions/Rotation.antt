-- ===== src/Storage/Sessions/Rotation.antt =====
-- A rotation of the administrator's authentication, of crates/storage-sqlite/src/lib.rs.
use open_soverign_blog.Prelude.{
  ok, ◌>>◌, ◌>>=◌, ◌==◌, [], ◌+◌, ◌&&◌, not, some, if◌then◌else◌, List, ℕ, Result, reject_if,
  is_some, ltb, leb, update_where,
}
use open_soverign_blog.Prelude.{◌^◌, ◌-◌}
use open_soverign_blog.Storage.Records.{validation, message, RepositoryError}
use open_soverign_blog.Kernel.Policy.{Uuid}
use open_soverign_blog.Storage.Queries.{ensure_site_owner}
use open_soverign_blog.Text.{Text, codes, text_eq}
use open_soverign_blog.Storage.Normal.{validate_fingerprint}
use open_soverign_blog.Storage.Publish.{i64_max}
use open_soverign_blog.Storage.Sessions.{
  SessionRow, AdminControlPlaneRecord, load_admin_control_plane, revoke, AdminAuthMode, Accounts,
  is_legacy, mode_eq,
}

abbrev pub fixed_site : Text
fixed_site = codes "administrator authentication rotation cannot change the primary site"

abbrev pub exhausted_epoch : Text
exhausted_epoch = codes "administrator authentication epoch is exhausted"

abbrev pub administrator_epoch : Text
administrator_epoch = codes "administrator authentication epoch is too large"

-- `SET revoked_at = COALESCE(revoked_at, ?1)`
abbrev pub revoke_now : ℕ → SessionRow → SessionRow
revoke_now now s = if is_some s.session.revoked_at then s else revoke now s

abbrev pub rotated_control :
    AdminControlPlaneRecord → AdminAuthMode → List ℕ → ℕ → AdminControlPlaneRecord
rotated_control existing mode fingerprint now = record existing {
  auth_mode = mode;
  auth_epoch = existing.auth_epoch + 1;
  binding_fingerprint = fingerprint;
  updated_at = now;
}

-- what a rotation that changes the binding does
unfoldable pub rotated_accounts :
    AdminControlPlaneRecord
    → AdminAuthMode
    → List ℕ
    → ℕ
    → Accounts
    → Result (AdminControlPlaneRecord × Accounts) RepositoryError
rotated_accounts existing mode fingerprint now a = do
  reject_if (leb (2 ^ 64 - 1) existing.auth_epoch) (validation (message exhausted_epoch))
  reject_if (ltb i64_max (existing.auth_epoch + 1)) (validation (message administrator_epoch))
  let control = rotated_control existing mode fingerprint now
  ok (
    control,
    record a {
      control = some control;
      sessions =
          update_where (λ s. not (is_legacy s.session.auth_method)) (revoke_now now) a.sessions;
      external_identities = [];
    },
  )

-- The control plane is one row, which this transaction has read: the update by its epoch changes it.
unfoldable pub rotate_admin_control_plane :
    Uuid
    → AdminAuthMode
    → List ℕ
    → ℕ
    → Accounts
    → Result (AdminControlPlaneRecord × Accounts) RepositoryError
unfolding validate_fingerprint load_admin_control_plane ensure_site_owner rotated_accounts
rotate_admin_control_plane site mode fingerprint now a = do
  validate_fingerprint fingerprint
  existing ← load_admin_control_plane a
  reject_if (not (existing.primary_site_id == site)) (validation (message fixed_site))
  ensure_site_owner a.base existing.owner_user_id existing.primary_site_id
  if mode_eq existing.auth_mode mode && text_eq existing.binding_fingerprint fingerprint
      then ok (existing, a)
      else rotated_accounts existing mode fingerprint now a
