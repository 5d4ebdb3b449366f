-- ===== src/Storage/Records.antt =====
-- The rows of crates/storage-sqlite/src/lib.rs, table by table with the columns that the document
-- lifecycle reads, and `RepositoryError` of crates/kernel/src/ports.rs. A column of JSON is the value
-- that it was written from, and a column of text that holds an identifier, a time or a status is that
-- value.
use open_soverign_blog.Prelude.{ℕ, Bool, Option, List}
use open_soverign_blog.Text.{Text}
use open_soverign_blog.Kernel.Policy.{Uuid}
use open_soverign_blog.Kernel.Content.{ContentValidationError, DocumentStatus, RevisionSnapshot}
use open_soverign_blog.Kernel.Ai2Ai.{Ai2AiValidationError, AiProposalAuditRecord}

-- What the message of `RepositoryError::Validation` is made of.
pub data Invalid : Type 0 where
  content : ContentValidationError → Invalid
  envelope : Ai2AiValidationError → Invalid
  message : Text → Invalid
  handle : Text → Invalid
  required : Text → ℕ → Invalid
  at_most : Text → ℕ → Invalid
  reserved : Text → Invalid

pub data RepositoryError : Type 0 where
  not_found duplicate_slug revision_conflict duplicate_idempotency_key : RepositoryError
  validation : Invalid → RepositoryError
  storage : RepositoryError

pub data ThemeProfile : Type 0 where
  paper ink forest terminal : ThemeProfile

pub data CategoryStatus : Type 0 where
  active archived : CategoryStatus

pub data SiteMembershipRole : Type 0 where
  owner editor writer : SiteMembershipRole

pub record DocumentRow : Type 0 where
  pub id : Uuid
  pub site_id : Uuid
  pub status : DocumentStatus
  pub current_revision_id : Uuid
  pub published_revision_id : Option Uuid
  pub current_slug : Text
  pub created_at : ℕ
  pub updated_at : ℕ

-- The columns beside `snapshot_json` repeat fields of the snapshot, all but the key.
pub record RevisionRow : Type 0 where
  pub snapshot : RevisionSnapshot
  pub idempotency_key : Option Text

pub record RouteRow : Type 0 where
  pub site_id : Uuid
  pub path : Text
  pub document_id : Uuid
  pub is_canonical : Bool
  pub created_at : ℕ

pub record CategoryRecord : Type 0 where
  pub id : Uuid
  pub site_id : Uuid
  pub slug : Text
  pub title : Text
  pub description : Option Text
  pub theme_profile : Option ThemeProfile
  pub status : CategoryStatus
  pub created_by_user_id : Uuid
  pub created_at : ℕ
  pub updated_at : ℕ

pub record RevisionCategoryPlacement : Type 0 where
  pub revision_id : Uuid
  pub document_id : Uuid
  pub site_id : Uuid
  pub category_id : Option Uuid
  pub assigned_by_user_id : Option Uuid
  pub assigned_at : ℕ

pub record SeriesRow : Type 0 where
  pub id : Uuid
  pub site_id : Uuid
  pub category_id : Uuid
  pub home_position : ℕ
  pub created_by_user_id : Uuid
  pub created_at : ℕ
  pub updated_at : ℕ

pub record SeriesItemRecord : Type 0 where
  pub series_id : Uuid
  pub site_id : Uuid
  pub document_id : Uuid
  pub position : ℕ
  pub added_at : ℕ

pub record SiteMembershipRecord : Type 0 where
  pub site_id : Uuid
  pub user_id : Uuid
  pub role : SiteMembershipRole
  pub created_at : ℕ

-- The tables, newest rows first. Of a user, only the identifier matters here.
pub record Database : Type 0 where
  pub users : List Uuid
  pub site_memberships : List SiteMembershipRecord
  pub documents : List DocumentRow
  pub revisions : List RevisionRow
  pub routes : List RouteRow
  pub categories : List CategoryRecord
  pub revision_categories : List RevisionCategoryPlacement
  pub series : List SeriesRow
  pub series_items : List SeriesItemRecord
  pub ai_proposal_audits : List AiProposalAuditRecord
