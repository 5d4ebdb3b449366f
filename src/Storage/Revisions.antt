-- ===== src/Storage/Revisions.antt =====
-- `append_revision_in_transaction_with_category` of crates/storage-sqlite/src/lib.rs and what it
-- calls. `Uuid::now_v7()` and `Utc::now()` are arguments. The tables are returned with the result;
-- an error rolls the transaction back, so it returns none.
use open_soverign_blog.Prelude.{
  ok, err, ◌>>◌, ◌>>=◌, ◌==◌, ◌∷◌, [], ◌+◌, ◌&&◌, not, false, none, some, if◌then◌else◌, Result,
  Option, ℕ, is_some, update_where, reject_if, any, is_some_and, find,
}
use open_soverign_blog.Storage.Records.{
  not_found, duplicate_slug, revision_conflict, duplicate_idempotency_key, validation, storage,
  content, message, Database, DocumentRow, RepositoryError, CategoryRecord,
  RevisionCategoryPlacement,
}
use open_soverign_blog.Kernel.Content.{
  draft, Library, RevisionSnapshot, ProposedRevision, ContentValidationError, DocumentStatus,
}
use open_soverign_blog.Storage.Queries.{
  find_document, transpose, revision_category_route_path, load_category_by_id, or_not_found,
  ensure_document_route_available, Check, is_document, is_placed, is_archived, archived_revision,
}
use open_soverign_blog.Kernel.Policy.{Uuid}
use open_soverign_blog.Kernel.Content.Hash.{content_hash_with_ai_summary, content_schema_version}
use open_soverign_blog.Text.{Text, text_eq}
use open_soverign_blog.Kernel.Content.Document.{validate_proposed}

-- the constraints that `INSERT INTO revisions` can break. The order in which SQLite tests them is of
-- no matter unless a new identifier repeats an old one.
unfoldable pub check_new_revision : Database → RevisionSnapshot → Option Text → Check
check_new_revision db revision idempotency_key = do
  reject_if (any (λ r. r.snapshot.id == revision.id) db.revisions) duplicate_slug
  reject_if
      (any (λ r. is_some_and r.idempotency_key (λ key. is_some_and idempotency_key (text_eq key)))
        db.revisions)
      duplicate_idempotency_key
  reject_if
      (any
        (λ r.
          r.snapshot.document_id == revision.document_id
          && r.snapshot.revision_number == revision.revision_number)
        db.revisions)
      duplicate_slug
  reject_if
      (is_some_and revision.parent_revision_id
        (λ parent. not (any (λ r. r.snapshot.id == parent) db.revisions)))
      storage

-- the category of the `LEFT JOIN` in `revisions_default_category_placement`
unfoldable pub parent_category : Database → Option Uuid → Option Uuid
parent_category db none = none
parent_category db (some parent) =
    elim (find (λ p. p.revision_id == parent) db.revision_categories) [
      | none ↦ none
      | some p ↦ p.category_id
    ]

-- the trigger `revisions_default_category_placement`
unfoldable pub place_new_revision : Database → RevisionSnapshot → Database
unfolding find_document parent_category
place_new_revision db revision = elim (find_document db revision.document_id) [
  | none ↦ db
  | some d ↦ record db {
    revision_categories =
        record {
          revision_id = revision.id;
          document_id = revision.document_id;
          site_id = d.site_id;
          category_id = parent_category db revision.parent_revision_id;
          assigned_by_user_id = none;
          assigned_at = revision.created_at;
        }
        ∷ db.revision_categories;
  }
]

abbrev pub store_revision : Database → RevisionSnapshot → Option Text → Database
store_revision db revision idempotency_key = record db {
  revisions = record { snapshot = revision; idempotency_key = idempotency_key } ∷ db.revisions;
}

unfoldable pub insert_revision :
    Database → RevisionSnapshot → Option Text → Result Database RepositoryError
unfolding check_new_revision place_new_revision
insert_revision db revision idempotency_key = do
  check_new_revision db revision idempotency_key
  reject_if (any (λ p. p.revision_id == revision.id) db.revision_categories) duplicate_slug
  ok (place_new_revision (store_revision db revision idempotency_key) revision)

unfoldable pub with_computed_hash : Library → RevisionSnapshot → RevisionSnapshot
with_computed_hash lib r = record r {
  content_hash =
      content_hash_with_ai_summary lib r.title r.slug r.source_markdown r.embeds r.intent r.ontology
        r.ai_summary;
}

-- `UPDATE revision_categories`: that a row changes, the trigger
-- `published_revision_category_immutable`, and the foreign key on the user
unfoldable pub check_move : Database → Uuid → Uuid → Uuid → Uuid → Check
check_move db actor site document revision = do
  reject_if (not (any (is_placed site document revision) db.revision_categories)) not_found
  reject_if
      (any (λ d. d.id == document && is_some_and d.published_revision_id (λ p. p == revision))
        db.documents)
      storage
  reject_if (not (any (λ user. user == actor) db.users)) not_found

abbrev pub replaced_placement :
    Uuid → Option Uuid → ℕ → RevisionCategoryPlacement → RevisionCategoryPlacement
replaced_placement actor category now p = record p {
  category_id = category;
  assigned_by_user_id = some actor;
  assigned_at = now;
}

unfoldable pub move_placement :
    Database → Uuid → Uuid → Uuid → Uuid → Option Uuid → ℕ → Result Database RepositoryError
unfolding check_move
move_placement db actor site document revision category now = do
  check_move db actor site document revision
  ok (record db {
    revision_categories =
        update_where (is_placed site document revision) (replaced_placement actor category now)
          db.revision_categories;
  })

-- the category of an assignment, which has to be active
unfoldable pub load_active_category :
    Database → Uuid → Option Uuid → Result (Option CategoryRecord) RepositoryError
unfolding transpose load_category_by_id
load_active_category db site id = do
  category ← transpose id (load_category_by_id db site)
  reject_if (is_some_and category is_archived) (validation (message archived_revision))
  ok category

-- `if let Some((actor_user_id, category_id)) = category_assignment`
unfoldable pub assign_new_revision :
    Database
    → Uuid
    → RevisionSnapshot
    → ℕ
    → Option (Uuid × Option Uuid)
    → Result Database RepositoryError
unfolding load_active_category move_placement
assign_new_revision db site revision now none = ok db
assign_new_revision db site revision now (some (actor, category)) = do
  _ ← load_active_category db site category
  move_placement db actor site revision.document_id revision.id category now

-- the row of a document that the new revision becomes the current one of
abbrev pub point_to_revision : RevisionSnapshot → Text → DocumentRow → DocumentRow
point_to_revision revision path d = record d {
  current_revision_id = revision.id;
  current_slug = path;
  status = if is_some d.published_revision_id then DocumentStatus.published else draft;
  updated_at = revision.created_at;
}

-- The test of `UNIQUE (site_id, current_slug)` is the one that `ensure_document_route_available` has
-- just made.
abbrev pub update_document : Uuid → (DocumentRow → DocumentRow) → Database → Database
update_document id f db = record db { documents = update_where (is_document id) f db.documents }

unfoldable pub revision_of : Library → ProposedRevision → Uuid → ℕ → ℕ → RevisionSnapshot
unfolding with_computed_hash
revision_of lib input id number now = with_computed_hash lib (record {
  schema_version = content_schema_version;
  id = id;
  document_id = input.document_id;
  revision_number = number;
  parent_revision_id = some input.base_revision_id;
  title = input.title;
  slug = input.slug;
  source_markdown = input.source_markdown;
  embeds = input.embeds;
  intent = input.intent;
  ontology = input.ontology;
  ai_summary = input.ai_summary;
  authorship = input.authorship;
  actor = input.actor;
  content_hash = [];
  created_at = now;
})

-- `map_err(|error| RepositoryError::Validation(error.to_string()))`
unfoldable pub valid_content : Result (Unit {0}) ContentValidationError → Check
valid_content (ok u) = ok u
valid_content (err e) = err (validation (content e))

-- the document with its current revision, which the `JOIN` finds
unfoldable pub current_of : Database → Uuid → Result (DocumentRow × ℕ) RepositoryError
unfolding find_document or_not_found
current_of db id = do
  d ← or_not_found (find_document db id)
  r ← or_not_found (find (λ r. r.snapshot.id == d.current_revision_id) db.revisions)
  ok (d, r.snapshot.revision_number)

unfoldable pub append_revision_in_transaction_with_category :
    Library
    → Uuid
    → ProposedRevision
    → ℕ
    → Option (Uuid × Option Uuid)
    → Database
    → Result (RevisionSnapshot × Database) RepositoryError
unfolding valid_content current_of revision_of insert_revision assign_new_revision
    revision_category_route_path ensure_document_route_available
append_revision_in_transaction_with_category lib id input now category_assignment db = do
  valid_content (validate_proposed lib input)
  (d, number) ← current_of db input.document_id
  reject_if (not (d.current_revision_id == input.base_revision_id)) revision_conflict
  let revision = revision_of lib input id (number + 1) now
  db1 ← insert_revision db revision input.idempotency_key
  db2 ← assign_new_revision db1 d.site_id revision now category_assignment
  path ←
      revision_category_route_path db2 d.site_id revision.document_id revision.id revision.slug
        false
  ensure_document_route_available db2 d.site_id revision.document_id path
  ok (revision, update_document revision.document_id (point_to_revision revision path) db2)

abbrev pub append_revision_in_transaction :
    Library
    → Uuid
    → ProposedRevision
    → ℕ
    → Database
    → Result (RevisionSnapshot × Database) RepositoryError
append_revision_in_transaction lib id input now db =
    append_revision_in_transaction_with_category lib id input now none db
