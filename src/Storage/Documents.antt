-- ===== src/Storage/Documents.antt =====
-- `create_document_in_transaction` and `assign_revision_category_in_transaction` of
-- crates/storage-sqlite/src/lib.rs.
use open_soverign_blog.Prelude.{
  ok, ◌>>◌, ◌>>=◌, ◌==◌, ◌∷◌, [], ◌&&◌, not, none, some, if◌then◌else◌, Option, ℕ, Result,
  reject_if, is_some, any, find, is_some_and, update_where, Bool,
}
use open_soverign_blog.Kernel.Content.{
  draft, NewDocument, Library, RevisionSnapshot, DocumentSnapshot,
}
use open_soverign_blog.Storage.Records.{
  duplicate_slug, revision_conflict, validation, message, Database, DocumentRow, RepositoryError,
  RevisionCategoryPlacement,
}
use open_soverign_blog.Storage.Revisions.{
  with_computed_hash, load_active_category, move_placement, insert_revision,
}
use open_soverign_blog.Text.{Text, codes}
use open_soverign_blog.Storage.Queries.{
  or_not_found, find_revision, ensure_root_slug_not_category, ensure_document_route_available,
  load_revision_category_placement, category_route_path, is_document,
}
use open_soverign_blog.Kernel.Policy.{Uuid}
use open_soverign_blog.Kernel.Content.Hash.{content_schema_version}

unfoldable pub first_revision : Library → NewDocument → Uuid → Uuid → ℕ → RevisionSnapshot
unfolding with_computed_hash
first_revision lib input document id now = with_computed_hash lib (record {
  schema_version = content_schema_version;
  id = id;
  document_id = document;
  revision_number = 1;
  parent_revision_id = none;
  title = input.title;
  slug = input.slug;
  source_markdown = input.source_markdown;
  embeds = input.embeds;
  intent = input.intent;
  ontology = input.ontology;
  ai_summary = input.ai_summary;
  authorship = input.authorship;
  actor = input.actor;
  content_hash = [];
  created_at = now;
})

abbrev pub published_placement : Text
published_placement =
    codes "published revision placement is immutable; create a new revision before moving it"

-- the row that an assignment moves
abbrev pub is_current_in : Uuid → Uuid → Uuid → DocumentRow → Bool
is_current_in document site revision e =
    e.id == document && e.site_id == site && e.current_revision_id == revision

abbrev pub move_document : Text → ℕ → DocumentRow → DocumentRow
move_document path now d = record d { current_slug = path; updated_at = now }

abbrev pub moved_document : Database → Uuid → Uuid → Uuid → Text → ℕ → Database
moved_document db site document revision path now = record db {
  documents =
      update_where (is_current_in document site revision) (move_document path now) db.documents;
}

unfoldable pub assign_revision_category_in_transaction :
    Uuid
    → Uuid
    → Uuid
    → Uuid
    → Option Uuid
    → ℕ
    → Database
    → Result (RevisionCategoryPlacement × Database) RepositoryError
unfolding or_not_found load_active_category find_revision ensure_document_route_available
    ensure_root_slug_not_category move_placement load_revision_category_placement
assign_revision_category_in_transaction actor site document revision category now db = do
  d ← or_not_found (find (λ d. d.id == document && d.site_id == site) db.documents)
  reject_if (not (d.current_revision_id == revision)) revision_conflict
  reject_if (is_some_and d.published_revision_id (λ p. p == d.current_revision_id))
      (validation (message published_placement))
  category_record ← load_active_category db site category
  r ← or_not_found (find_revision db document revision)
  ensure_document_route_available db site document
      (category_route_path category_record r.snapshot.slug)
  if is_some category_record then ok tt else ensure_root_slug_not_category db site r.snapshot.slug
  db1 ← move_placement db actor site document revision category now
  let path = category_route_path category_record r.snapshot.slug
  let db2 = moved_document db1 site document revision path now
  placement ← load_revision_category_placement db2 site document revision
  ok (placement, db2)

abbrev pub new_document_row : NewDocument → RevisionSnapshot → Text → ℕ → DocumentRow
new_document_row input revision path now = record {
  id = revision.document_id;
  site_id = input.site_id;
  status = draft;
  current_revision_id = revision.id;
  published_revision_id = none;
  current_slug = path;
  created_at = now;
  updated_at = now;
}

-- `INSERT INTO documents`, with its primary key. The test of `UNIQUE (site_id, current_slug)` is the
-- one that `ensure_document_route_available` has just made.
unfoldable pub insert_document : Database → DocumentRow → Result Database RepositoryError
insert_document db d = do
  reject_if (any (is_document d.id) db.documents) duplicate_slug
  ok (record db { documents = d ∷ db.documents })

-- `if let Some((actor_user_id, category_id)) = initial_category`
unfoldable pub assign_initial_category :
    Option (Uuid × Uuid) → Uuid → RevisionSnapshot → ℕ → Database → Result Database RepositoryError
unfolding assign_revision_category_in_transaction
assign_initial_category none site revision now db = ok db
assign_initial_category (some (actor, category)) site revision now db = do
  (_, db1) ←
      assign_revision_category_in_transaction actor site revision.document_id revision.id
        (some category) now db
  ok db1

abbrev pub category_of : Option (Uuid × Uuid) → Option Uuid
category_of none = none
category_of (some (actor, category)) = some category

abbrev pub draft_snapshot : NewDocument → RevisionSnapshot → ℕ → DocumentSnapshot
draft_snapshot input revision now = record {
  schema_version = content_schema_version;
  id = revision.document_id;
  site_id = input.site_id;
  status = draft;
  current_revision_id = revision.id;
  published_revision_id = none;
  revision = revision;
  created_at = now;
  updated_at = now;
}

unfoldable pub create_document_in_transaction :
    Library
    → Uuid
    → Uuid
    → NewDocument
    → ℕ
    → Option (Uuid × Uuid)
    → Option Text
    → Database
    → Result (DocumentSnapshot × Database) RepositoryError
unfolding first_revision load_active_category ensure_root_slug_not_category
    ensure_document_route_available insert_document insert_revision assign_initial_category
create_document_in_transaction lib document id input now initial_category idempotency_key db = do
  let revision = first_revision lib input document id now
  category ← load_active_category db input.site_id (category_of initial_category)
  if is_some category then ok tt else ensure_root_slug_not_category db input.site_id revision.slug
  let path = category_route_path category revision.slug
  ensure_document_route_available db input.site_id document path
  db1 ← insert_document db (new_document_row input revision path now)
  db2 ← insert_revision db1 revision idempotency_key
  db3 ← assign_initial_category initial_category input.site_id revision now db2
  ok (draft_snapshot input revision now, db3)
