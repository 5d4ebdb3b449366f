-- ===== src/Storage/Load.antt =====
-- The reads of crates/storage-sqlite/src/lib.rs: a document by its identifier or its path, and the
-- listings of documents and revisions.
use open_soverign_blog.Prelude.{
  ok, ◌>>◌, ◌>>=◌, ◌==◌, ◌∷◌, [], ◌&&◌, ◌||◌, none, some, if◌then◌else◌, Bool, Option, ℕ, List, ltb,
  Result, find, map, any, take, min, filter,
}
use open_soverign_blog.Storage.Records.{
  DocumentRow, Database, RevisionRow, RouteRow, RepositoryError,
}
use open_soverign_blog.Storage.Queries.{
  find_document, or_not_found, ensure_document_exists, find_revision, is_archived_document, is_path,
}
use open_soverign_blog.Kernel.Policy.{Uuid}
use open_soverign_blog.Kernel.Content.{DocumentSnapshot, RevisionSnapshot}
use open_soverign_blog.Text.{Text}
use open_soverign_blog.Kernel.Content.Hash.{content_schema_version}

pub data RevisionSelector : Type 0 where
  current published : RevisionSelector

-- the revision column of a selector, where the visibility clause holds
unfoldable pub selected_revision : RevisionSelector → DocumentRow → Option Uuid
selected_revision current d = some d.current_revision_id
selected_revision published d =
    if is_archived_document d.status then none else d.published_revision_id

abbrev pub updated_column : RevisionSelector → DocumentRow → RevisionRow → ℕ
updated_column current d r = d.updated_at
updated_column published d r = r.snapshot.created_at

abbrev pub snapshot_of : RevisionSelector → DocumentRow → RevisionRow → DocumentSnapshot
snapshot_of selector d r = record {
  schema_version = content_schema_version;
  id = d.id;
  site_id = d.site_id;
  status = d.status;
  current_revision_id = d.current_revision_id;
  published_revision_id = d.published_revision_id;
  revision = r.snapshot;
  created_at = d.created_at;
  updated_at = updated_column selector d r;
}

unfoldable pub load_document :
    Database → Uuid → RevisionSelector → Result DocumentSnapshot RepositoryError
unfolding find_document or_not_found selected_revision find_revision
load_document db document selector = do
  d ← or_not_found (find_document db document)
  id ← or_not_found (selected_revision selector d)
  r ← or_not_found (find_revision db d.id id)
  ok (snapshot_of selector d r)

-- the route of a path whose document lies in its site
unfoldable pub find_route : Database → Uuid → Text → Option RouteRow
find_route db site path =
    find
      (λ r.
        is_path site path r
        && any (λ d. d.id == r.document_id && d.site_id == r.site_id) db.documents)
      db.routes

unfoldable pub get_published_by_slug :
    Database → Uuid → Text → Result DocumentSnapshot RepositoryError
unfolding find_route or_not_found load_document
get_published_by_slug db site slug = do
  route ← or_not_found (find_route db site slug)
  load_document db route.document_id published

-- `ORDER BY … DESC`, stable
module _ {A : Type 0} (before : A → A → Bool) where
  unfoldable pub insert_row : A → List A → List A
  insert_row a [] = a ∷ []
  insert_row a (b ∷ bs) = let rest = insert_row a bs in if before b a then b ∷ rest else a ∷ b ∷ bs

  unfoldable pub order_by : List A → List A
  unfolding insert_row
  order_by [] = []
  order_by (a ∷ rows) = insert_row a (order_by rows)

-- `ORDER BY revision_number DESC`
abbrev pub is_newer : RevisionRow → RevisionRow → Bool
is_newer r s = ltb s.snapshot.revision_number r.snapshot.revision_number

abbrev pub in_document : Uuid → RevisionRow → Bool
in_document id r = r.snapshot.document_id == id

unfoldable pub list_revisions : Database → Uuid → ℕ → Result (List RevisionSnapshot) RepositoryError
unfolding ensure_document_exists order_by
list_revisions db document limit = do
  ensure_document_exists db document
  ok (
      map (λ r. r.snapshot)
        (take (min limit 1000) (order_by is_newer (filter (in_document document) db.revisions))))

-- `ORDER BY updated_at DESC, id DESC`
abbrev pub is_fresher : DocumentRow → DocumentRow → Bool
is_fresher d e = ltb e.updated_at d.updated_at || (e.updated_at == d.updated_at && ltb e.id d.id)

-- `collect` of the loads of the rows that a listing has chosen
unfoldable pub load_each :
    Database → RevisionSelector → List Uuid → Result (List DocumentSnapshot) RepositoryError
unfolding load_document
load_each db selector [] = ok []
load_each db selector (id ∷ ids) =
    let rest = load_each db selector ids in
    load_document db id selector >>= λ d. rest >>= λ ds. ok (d ∷ ds)

unfoldable pub list_documents : Database → Uuid → ℕ → Result (List DocumentSnapshot) RepositoryError
unfolding order_by load_each
list_documents db site limit = load_each db current (
    map (λ d. d.id)
      (take (min limit 500) (order_by is_fresher (filter (λ d. d.site_id == site) db.documents))))
