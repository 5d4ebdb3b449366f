-- ===== src/Storage/Invariant.antt =====
-- The state in which the operations of crates/storage-sqlite/src/lib.rs leave the documents, the
-- revisions and the routes.
pub mod History
pub mod Kept
pub mod Routes
pub mod Paths
use open_soverign_blog.Prelude.{
  ok, err, ◌>>◌, ◌>>=◌, ◌==◌, ◌≡◌, ◌++◌, ◌∷◌, [], ◌+◌, ◌&&◌, ◌||◌, not, true, false, none, some,
  if◌then◌else◌, refl, sym, ap, ◌∙◌, inl, inr, ◌⊎◌, ◌↔◌, arith, Option, Distinct, List, In, map,
  filter,
}
use open_soverign_blog.Kernel.Content.{draft, DocumentStatus}
use open_soverign_blog.Storage.Steps.{Content}
use open_soverign_blog.Storage.Records.{
  not_found, duplicate_slug, revision_conflict, duplicate_idempotency_key, validation, storage,
  content, envelope, message, active, archived, DocumentRow, RevisionRow, RouteRow,
}
use open_soverign_blog.Kernel.Policy.{Uuid}
use open_soverign_blog.Text.{Text}
use open_soverign_blog.Storage.Load.{in_document}

abbrev pub document_key : DocumentRow → Uuid
document_key d = d.id

abbrev pub revision_key : RevisionRow → Uuid
revision_key r = r.snapshot.id

abbrev pub route_key : RouteRow → Uuid × Text
route_key t = (t.site_id, t.path)

-- the revisions of a document, newest first
abbrev pub history : Content → Uuid → List RevisionRow
history c id = filter (in_document id) c.revisions

-- From the named revision on, every revision has the next one as its parent and one more as its
-- number; the last one is the first of its document.
abbrev pub IsChain : Uuid → List RevisionRow → Type 0
IsChain id [] = ⊥
IsChain id (r ∷ []) =
    (r.snapshot.id ≡ id) × (r.snapshot.revision_number ≡ 1) × (r.snapshot.parent_revision_id ≡ none)
IsChain id (r ∷ s ∷ rows) =
    (r.snapshot.id ≡ id)
    × (r.snapshot.revision_number ≡ s.snapshot.revision_number + 1)
    × (r.snapshot.parent_revision_id ≡ some s.snapshot.id)
    × IsChain s.snapshot.id (s ∷ rows)

abbrev pub HasRevision : Content → Uuid → Uuid → Type 0
HasRevision c document id =
    (r : RevisionRow) × In r c.revisions
    × (r.snapshot.id ≡ id)
    × (r.snapshot.document_id ≡ document)

abbrev pub status_of : Option Uuid → DocumentStatus
status_of none = draft
status_of (some id) = DocumentStatus.published

-- The history of the documents.
pub record IsVersioned (c : Content) : Type 0 where
  pub document_ids : Distinct (map document_key c.documents)
  pub revision_ids : Distinct (map revision_key c.revisions)
  pub owned :
      (r : RevisionRow)
      → In r c.revisions
      → (d : DocumentRow) × In d c.documents × (d.id ≡ r.snapshot.document_id)
  pub chain : (d : DocumentRow) → In d c.documents → IsChain d.current_revision_id (history c d.id)
  pub delivered :
      (d : DocumentRow)
      → In d c.documents
      → (id : Uuid) → d.published_revision_id ≡ some id
      → HasRevision c d.id id
  pub status : (d : DocumentRow) → In d c.documents → d.status ≡ status_of d.published_revision_id

-- The paths of the documents.
pub record IsRouted (c : Content) : Type 0 where
  pub route_keys : Distinct (map route_key c.routes)
  pub slugs :
      (d e : DocumentRow)
      → In d c.documents
      → In e c.documents
      → d.site_id ≡ e.site_id
      → d.current_slug ≡ e.current_slug
      → d.id ≡ e.id
  pub apart :
      (d : DocumentRow) (t : RouteRow)
      → In d c.documents
      → In t c.routes
      → t.site_id ≡ d.site_id
      → t.path ≡ d.current_slug
      → t.document_id ≡ d.id
