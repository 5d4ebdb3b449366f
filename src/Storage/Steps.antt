-- ===== src/Storage/Steps.antt =====
-- The document lifecycle of crates/storage-sqlite/src/lib.rs as a step relation on the three tables
-- that say which documents there are, what they contain and where they are found.
use open_soverign_blog.Prelude.{◌≡◌, ◌∷◌, ◌+◌, none, some, List, In, ◌≢◌, update_where, ℕ}
use open_soverign_blog.Kernel.Content.{draft}
use open_soverign_blog.Storage.Records.{Database, RevisionRow, DocumentRow, RouteRow}
use open_soverign_blog.Kernel.Policy.{Uuid}
use open_soverign_blog.Text.{Text}
use open_soverign_blog.Storage.Queries.{is_document}
use open_soverign_blog.Storage.Revisions.{point_to_revision}
use open_soverign_blog.Storage.Documents.{is_current_in, move_document}
use open_soverign_blog.Storage.Publish.{publish_row, upsert_route}

pub record Content : Type 0 where
  pub documents : List DocumentRow
  pub revisions : List RevisionRow
  pub routes : List RouteRow

abbrev pub content_of : Database → Content
content_of db = record { documents = db.documents; revisions = db.revisions; routes = db.routes }

-- What `ensure_document_route_available` tests.
pub record IsAvailable (c : Content) (site document : Uuid) (path : Text) : Type 0 where
  pub no_document :
      (d : DocumentRow)
      → In d c.documents
      → d.site_id ≡ site
      → d.current_slug ≡ path
      → d.id ≡ document
  pub no_route :
      (t : RouteRow) → In t c.routes → t.site_id ≡ site → t.path ≡ path → t.document_id ≡ document

abbrev pub IsNewRevision : Content → RevisionRow → Type 0
IsNewRevision c r = (s : RevisionRow) → In s c.revisions → s.snapshot.id ≢ r.snapshot.id

pub record CanCreate (c : Content) (d : DocumentRow) (r : RevisionRow) : Type 0 where
  pub new_document : (e : DocumentRow) → In e c.documents → e.id ≢ d.id
  pub new_revision : IsNewRevision c r
  pub current : d.current_revision_id ≡ r.snapshot.id
  pub unpublished : d.published_revision_id ≡ none
  pub is_draft : d.status ≡ draft
  pub of_document : r.snapshot.document_id ≡ d.id
  pub number : r.snapshot.revision_number ≡ 1
  pub no_parent : r.snapshot.parent_revision_id ≡ none
  pub available : IsAvailable c d.site_id d.id d.current_slug

pub record CanAppend (c : Content) (d : DocumentRow) (r s : RevisionRow) (path : Text)
    : Type 0 where
  pub stored : In d c.documents
  pub base : In s c.revisions
  pub current : s.snapshot.id ≡ d.current_revision_id
  pub new_revision : IsNewRevision c r
  pub of_document : r.snapshot.document_id ≡ d.id
  pub number : r.snapshot.revision_number ≡ s.snapshot.revision_number + 1
  pub parent : r.snapshot.parent_revision_id ≡ some d.current_revision_id
  pub available : IsAvailable c d.site_id d.id path

pub record CanMove (c : Content) (d : DocumentRow) (path : Text) : Type 0 where
  pub stored : In d c.documents
  pub not_delivered : d.published_revision_id ≢ some d.current_revision_id
  pub available : IsAvailable c d.site_id d.id path

pub record CanPublish (c : Content) (d : DocumentRow) (r : RevisionRow) (path : Text) : Type 0 where
  pub stored : In d c.documents
  pub revision : In r c.revisions
  pub of_document : r.snapshot.document_id ≡ d.id
  pub available : IsAvailable c d.site_id d.id path

-- what a writer does: nothing of it changes what is published
pub data Draft (c : Content) : Content → Type 0 where
  create :
      (d : DocumentRow) (r : RevisionRow)
      → CanCreate c d r
      → Draft c (record c { documents = d ∷ c.documents; revisions = r ∷ c.revisions })
  append :
      (d : DocumentRow) (r s : RevisionRow) (path : Text)
      → CanAppend c d r s path
      → Draft c (record c {
        documents = update_where (is_document d.id) (point_to_revision r.snapshot path) c.documents;
        revisions = r ∷ c.revisions;
      })
  move :
      (d : DocumentRow) (path : Text) (now : ℕ)
      → CanMove c d path
      → Draft c (record c {
        documents =
            update_where
              (is_current_in d.id d.site_id d.current_revision_id)
              (move_document path now)
              c.documents;
      })

pub data Step (c : Content) : Content → Type 0 where
  edit : {c' : Content} → Draft c c' → Step c c'
  publish :
      (d : DocumentRow) (r : RevisionRow) (path : Text) (now : ℕ)
      → CanPublish c d r path
      → Step c (record c {
        documents = update_where (is_document d.id) (publish_row r.snapshot.id now) c.documents;
        routes = upsert_route c.routes d.site_id path d.id now;
      })

-- any number of steps
pub data Star (R : Content → Content → Type 0) (c : Content) : Content → Type 0 where
  done : Star R c c
  step_on : {c' c'' : Content} → Star R c c' → R c' c'' → Star R c c''

abbrev pub Drafts : Content → Content → Type 0
Drafts = Star Draft

abbrev pub Steps : Content → Content → Type 0
Steps = Star Step

pub edits : {c c' : Content} → Drafts c c' → Steps c c'
edits done = done
edits (step_on s d) = step_on (edits s) (edit d)
