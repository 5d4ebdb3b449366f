-- ===== src/Storage/Journal.antt =====
-- What the storage promises, without tables: a journal that has, for every document, its site, its
-- revisions and the one that is delivered. Paths, categories and times are forgotten.
pub mod Refines
use open_soverign_blog.Prelude.{
  ok, err, ◌>>◌, ◌>>=◌, ◌==◌, ◌≡◌, ◌++◌, ◌∷◌, [], ◌+◌, ◌&&◌, ◌||◌, not, true, false, none, some,
  if◌then◌else◌, refl, sym, ap, ◌∙◌, inl, inr, ◌⊎◌, ◌↔◌, arith, List, Option, find, In, filter,
}
use open_soverign_blog.Storage.Records.{
  not_found, duplicate_slug, revision_conflict, duplicate_idempotency_key, validation, storage,
  content, envelope, message, active, archived, RevisionRow, DocumentRow,
}
use open_soverign_blog.Kernel.Policy.{Uuid}
use open_soverign_blog.Storage.Steps.{Content}
use open_soverign_blog.Storage.Queries.{is_document}
use open_soverign_blog.Storage.Load.{in_document}

pub record Entry : Type 0 where
  pub site_id : Uuid
  pub revisions : List RevisionRow
  pub delivered : Option Uuid

abbrev pub Journal : Type 0
Journal = Uuid → Option Entry

abbrev pub set : Uuid → Entry → Journal → Journal
set id e j x = if x == id then some e else j x

-- The acts that a journal allows: a document begins with its first revision, a revision is written
-- on top of the last one, and a revision that has been written is delivered.
pub data Act (j : Journal) : Journal → Type 0 where
  begin :
      (id site : Uuid) (r : RevisionRow)
      → j id ≡ none
      → r.snapshot.document_id ≡ id
      → r.snapshot.revision_number ≡ 1
      → r.snapshot.parent_revision_id ≡ none
      → Act j (set id (record { site_id = site; revisions = r ∷ []; delivered = none }) j)
  write :
      (id : Uuid) (e : Entry) (r s : RevisionRow) (older : List RevisionRow)
      → j id ≡ some e
      → e.revisions ≡ s ∷ older
      → r.snapshot.document_id ≡ id
      → r.snapshot.revision_number ≡ s.snapshot.revision_number + 1
      → r.snapshot.parent_revision_id ≡ some s.snapshot.id
      → Act j (set id (record e { revisions = r ∷ e.revisions }) j)
  deliver :
      (id : Uuid) (e : Entry) (r : RevisionRow)
      → j id ≡ some e
      → In r e.revisions
      → Act j (set id (record e { delivered = some r.snapshot.id }) j)

-- any number of acts
pub data Acts (j : Journal) : Journal → Type 0 where
  nothing : Acts j j
  act_on : {j' j'' : Journal} → Acts j j' → Act j' j'' → Acts j j''

abbrev pub entry_of : List RevisionRow → DocumentRow → Entry
entry_of revisions d = record {
  site_id = d.site_id;
  revisions = filter (in_document d.id) revisions;
  delivered = d.published_revision_id;
}

abbrev pub entry : List RevisionRow → Option DocumentRow → Option Entry
entry revisions none = none
entry revisions (some d) = some (entry_of revisions d)

-- the journal that the tables hold
abbrev pub journal_of : Content → Journal
journal_of c x = entry c.revisions (find (is_document x) c.documents)
