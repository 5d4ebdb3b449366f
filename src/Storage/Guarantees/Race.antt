-- ===== src/Storage/Guarantees/Race.antt =====
-- Of two writers with the same base, one comes too late.
use open_soverign_blog.Prelude.{
  ok, err, ◌==◌, ◌≡◌, none, some, refl, sym, ap, ◌∙◌, ℕ, >>=-ok, find, find-update_where, ==_iff,
}
use open_soverign_blog.Storage.Records.{revision_conflict, Database, DocumentRow}
use open_soverign_blog.Kernel.Content.{Library, ProposedRevision, RevisionSnapshot}
use open_soverign_blog.Storage.Repository.{append_revision}
use open_soverign_blog.Kernel.Policy.{Uuid}
use open_soverign_blog.Storage.Revisions.{current_of, valid_content, point_to_revision}
use open_soverign_blog.Storage.Queries.{find_document, or_not_found, is_document}
use open_soverign_blog.Kernel.Content.Document.{validate_proposed}
use open_soverign_blog.Storage.Simulation.Append.{Appending, appending}
use open_soverign_blog.Storage.Simulation.{current_of-ok, current_row}
use open_soverign_blog.Storage.Guarantees.Conflict.{append_revision-conflict_iff}

module _ (lib : Library) (id : Uuid) (input : ProposedRevision) (now : ℕ) (db db' : Database)
    (r : RevisionSnapshot) where
  current_after :
      Appending lib id input now db r db'
      → (d : DocumentRow) × (current_of db' input.document_id ≡ ok (d, r.revision_number))
        × (d.current_revision_id ≡ r.id)
  unfolding current_of find_document or_not_found
  current_after p =
      let (i, is_input, _) = current_of-ok db input.document_id p.row p.number p.current_found in
      let f = point_to_revision r p.path in
      let found = current_row db input.document_id p.row p.number p.current_found in
      let documents : find (is_document input.document_id) db'.documents ≡ some (f p.row) =
        ap (λ c. find (is_document input.document_id) c.documents) (sym p.written)
        ∙ find-update_where (is_document input.document_id) (is_document input.document_id) f
            (λ a. refl) db.documents
        ∙ rw (found, (==_iff _ _).1 is_input) refl in
      let revisions : find (λ s. s.snapshot.id == r.id) db'.revisions
          ≡ some (record { snapshot = r; idempotency_key = input.idempotency_key }) =
        ap (λ c. find (λ s. s.snapshot.id == r.id) c.revisions) (sym p.written)
        ∙ rw ((==_iff r.id r.id).1 refl) refl in
      (f p.row, rw documents (rw revisions refl), refl)

-- Once a revision has been appended, every other proposal with valid content and the same base for
-- the same document is turned away as stale.
pub append_revision-once :
    (lib : Library) (id id' : Uuid) (input input' : ProposedRevision) (now now' : ℕ)
    (db db' : Database) (r : RevisionSnapshot)
    → append_revision lib id input now db ≡ ok (r, db')
    → input'.document_id ≡ input.document_id
    → input'.base_revision_id ≡ input.base_revision_id
    → validate_proposed lib input' ≡ ok tt
    → append_revision lib id' input' now' db' ≡ err revision_conflict
unfolding append_revision
append_revision-once lib id id' input input' now now' db db' r h same_document same_base valid =
    let (u, c, h1) = >>=-ok (valid_content (validate_proposed lib input)) _ (r, db') h in
    let p = appending lib id input now none db db' r h1 in
    let (d, q, e) = current_after lib id input now db db' r p in
    let (i, is_input, (s, j, is_current, _)) =
      current_of-ok db input.document_id p.row p.number p.current_found in
    (append_revision-conflict_iff lib id' input' now' db').1 (
      valid,
      (
        (d, r.revision_number),
        ap (current_of db') same_document ∙ q,
        λ stale. p.is_new s j (is_current ∙ p.base ∙ sym same_base ∙ sym stale ∙ e),
      ),
    )
