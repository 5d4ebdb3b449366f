-- ===== src/Storage/Simulation/Append.antt =====
-- What `append_revision_in_transaction_with_category` does when it succeeds.
use open_soverign_blog.Prelude.{
  ok, ◌==◌, ◌≡◌, ◌+◌, not, false, some, sym, ap, ◌∙◌, arith, ℕ, Option, >>=-ok, reject_if->>-ok,
  subst, ok-injective, update_where, ==_iff,
}
use open_soverign_blog.Storage.Steps.{append, IsAvailable, Content, IsNewRevision}
use open_soverign_blog.Storage.Steps.{append}
use open_soverign_blog.Storage.Records.{Database, RevisionRow, DocumentRow}
use open_soverign_blog.Kernel.Content.{Library, ProposedRevision, RevisionSnapshot}
use open_soverign_blog.Kernel.Policy.{Uuid}
use open_soverign_blog.Storage.Revisions.{
  append_revision_in_transaction_with_category, revision_of, with_computed_hash, valid_content,
  current_of, insert_revision, assign_new_revision, update_document, point_to_revision,
  store_revision,
}
use open_soverign_blog.Storage.Steps.{Draft}
use open_soverign_blog.Storage.Steps.{content_of}
use open_soverign_blog.Storage.Simulation.{
  IsAvailable-of, current_of-ok, insert_revision-ok, assign_new_revision-content, draft_to,
}
use open_soverign_blog.Kernel.Content.Document.{validate_proposed}
use open_soverign_blog.Storage.Queries.{revision_category_route_path, is_document}
use open_soverign_blog.Text.{Text}

-- What a transaction that appends a revision has found, and what it has written.
pub record Appending (lib : Library) (id : Uuid) (input : ProposedRevision) (now : ℕ)
    (db : Database) (r : RevisionSnapshot) (db' : Database) : Type 0 where
  pub row : DocumentRow
  pub number : ℕ
  pub path : Text
  pub current_found : current_of db input.document_id ≡ ok (row, number)
  pub base : row.current_revision_id ≡ input.base_revision_id
  pub revision : revision_of lib input id (number + 1) now ≡ r
  pub is_new :
      IsNewRevision
        (content_of db)
        (record { snapshot = r; idempotency_key = input.idempotency_key })
  pub available : IsAvailable (content_of db) row.site_id input.document_id path
  pub written :
      content_of (
        update_document input.document_id
          (point_to_revision r path)
          (store_revision db r input.idempotency_key))
      ≡ content_of db'

module _ (lib : Library) (id : Uuid) (input : ProposedRevision) (now : ℕ)
    (category : Option (Uuid × Option Uuid)) (db db' : Database) (r : RevisionSnapshot) where
  pub appending :
      append_revision_in_transaction_with_category lib id input now category db ≡ ok (r, db')
      → Appending lib id input now db r db'
  unfolding append_revision_in_transaction_with_category revision_of with_computed_hash
  appending h =
      let (u, valid, h1) = >>=-ok (valid_content (validate_proposed lib input)) _ (r, db') h in
      let ((d, n), cur, h2) = >>=-ok (current_of db input.document_id) _ (r, db') h1 in
      let (same, h3) =
        reject_if->>-ok (not (d.current_revision_id == input.base_revision_id)) _ _ (r, db') h2 in
      let revision = revision_of lib input id (n + 1) now in
      let (db1, ins, h4) =
        >>=-ok (insert_revision db revision input.idempotency_key) _ (r, db') h3 in
      let (db2, ass, h5) =
        >>=-ok (assign_new_revision db1 d.site_id revision now category) _ (r, db') h4 in
      let (path, rou, h6) =
        >>=-ok (revision_category_route_path db2 d.site_id input.document_id id input.slug false) _
          (r, db') h5 in
      let (free, h7) = IsAvailable-of db2 d.site_id input.document_id path _ _ h6 in
      let (fresh, c1) = insert_revision-ok db db1 revision input.idempotency_key ins in
      let c2 = assign_new_revision-content db1 db2 d.site_id revision now category ass ∙ c1 in
      let a = subst (λ c. IsAvailable c d.site_id input.document_id path) c2 free in
      let e = ok-injective _ _ h7 in
      let is_r : revision ≡ r = ap (λ p. p.0) e in
      record {
        row = d;
        number = n;
        path = path;
        current_found = cur;
        base = (==_iff _ _).0 (ground (arith, same));
        revision = is_r;
        is_new =
            subst
              (λ x.
                IsNewRevision (content_of db)
                  (record { snapshot = x; idempotency_key = input.idempotency_key }))
              is_r fresh;
        available = record { no_document = a.no_document; no_route = a.no_route };
        written =
            ap
              (λ x. content_of (
                update_document input.document_id (point_to_revision x path)
                  (store_revision db x input.idempotency_key)))
              (sym is_r)
            ∙ ap {B = Content}
                (λ (c : Content). record c {
                  documents =
                      update_where (is_document input.document_id) (point_to_revision revision path)
                        c.documents;
                })
                (sym c2)
            ∙ ap (λ p. content_of p.1) e;
      }

  -- An appended revision is a step of the lifecycle: it follows the current revision of its document
  -- and takes its place.
  pub append-ok :
      append_revision_in_transaction_with_category lib id input now category db ≡ ok (r, db')
      → Draft (content_of db) (content_of db')
  unfolding revision_of with_computed_hash
  append-ok h =
      let p = appending h in
      let (stored, of_input, (s, base, is_current, number)) =
        current_of-ok db input.document_id p.row p.number p.current_found in
      let row : RevisionRow = record { snapshot = r; idempotency_key = input.idempotency_key } in
      draft_to
        (append p.row row s p.path (record {
          stored = stored;
          base = base;
          current = is_current;
          new_revision = p.is_new;
          of_document = ap (λ x. x.document_id) (sym p.revision) ∙ sym of_input;
          number = ap (λ x. x.revision_number) (sym p.revision) ∙ ap (λ k. k + 1) (sym number);
          parent = ap (λ x. x.parent_revision_id) (sym p.revision) ∙ ap some (sym p.base);
          available = record {
            no_document = λ e i v w. p.available.no_document e i v w ∙ sym of_input;
            no_route = λ t i v w. p.available.no_route t i v w ∙ sym of_input;
          };
        }))
        (ap {B = Content}
            (λ x. record (content_of (store_revision db r input.idempotency_key)) {
              documents = update_where (is_document x) (point_to_revision r p.path) db.documents;
            })
            of_input
          ∙ p.written)
