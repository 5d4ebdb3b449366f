-- ===== src/Storage/Simulation/NewDocument.antt =====
-- What `create_document_in_transaction` does when it succeeds.
use open_soverign_blog.Prelude.{
  ok, ◌≡◌, ◌∷◌, none, some, if◌then◌else◌, refl, sym, ap, ◌∙◌, Option, In, ℕ, ◌≢◌, reject_if->>-ok,
  any, subst, ==_iff, ok-injective, any-false, >>=-ok, is_some,
}
use open_soverign_blog.Storage.Steps.{
  create, done, step_on, Content, content_of, IsNewRevision, Drafts,
}
use open_soverign_blog.Storage.Records.{duplicate_slug, Database, DocumentRow, RevisionRow}
use open_soverign_blog.Storage.Documents.{
  insert_document, assign_initial_category, create_document_in_transaction, first_revision,
  assign_revision_category_in_transaction, category_of, new_document_row,
}
use open_soverign_blog.Kernel.Content.{Library, RevisionSnapshot, NewDocument, DocumentSnapshot}
use open_soverign_blog.Kernel.Policy.{Uuid}
use open_soverign_blog.Text.{Text}
use open_soverign_blog.Storage.Queries.{
  is_document, ensure_root_slug_not_category, category_route_path,
}
use open_soverign_blog.Storage.Revisions.{
  with_computed_hash, load_active_category, insert_revision, store_revision,
}
use open_soverign_blog.Storage.Simulation.Create.{assign-ok}
use open_soverign_blog.Storage.Simulation.{IsAvailable-of, insert_revision-ok, draft_to}

insert_document-ok :
    (db db' : Database) (d : DocumentRow)
    → insert_document db d ≡ ok db'
    → ((e : DocumentRow) → In e db.documents → e.id ≢ d.id)
      × (record db { documents = d ∷ db.documents } ≡ db')
unfolding insert_document
insert_document-ok db db' d h =
    let (fresh, stored) =
      reject_if->>-ok (any (is_document d.id) db.documents) duplicate_slug
        (ok (record db { documents = d ∷ db.documents })) db' h in
    (
      λ e i q.
          cc (sym ((==_iff e.id d.id).1 q) ∙ any-false (is_document d.id) db.documents fresh e i),
      ok-injective _ _ stored,
    )

assign_initial-ok :
    (o : Option (Uuid × Uuid)) (site : Uuid) (r : RevisionSnapshot) (now : ℕ) (db db' : Database)
    → assign_initial_category o site r now db ≡ ok db'
    → {c : Content} → Drafts c (content_of db)
    → Drafts c (content_of db')
unfolding assign_initial_category
assign_initial-ok none site r now db db' h s =
    subst (Drafts _) (ap content_of (ok-injective _ _ h)) s
assign_initial-ok (some (actor, category)) site r now db db' h s =
    let ((p, db1), a, h1) =
      >>=-ok
        (assign_revision_category_in_transaction actor site r.document_id r.id (some category) now
          db)
        _ db' h in
    let step = assign-ok actor site r.document_id r.id (some category) now db db1 p a in
    subst (Drafts _) (ap content_of (ok-injective _ _ h1)) (step_on s step)

module _ (lib : Library) (document id : Uuid) (input : NewDocument) (now : ℕ)
    (initial : Option (Uuid × Uuid)) (key : Option Text) (db db' : Database)
    (snapshot : DocumentSnapshot) where
  -- A successful creation takes the tables to the new ones by steps of the lifecycle: the creation,
  -- then the move to the category if there is one.
  pub create-ok :
      create_document_in_transaction lib document id input now initial key db ≡ ok (snapshot, db')
      → Drafts (content_of db) (content_of db')
  unfolding create_document_in_transaction first_revision with_computed_hash
  create-ok h =
      let revision = first_revision lib input document id now in
      let (c, lc, h1) =
        >>=-ok (load_active_category db input.site_id (category_of initial)) _ (snapshot, db') h in
      let (u, root, h2) =
        >>=-ok
          (if is_some c then ok tt else ensure_root_slug_not_category db input.site_id input.slug) _
          (snapshot, db') h1 in
      let path = category_route_path c input.slug in
      let (a, h3) = IsAvailable-of db input.site_id document path _ _ h2 in
      let d = new_document_row input revision path now in
      let (db1, ins, h4) = >>=-ok (insert_document db d) _ (snapshot, db') h3 in
      let (db2, rev, h5) = >>=-ok (insert_revision db1 revision key) _ (snapshot, db') h4 in
      let (db3, ass, h6) =
        >>=-ok (assign_initial_category initial input.site_id revision now db2) _ (snapshot, db')
          h5 in
      let (new_id, c1) = insert_document-ok db db1 d ins in
      let (fresh, c2) = insert_revision-ok db1 db2 revision key rev in
      let row : RevisionRow = record { snapshot = revision; idempotency_key = key } in
      let first =
        draft_to
          (create d row (record {
            new_document = new_id;
            new_revision = subst (λ x. IsNewRevision (content_of x) row) (sym c1) fresh;
            current = refl;
            unpublished = refl;
            is_draft = refl;
            of_document = refl;
            number = refl;
            no_parent = refl;
            available = a;
          }))
          (ap (λ x. content_of (store_revision x revision key)) c1 ∙ sym c2) in
      subst (Drafts _) (ap (λ p. content_of p.1) (ok-injective _ _ h6))
        (assign_initial-ok initial input.site_id revision now db2 db3 ass (step_on done first))
