-- ===== src/Storage/Simulation/Create.antt =====
-- What `create_document_in_transaction` and `assign_revision_category_in_transaction` do when they
-- succeed.
use open_soverign_blog.Prelude.{
  ok, ◌==◌, ◌≡◌, ◌&&◌, not, false, none, some, if◌then◌else◌, sym, ap, ◌∙◌, arith, Option,
  is_some_and, ℕ, ◌≢◌, ==_iff, >>=-ok, find, reject_if->>-ok, is_some, some-injective, find-some,
  &&_iff, ok-injective, update_where, In,
}
use open_soverign_blog.Storage.Steps.{Draft, move, content_of, Content, IsAvailable}
use open_soverign_blog.Storage.Records.{
  revision_conflict, validation, message, Database, RevisionCategoryPlacement, DocumentRow,
}
use open_soverign_blog.Kernel.Policy.{Uuid}
use open_soverign_blog.Storage.Documents.{
  assign_revision_category_in_transaction, published_placement, moved_document, is_current_in,
  move_document,
}
use open_soverign_blog.Storage.Queries.{
  or_not_found, find_revision, category_route_path, ensure_root_slug_not_category,
  load_revision_category_placement,
}
use open_soverign_blog.Storage.Revisions.{load_active_category, move_placement}
use open_soverign_blog.Storage.Simulation.{
  IsAvailable-of, or_not_found-ok, move_placement-content, draft_to,
}
use open_soverign_blog.Text.{Text}

not_shown : (o : Option Uuid) (id : Uuid) → is_some_and o (λ p. p == id) ≡ false → o ≢ some id
not_shown none id h e = cc e
not_shown (some p) id h e = cc (h, (==_iff p id).1 (some-injective _ _ e))

abbrev moved : Uuid → Uuid → Uuid → Text → ℕ → Content → Content
moved document site revision path now c = record c {
  documents =
      update_where (is_current_in document site revision) (move_document path now) c.documents;
}

module _ (c : Content) (d : DocumentRow) (path : Text) (now : ℕ) where
  move_step :
      (document site revision : Uuid)
      → In d c.documents
      → d.id ≡ document
      → d.site_id ≡ site
      → d.current_revision_id ≡ revision
      → d.published_revision_id ≢ some d.current_revision_id
      → IsAvailable c site document path
      → Draft c (moved document site revision path now c)
  move_step document site revision i of_d of_site of_r n a =
      draft_to
        (move d path now (record {
          stored = i;
          not_delivered = n;
          available = record {
            no_document = λ e j v w. a.no_document e j (v ∙ of_site) w ∙ sym of_d;
            no_route = λ t j v w. a.no_route t j (v ∙ of_site) w ∙ sym of_d;
          };
        }))
        (ap (λ k. moved k d.site_id d.current_revision_id path now c) of_d
          ∙ ap (λ k. moved document k d.current_revision_id path now c) of_site
          ∙ ap (λ k. moved document site k path now c) of_r)

module _ (actor site document revision : Uuid) (category : Option Uuid) (now : ℕ)
    (db db' : Database) (placement : RevisionCategoryPlacement) where
  -- A successful assignment is a step of the lifecycle.
  pub assign-ok :
      assign_revision_category_in_transaction actor site document revision category now db
        ≡ ok (placement, db')
      → Draft (content_of db) (content_of db')
  unfolding assign_revision_category_in_transaction
  assign-ok h =
      let (d, fd, h1) =
        >>=-ok (or_not_found (find (λ d. d.id == document && d.site_id == site) db.documents)) _
          (placement, db') h in
      let (same, h2) =
        reject_if->>-ok (not (d.current_revision_id == revision)) revision_conflict _
          (placement, db') h1 in
      let (shown, h3) =
        reject_if->>-ok (is_some_and d.published_revision_id (λ p. p == d.current_revision_id))
          (validation (message published_placement)) _ (placement, db') h2 in
      let (c, lc, h4) = >>=-ok (load_active_category db site category) _ (placement, db') h3 in
      let (r, fr, h5) =
        >>=-ok (or_not_found (find_revision db document revision)) _ (placement, db') h4 in
      let path = category_route_path c r.snapshot.slug in
      let (a, h6) = IsAvailable-of db site document path _ _ h5 in
      let (u, root, h7) =
        >>=-ok (if is_some c then ok tt else ensure_root_slug_not_category db site r.snapshot.slug)
          _ (placement, db') h6 in
      let (db1, mv, h8) =
        >>=-ok (move_placement db actor site document revision category now) _ (placement, db')
          h7 in
      let db2 = moved_document db1 site document revision path now in
      let (p, lp, h9) =
        >>=-ok (load_revision_category_placement db2 site document revision) _ (placement, db')
          h8 in
      let (i, t) =
        find-some (λ d. d.id == document && d.site_id == site) db.documents d
          (or_not_found-ok _ _ fd) in
      let (t1, t2) = (&&_iff (d.id == document) (d.site_id == site)).0 t in
      let of_d : d.id ≡ document = (==_iff _ _).0 t1 in
      let of_site : d.site_id ≡ site = (==_iff _ _).0 t2 in
      let of_r : d.current_revision_id ≡ revision = (==_iff _ _).0 (ground (arith, same)) in
      draft_to
        (move_step (content_of db) d path now document site revision i of_d of_site of_r
          (not_shown d.published_revision_id d.current_revision_id shown) a)
        (sym (
            ap (moved document site revision path now)
              (move_placement-content db db1 actor site document revision category now mv))
          ∙ ap (λ p. content_of p.1) (ok-injective _ _ h9))
