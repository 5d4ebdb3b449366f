-- ===== src/Storage/Guarantees/Published.antt =====
-- What a publication delivers.
use open_soverign_blog.Prelude.{
  ok, ◌==◌, ◌≡◌, ◌∷◌, [], ◌&&◌, true, some, if◌then◌else◌, refl, sym, ap, ◌∙◌, inl, inr, arith,
  Bool, List, ℕ, find, In, Result, Bool-cases, any, some-injective, subst, ==_iff, update_where,
  find-some, find-update_where, &&_iff, >>=-ok, ok-injective,
}
use open_soverign_blog.Storage.Load.{
  published, snapshot_of, load_document, get_published_by_slug, find_route, selected_revision,
}
use open_soverign_blog.Kernel.Content.{DocumentStatus, DocumentSnapshot}
use open_soverign_blog.Storage.Repository.{publish}
use open_soverign_blog.Storage.Records.{
  Database, DocumentRow, RevisionRow, RepositoryError, RouteRow,
}
use open_soverign_blog.Kernel.Policy.{Uuid}
use open_soverign_blog.Storage.Publish.{publish_in_transaction_at, publish_row}
use open_soverign_blog.Storage.Queries.{
  is_document, find_revision, revision_category_route_path, find_document, or_not_found, is_path,
}
use open_soverign_blog.Text.{Text}
use open_soverign_blog.Storage.Revisions.{update_document}
use open_soverign_blog.Storage.Simulation.Publish.{publication, find_revision-ok}
use open_soverign_blog.Storage.Simulation.{or_not_found-ok}

-- a search that asks for more finds the same row if that row has it
find_more :
    {A : Type 0} (p q : A → Bool) (xs : List A) (a : A)
    → find p xs ≡ some a
    → q a ≡ true
    → find (λ x. p x && q x) xs ≡ some a
find_more p q [] a h t = cc
find_more p q (x ∷ xs) a h t = elim (Bool-cases (p x)) [
  | inl e ↦
      let same : x ≡ a =
        some-injective _ _ (subst (λ b. (if b then some x else find p xs) ≡ some a) e h) in
      rw (e, ap q same ∙ t) (ap some same)
  | inr e ↦
      rw e (find_more p q xs a (subst (λ b. (if b then some x else find p xs) ≡ some a) e h) t)
]

any-in : {A : Type 0} (p : A → Bool) (xs : List A) (a : A) → In a xs → p a ≡ true → any p xs ≡ true
any-in p [] a i t = elim i [ ]
any-in p (x ∷ xs) a i t = elim i [
  | inl q ↦ rw (ap p q ∙ t) refl
  | inr j ↦ ground (arith, any-in p xs a j t)
]

-- the row of a document once a revision of it is published
loaded_row : Uuid → ℕ → DocumentRow → RevisionRow → DocumentSnapshot
loaded_row id now d r = snapshot_of published (publish_row id now d) r

module _ (document id : Uuid) (now : ℕ) (d : DocumentRow) (r : RevisionRow) (db : Database)
    (found : find (is_document document) db.documents ≡ some d)
    (stored : find_revision db document id ≡ some r) where
  of_document : d.id ≡ document
  of_document = (==_iff d.id document).0 (find-some (is_document document) db.documents d found).1

  new_row :
      find
        (is_document document)
        (update_where (is_document document) (publish_row id now) db.documents)
      ≡ some (publish_row id now d)
  new_row =
      find-update_where (is_document document) (is_document document) (publish_row id now)
        (λ a. refl) db.documents
      ∙ rw (found, (==_iff d.id document).1 of_document) refl

  load_published :
      load_document (update_document document (publish_row id now) db) document published
      ≡ ok (loaded_row id now d r)
  unfolding load_document find_document or_not_found selected_revision find_revision loaded_row
  load_published = rw new_row (
      rw
        (subst
          (λ x.
            find (λ r. r.snapshot.id == id && r.snapshot.document_id == x) db.revisions ≡ some r)
          (sym of_document) stored)
        refl)

  by_path :
      (path : Text) (t : RouteRow)
      → find (is_path d.site_id path) db.routes ≡ some t
      → t.document_id ≡ document
      → get_published_by_slug (update_document document (publish_row id now) db) d.site_id path
        ≡ ok (loaded_row id now d r)
  unfolding get_published_by_slug find_route or_not_found
  by_path path t h own =
      let (i, s) = find-some (is_path d.site_id path) db.routes t h in
      let site : t.site_id ≡ d.site_id = (==_iff _ _).0 (ground (arith, s)) in
      let documents = update_where (is_document document) (publish_row id now) db.documents in
      let (j, e) = find-some (is_document document) documents (publish_row id now d) new_row in
      let joined : any (λ e. e.id == t.document_id && e.site_id == t.site_id) documents ≡ true =
        any-in (λ e. e.id == t.document_id && e.site_id == t.site_id) documents
          (publish_row id now d) j
          ((&&_iff _ _).1 ((==_iff _ _).1 (of_document ∙ sym own), (==_iff _ _).1 (sym site))) in
      let q =
        find_more (is_path d.site_id path)
          (λ x. any (λ e. e.id == x.document_id && e.site_id == x.site_id) documents) db.routes t h
          joined in
      rw q (
        subst
          (λ x.
            load_document (update_document document (publish_row id now) db) x published
            ≡ ok (loaded_row id now d r))
          (sym own) load_published)

-- What the answer of a publication says, and that the path leads to it.
pub record IsDelivered (document id : Uuid) (db : Database)
    (answer : Result DocumentSnapshot RepositoryError) (db' : Database) : Type 0 where
  pub snapshot : DocumentSnapshot
  pub path : Text
  pub answered : answer ≡ ok snapshot
  pub of_document : snapshot.id ≡ document
  pub status : snapshot.status ≡ DocumentStatus.published
  pub delivered_id : snapshot.published_revision_id ≡ some id
  pub revision_id : snapshot.revision.id ≡ id
  pub route :
      revision_category_route_path db snapshot.site_id document id snapshot.revision.slug true
      ≡ ok path
  pub by_path : get_published_by_slug db' snapshot.site_id path ≡ ok snapshot

-- A publication that commits answers: with the document as published, the revision that was asked
-- for, and its own path, on which the document is then found.
pub publish-IsDelivered :
    (document id : Uuid) (now : ℕ) (answer : Result DocumentSnapshot RepositoryError)
    (db db' : Database)
    → publish document id now db ≡ ok (answer, db')
    → IsDelivered document id db answer db'
unfolding publish find_document find_revision loaded_row
publish-IsDelivered document id now answer db db' h =
    let (db1, at, h1) = >>=-ok (publish_in_transaction_at document id now db) _ (answer, db') h in
    let p = publication document id now db db1 at in
    let e = ok-injective _ _ h1 in
    let found =
      ap (λ c. find (is_document document) c.documents) p.kept ∙ or_not_found-ok _ _ p.row_found in
    let stored =
      ap (λ c. find (λ r. r.snapshot.id == id && r.snapshot.document_id == document) c.revisions)
        p.kept
      ∙ or_not_found-ok _ _ p.revision_found in
    let routes =
      ap (λ c. find (is_path p.row.site_id p.path) c.routes) p.kept
      ∙ or_not_found-ok _ _ p.route_found in
    let write = p.written ∙ ap (λ a. a.1) e in
    record {
      snapshot = loaded_row id now p.row p.revision;
      path = p.path;
      answered =
          ap (λ a. a.0) (sym e)
          ∙ ap (λ x. load_document x document published) (sym p.written)
          ∙ load_published document id now p.row p.revision p.itemised found stored;
      of_document = of_document document id now p.row p.revision p.itemised found stored;
      status = refl;
      delivered_id = refl;
      revision_id = (find_revision-ok db document id p.revision p.revision_found).1;
      route = p.path_found;
      by_path =
          ap (λ x. get_published_by_slug x p.row.site_id p.path) (sym write)
          ∙ by_path document id now p.row p.revision p.itemised found stored p.path p.route routes
              p.own_route;
    }
