-- ===== src/Storage/Simulation/Publish.antt =====
-- What `publish_in_transaction_at` does when it succeeds.
use open_soverign_blog.Prelude.{
  ok, ◌==◌, ◌≡◌, ◌+◌, ◌&&◌, not, true, none, some, if◌then◌else◌, sym, ap, ◌∙◌, inl, inr, ℕ, Option,
  In, >>=-ok, ok-injective, find-some, reject_if, Bool-cases, leb, any, &&_iff, ==_iff, subst, find,
  ltb, reject_if->>-ok, filter, update_where, ap₂, arith,
}
use open_soverign_blog.Storage.Steps.{Step, publish, content_of, Content, IsAvailable}
use open_soverign_blog.Storage.Records.{
  duplicate_slug, validation, storage, message, Database, RevisionRow, DocumentRow, SeriesRow,
  RouteRow,
}
use open_soverign_blog.Storage.Queries.{
  find_revision, find_document, or_not_found, revision_category_route_path, is_document, is_path,
}
use open_soverign_blog.Storage.Publish.{
  add_series_item, item_added, publish_in_transaction_at,
  ensure_series_item_for_revision_in_transaction, published_count, is_item, upsert_route,
  full_series, i64_max, max_position, series_of_placement, series_position_step, publish_row,
}
use open_soverign_blog.Kernel.Policy.{Uuid}
use open_soverign_blog.Storage.Simulation.{or_not_found-ok, IsAvailable-of}
use open_soverign_blog.Text.{Text}
use open_soverign_blog.Storage.Revisions.{update_document}

pub find_revision-ok :
    (db : Database) (document id : Uuid) (r : RevisionRow)
    → or_not_found (find_revision db document id) ≡ ok r
    → In r db.revisions × (r.snapshot.id ≡ id) × (r.snapshot.document_id ≡ document)
unfolding find_revision
find_revision-ok db document id r h =
    let (i, t) =
      find-some (λ r. r.snapshot.id == id && r.snapshot.document_id == document) db.revisions r
        (or_not_found-ok _ _ h) in
    let (p, q) = (&&_iff (r.snapshot.id == id) (r.snapshot.document_id == document)).0 t in
    (i, (==_iff _ _).0 p, (==_iff _ _).0 q)

pub find_document-ok :
    (db : Database) (id : Uuid) (d : DocumentRow)
    → or_not_found (find_document db id) ≡ ok d
    → In d db.documents × (d.id ≡ id)
unfolding find_document
find_document-ok db id d h =
    let (i, t) = find-some (is_document id) db.documents d (or_not_found-ok _ _ h) in
    (i, (==_iff d.id id).0 t)

add_series_item-content :
    (db db' : Database) (s : SeriesRow) (site document : Uuid) (now : ℕ)
    → add_series_item db s site document now ≡ ok db'
    → content_of db' ≡ content_of db
unfolding add_series_item
add_series_item-content db db' s site document now h =
    let (u, a, h1) =
      >>=-ok (reject_if (leb 500 (published_count db s)) (validation (message full_series))) _ db'
        h in
    let (v, b, h2) =
      >>=-ok
        (reject_if
          (ltb i64_max
            (max_position (filter (is_item s.id site) db.series_items) + series_position_step))
          storage)
        _ db' h1 in
    sym (ap content_of (ok-injective _ _ h2))

item_added-content :
    (db db' : Database) (site document : Uuid) (now : ℕ) (o : Option SeriesRow)
    → item_added db site document now o ≡ ok db'
    → content_of db' ≡ content_of db
unfolding item_added
item_added-content db db' site document now none h = sym (ap content_of (ok-injective _ _ h))
item_added-content db db' site document now (some s) h =
    elim (Bool-cases
      (any (λ item. is_item s.id site item && item.document_id == document) db.series_items)) [
        | inl e ↦ sym (
            ap content_of (
              ok-injective _ _ (
                subst (λ b. (if b then ok db else add_series_item db s site document now) ≡ ok db')
                  e h)))
        | inr e ↦ add_series_item-content db db' s site document now (
            subst (λ b. (if b then ok db else add_series_item db s site document now) ≡ ok db') e h)
      ]

abbrev pub routed : Database → Uuid → Text → Uuid → ℕ → Database
routed db site path document now = record db {
  routes = upsert_route db.routes site path document now;
}

-- What a transaction of a publication has found, and what it has written.
pub record Publication (document id : Uuid) (now : ℕ) (db db' : Database) : Type 0 where
  pub revision : RevisionRow
  pub row : DocumentRow
  pub path : Text
  pub route : RouteRow
  pub itemised : Database
  pub revision_found : or_not_found (find_revision db document id) ≡ ok revision
  pub row_found : or_not_found (find_document db document) ≡ ok row
  pub path_found :
      revision_category_route_path db row.site_id document id revision.snapshot.slug true ≡ ok path
  pub available : IsAvailable (content_of db) row.site_id document path
  pub route_found :
      or_not_found
        (find (is_path row.site_id path) (upsert_route db.routes row.site_id path document now))
      ≡ ok route
  pub own_route : route.document_id ≡ document
  pub kept : content_of itemised ≡ content_of (routed db row.site_id path document now)
  pub written : update_document document (publish_row id now) itemised ≡ db'

module _ (document id : Uuid) (now : ℕ) (db db' : Database) where
  pub publication :
      publish_in_transaction_at document id now db ≡ ok db' → Publication document id now db db'
  unfolding publish_in_transaction_at ensure_series_item_for_revision_in_transaction
  publication h =
      let (r, fr, h1) = >>=-ok (or_not_found (find_revision db document id)) _ db' h in
      let (d, fd, h2) = >>=-ok (or_not_found (find_document db document)) _ db' h1 in
      let (path, rou, h3) =
        >>=-ok (revision_category_route_path db d.site_id document id r.snapshot.slug true) _ db'
          h2 in
      let (a, h4) = IsAvailable-of db d.site_id document path _ _ h3 in
      let db1 = routed db d.site_id path document now in
      let (route, ro, h5) =
        >>=-ok (or_not_found (find (is_path d.site_id path) db1.routes)) _ db' h4 in
      let (own, h6) =
        reject_if->>-ok (not (route.document_id == document)) duplicate_slug _ db' h5 in
      let (db2, item, h7) =
        >>=-ok
          (item_added db1 d.site_id document now (series_of_placement db1 d.site_id document id)) _
          db' h6 in
      record {
        revision = r;
        row = d;
        path = path;
        route = route;
        itemised = db2;
        revision_found = fr;
        row_found = fd;
        path_found = rou;
        available = a;
        route_found = ro;
        own_route = (==_iff route.document_id document).0 (ground (arith, own));
        kept = item_added-content db1 db2 d.site_id document now _ item;
        written = ok-injective _ _ h7;
      }

  -- A successful publication is a step of the lifecycle.
  pub publish-ok :
      publish_in_transaction_at document id now db ≡ ok db' → Step (content_of db) (content_of db')
  publish-ok h =
      let p = publication h in
      let (stored, of_d) = find_document-ok db document p.row p.row_found in
      let (there, is_id, of_r) = find_revision-ok db document id p.revision p.revision_found in
      subst (Step _)
        (ap₂ {C = Content}
            (λ x y. record (content_of db) {
              documents = update_where (is_document x) (publish_row y now) db.documents;
              routes = upsert_route db.routes p.row.site_id p.path x now;
            })
            of_d is_id
          ∙ ap {B = Content}
              (λ (c : Content). record c {
                documents = update_where (is_document document) (publish_row id now) c.documents;
              })
              (sym p.kept)
          ∙ ap content_of p.written)
        (publish p.row p.revision p.path now (record {
          stored = stored;
          revision = there;
          of_document = of_r ∙ sym of_d;
          available = record {
            no_document = λ e i v w. p.available.no_document e i v w ∙ sym of_d;
            no_route = λ t i v w. p.available.no_route t i v w ∙ sym of_d;
          };
        }))
