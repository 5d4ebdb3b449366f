-- ===== src/Storage/Publish.antt =====
-- `publish_in_transaction_at` of crates/storage-sqlite/src/lib.rs, with the item that it adds to a
-- series.
use open_soverign_blog.Prelude.{
  ok, ◌>>◌, ◌>>=◌, ◌==◌, ◌∷◌, [], ◌+◌, ◌&&◌, not, true, false, none, some, if◌then◌else◌, ℕ, List,
  Option, ◌^◌, Result, Bool, length, max, ◌-◌, find, update_where, is_some_and, filter, reject_if,
  any, leb, ltb,
}
use open_soverign_blog.Kernel.Content.{DocumentStatus}
use open_soverign_blog.Storage.Records.{
  duplicate_slug, validation, storage, message, Database, SeriesItemRecord, SeriesRow, RouteRow,
  DocumentRow, RepositoryError,
}
use open_soverign_blog.Kernel.Policy.{Uuid}
use open_soverign_blog.Text.{Text, codes}
use open_soverign_blog.Storage.Queries.{
  or_not_found, find_revision, find_document, is_placed, revision_category_route_path,
  is_archived_document, is_path, ensure_document_route_available,
}
use open_soverign_blog.Storage.Revisions.{update_document}

abbrev pub series_position_step : ℕ
series_position_step = 1024

abbrev pub is_item : Uuid → Uuid → SeriesItemRecord → Bool
is_item series site item = item.series_id == series && item.site_id == site

-- a document of the site that is published in the category
unfoldable pub is_published_in : Database → Uuid → Option Uuid → DocumentRow → Bool
is_published_in db site category d =
    d.site_id == site
    && is_some_and d.published_revision_id (λ p.
      any
        (λ q.
          is_placed site d.id p q
          && is_some_and q.category_id (λ c. is_some_and category (λ k. c == k)))
        db.revision_categories)
    && not (is_archived_document d.status)

-- the published documents of a series
unfoldable pub published_count : Database → SeriesRow → ℕ
unfolding is_published_in
published_count db series = length (
    filter
      (λ item.
        is_item series.id series.site_id item
        && any
            (λ d.
              d.id == item.document_id
              && is_published_in db series.site_id (some series.category_id) d)
            db.documents)
      db.series_items)

-- `COALESCE(MAX(position), 0)`
unfoldable pub max_position : List SeriesItemRecord → ℕ
max_position [] = 0
max_position (item ∷ items) = max item.position (max_position items)

abbrev pub full_series : Text
full_series = codes "a series cannot contain more than 500 published documents"

abbrev pub i64_max : ℕ
i64_max = 2 ^ 63 - 1

-- the series that the placement of a revision lies in
unfoldable pub series_of_placement : Database → Uuid → Uuid → Uuid → Option SeriesRow
series_of_placement db site document revision =
    elim (find (is_placed site document revision) db.revision_categories) [
      | none ↦ none
      | some p ↦
          find (λ s. s.site_id == site && is_some_and p.category_id (λ c. s.category_id == c))
            db.series
    ]

-- A position above the largest `i64` turns the sum of SQLite into a real number, which the query does
-- not return as an `i64`.
unfoldable pub add_series_item :
    Database → SeriesRow → Uuid → Uuid → ℕ → Result Database RepositoryError
unfolding published_count max_position
add_series_item db series site document now = do
  reject_if (leb 500 (published_count db series)) (validation (message full_series))
  let position =
      max_position (filter (is_item series.id site) db.series_items) + series_position_step
  reject_if (ltb i64_max position) storage
  ok (record db {
    series_items =
        record {
          series_id = series.id;
          site_id = site;
          document_id = document;
          position = position;
          added_at = now;
        }
        ∷ db.series_items;
  })

-- what follows the search for the series
unfoldable pub item_added :
    Database → Uuid → Uuid → ℕ → Option SeriesRow → Result Database RepositoryError
unfolding add_series_item
item_added db site document now none = ok db
item_added db site document now (some series) =
    if any (λ item. is_item series.id site item && item.document_id == document) db.series_items
    then ok db
    else add_series_item db series site document now

unfoldable pub ensure_series_item_for_revision_in_transaction :
    Database → Uuid → Uuid → Uuid → ℕ → Result Database RepositoryError
unfolding series_of_placement item_added
ensure_series_item_for_revision_in_transaction db site document revision now =
    item_added db site document now (series_of_placement db site document revision)

-- the conflict clause of `INSERT INTO routes`
abbrev pub keep_owner : Uuid → RouteRow → RouteRow
keep_owner document r = if r.document_id == document then record r { is_canonical = true } else r

-- the routes after both statements: no other route of the document is canonical any more
unfoldable pub upsert_route : List RouteRow → Uuid → Text → Uuid → ℕ → List RouteRow
upsert_route routes site path document now =
    let plain =
      update_where (λ r. r.document_id == document) (λ r. record r { is_canonical = false })
        routes in
    if any (is_path site path) plain
    then update_where (is_path site path) (keep_owner document) plain
    else record {
      site_id = site;
      path = path;
      document_id = document;
      is_canonical = true;
      created_at = now;
    }
      ∷ plain

abbrev pub publish_row : Uuid → ℕ → DocumentRow → DocumentRow
publish_row revision now d = record d {
  status = DocumentStatus.published;
  published_revision_id = some revision;
  updated_at = now;
}

unfoldable pub publish_in_transaction_at :
    Uuid → Uuid → ℕ → Database → Result Database RepositoryError
unfolding or_not_found find_revision find_document revision_category_route_path
    ensure_document_route_available ensure_series_item_for_revision_in_transaction upsert_route
publish_in_transaction_at document revision now db = do
  r ← or_not_found (find_revision db document revision)
  d ← or_not_found (find_document db document)
  path ← revision_category_route_path db d.site_id document revision r.snapshot.slug true
  ensure_document_route_available db d.site_id document path
  let db1 = record db { routes = upsert_route db.routes d.site_id path document now }
  route ← or_not_found (find (is_path d.site_id path) db1.routes)
  reject_if (not (route.document_id == document)) duplicate_slug
  db2 ← ensure_series_item_for_revision_in_transaction db1 d.site_id document revision now
  ok (update_document document (publish_row revision now) db2)
