-- ===== src/Storage/Categories/Series.antt =====
-- The series of a category, of crates/storage-sqlite/src/lib.rs.
use open_soverign_blog.Prelude.{
  leb, ◌^◌, ok, ◌>>◌, ◌>>=◌, ◌==◌, ◌∷◌, [], ◌+◌, ◌&&◌, ◌||◌, not, none, some, ℕ, List, Bool, Result,
  any, ltb, take, reject_if, filter, find, length, leb,
}
use open_soverign_blog.Prelude.{max, ◌*◌}
use open_soverign_blog.Storage.Records.{
  not_found, validation, storage, message, Database, DocumentRow, SeriesRow, RepositoryError,
}
use open_soverign_blog.Text.{Text, codes}
use open_soverign_blog.Storage.Queries.{ensure_site_owner, load_category_by_id}
use open_soverign_blog.Kernel.Policy.{Uuid}
use open_soverign_blog.Storage.Publish.{is_published_in, series_position_step, i64_max, full_series}
use open_soverign_blog.Storage.Load.{order_by}
use open_soverign_blog.Storage.Categories.{create_category_in_transaction, CreateCategoryInput}

-- `series_position` of a `usize` index
unfoldable pub series_position : ℕ → Result ℕ RepositoryError
series_position index =
    let ordinal = (index + 1) * series_position_step in
    reject_if (leb (2 ^ 64) ordinal) (validation (message (codes "series position overflow")))
    >> reject_if (ltb i64_max ordinal)
        (validation (message (codes "out of range integral type conversion attempted")))
    >> ok ordinal

-- the documents that are published in the category, in the order of their creation
abbrev pub is_older : DocumentRow → DocumentRow → Bool
is_older d e = ltb d.created_at e.created_at || (d.created_at == e.created_at && ltb d.id e.id)

unfoldable pub published_members : Database → Uuid → Uuid → List DocumentRow
unfolding is_published_in order_by
published_members db site category =
    take 501 (order_by is_older (filter (is_published_in db site (some category)) db.documents))

-- A new series has no items yet, so no row repeats a key.
unfoldable pub insert_items :
    Uuid → Uuid → ℕ → ℕ → List DocumentRow → Database → Result Database RepositoryError
unfolding series_position
insert_items series site added_at index [] db = ok db
insert_items series site added_at index (d ∷ rows) db = series_position index >>= λ position.
    insert_items series site added_at (index + 1) rows (record db {
      series_items =
          record {
            series_id = series;
            site_id = site;
            document_id = d.id;
            position = position;
            added_at = added_at;
          }
          ∷ db.series_items;
    })

unfoldable pub backfill_series_items_in_transaction :
    Database → Uuid → Uuid → Uuid → ℕ → Result Database RepositoryError
unfolding published_members insert_items
backfill_series_items_in_transaction db site series category added_at = do
  let members = published_members db site category
  reject_if (ltb 500 (length members)) (validation (message full_series))
  insert_items series site added_at 0 members db

unfoldable pub max_home_position : List SeriesRow → ℕ
max_home_position [] = 0
max_home_position (s ∷ rows) = max s.home_position (max_home_position rows)

abbrev pub in_site : Uuid → SeriesRow → Bool
in_site site s = s.site_id == site

abbrev pub many_series : Text
many_series = codes "a site cannot contain more than 500 series"

abbrev pub already_series : Text
already_series = codes "the category is already a series"

-- The result is the row of the series; the code joins the columns of the category to it.
unfoldable pub create_series_for_category_in_transaction :
    Uuid → Uuid → Uuid → Uuid → ℕ → Database → Result (SeriesRow × Database) RepositoryError
unfolding load_category_by_id max_home_position backfill_series_items_in_transaction
create_series_for_category_in_transaction id owner site category now db = do
  _ ← load_category_by_id db site category
  let present = filter (in_site site) db.series
  reject_if (leb 500 (length present)) (validation (message many_series))
  let position = max_home_position present + series_position_step
  reject_if (ltb i64_max position) storage
  reject_if (any (λ s. s.id == id) db.series) storage
  reject_if (any (λ s. s.site_id == site && s.category_id == category) db.series)
      (validation (message already_series))
  reject_if (not (any (λ user. user == owner) db.users)) not_found
  let row : SeriesRow = record {
    id = id;
    site_id = site;
    category_id = category;
    home_position = position;
    created_by_user_id = owner;
    created_at = now;
    updated_at = now;
  }
  db1 ←
      backfill_series_items_in_transaction (record db { series = row ∷ db.series }) site id category
        now
  ok (row, db1)

unfoldable pub create_series :
    Uuid
    → Uuid
    → Uuid
    → Uuid
    → CreateCategoryInput
    → ℕ
    → Database
    → Result (SeriesRow × Database) RepositoryError
unfolding ensure_site_owner create_category_in_transaction create_series_for_category_in_transaction
create_series category_id id owner site input now db = do
  ensure_site_owner db owner site
  (category, db1) ← create_category_in_transaction category_id owner site input now db
  create_series_for_category_in_transaction id owner site category.id now db1

unfoldable pub promote_category_to_series :
    Uuid → Uuid → Uuid → Uuid → ℕ → Database → Result (SeriesRow × Database) RepositoryError
unfolding ensure_site_owner load_category_by_id create_series_for_category_in_transaction
promote_category_to_series id owner site category now db = do
  ensure_site_owner db owner site
  _ ← load_category_by_id db site category
  elim (find (λ s. s.category_id == category && s.site_id == site) db.series) [
    | some s ↦ ok (s, db)
    | none ↦ create_series_for_category_in_transaction id owner site category now db
  ]
