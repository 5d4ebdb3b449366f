-- ===== src/Storage/Guarantees/Shown.antt =====
-- What a reader of a document is delivered, and what a change of other rows leaves of it.
use open_soverign_blog.Prelude.{
  ok, err, ◌==◌, ◌≡◌, ◌&&◌, none, some, refl, inl, inr, Result, List, Option, Bool, find,
  Option-cases, ◌≢◌, Bool-cases, ℕ, ◌∷◌, false, subst, ==_iff, if◌then◌else◌, &&_iff,
}
use open_soverign_blog.Storage.Load.{published, load_document, snapshot_of, selected_revision}
use open_soverign_blog.Storage.Records.{
  not_found, DocumentRow, RepositoryError, RevisionRow, Database,
}
use open_soverign_blog.Kernel.Content.{DocumentSnapshot}
use open_soverign_blog.Kernel.Policy.{Uuid}
use open_soverign_blog.Storage.Queries.{
  find_document, or_not_found, find_revision, is_document, is_archived_document,
}
use open_soverign_blog.Text.{Text}

-- a loaded document but for the identifier of its current revision
abbrev pub delivered : DocumentSnapshot → DocumentSnapshot
delivered s = record s { current_revision_id = 0 }

abbrev pub delivery :
    Result DocumentSnapshot RepositoryError → Result DocumentSnapshot RepositoryError
delivery (ok s) = ok (delivered s)
delivery (err e) = err e

abbrev is_row : Uuid → Uuid → RevisionRow → Bool
is_row id document r = r.snapshot.id == id && r.snapshot.document_id == document

-- what `load_document` makes of the row of a document
unfoldable pub loaded_revision :
    DocumentRow → Option RevisionRow → Result DocumentSnapshot RepositoryError
loaded_revision d none = err not_found
loaded_revision d (some r) = ok (delivered (snapshot_of published d r))

unfoldable pub loaded :
    List RevisionRow → DocumentRow → Option Uuid → Result DocumentSnapshot RepositoryError
unfolding loaded_revision
loaded revisions d none = err not_found
loaded revisions d (some id) = loaded_revision d (find (is_row id d.id) revisions)

unfoldable pub shown :
    List RevisionRow → Option DocumentRow → Result DocumentSnapshot RepositoryError
unfolding loaded
shown revisions none = err not_found
shown revisions (some d) = loaded revisions d (selected_revision published d)

pub delivery-load :
    (db : Database) (x : Uuid)
    → delivery (load_document db x published)
      ≡ shown db.revisions (find (is_document x) db.documents)
unfolding load_document find_document or_not_found selected_revision find_revision shown loaded
    loaded_revision
delivery-load db x = elim (Option-cases (find (is_document x) db.documents)) [
  | inl e ↦ rw e refl
  | inr (d, e) ↦ rw e (elim (Option-cases (selected_revision published d)) [
    | inl n ↦ rw n refl
    | inr (id, n) ↦ rw n (elim (Option-cases (find (is_row id d.id) db.revisions)) [
      | inl m ↦ rw m refl
      | inr (r, m) ↦ rw m refl
    ])
  ])
]

-- the columns of a document that the delivery does not read
moved_loaded :
    (revisions : List RevisionRow) (d : DocumentRow) (id : Uuid) (path : Text) (now : ℕ)
    (o : Option Uuid)
    → loaded revisions
        (record d { current_revision_id = id; current_slug = path; updated_at = now })
        o
      ≡ loaded revisions d o
unfolding loaded loaded_revision
moved_loaded revisions d id path now none = refl
moved_loaded revisions d id path now (some k) =
    elim (Option-cases (find (is_row k d.id) revisions)) [
      | inl m ↦ rw m refl
      | inr (r, m) ↦ rw m refl
    ]

pub moved_shown :
    (revisions : List RevisionRow) (d : DocumentRow) (id : Uuid) (path : Text) (now : ℕ)
    → shown revisions
        (some (record d { current_revision_id = id; current_slug = path; updated_at = now }))
      ≡ shown revisions (some d)
unfolding shown selected_revision
moved_shown revisions d id path now = moved_loaded revisions d id path now _

pub newer_loaded :
    (r : RevisionRow) (revisions : List RevisionRow) (d : DocumentRow) (o : Option Uuid)
    → ((id : Uuid) → o ≡ some id → r.snapshot.id ≢ id)
    → loaded (r ∷ revisions) d o ≡ loaded revisions d o
unfolding loaded
newer_loaded r revisions d none h = refl
newer_loaded r revisions d (some id) h =
    let n : is_row id d.id r ≡ false = elim (Bool-cases (is_row id d.id r)) [
      | inl t ↦
          absurd (h id refl ((==_iff _ _).0 ((&&_iff _ (r.snapshot.document_id == d.id)).0 t).0))
      | inr f ↦ f
    ] in
    rw n refl

pub selected-some :
    (d : DocumentRow) (id : Uuid)
    → selected_revision published d ≡ some id
    → d.published_revision_id ≡ some id
unfolding selected_revision
selected-some d id h = elim (Bool-cases (is_archived_document d.status)) [
  | inl e ↦
      let q : none ≡ some id =
        subst (λ b. (if b then none else d.published_revision_id) ≡ some id) e h in
      cc q
  | inr e ↦ subst (λ b. (if b then none else d.published_revision_id) ≡ some id) e h
]
