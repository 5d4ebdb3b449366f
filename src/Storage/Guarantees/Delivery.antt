-- ===== src/Storage/Guarantees/Delivery.antt =====
-- That drafts stay out of what is delivered.
use open_soverign_blog.Storage.Requests.{run}
use open_soverign_blog.Storage.Steps.{create, append, move, done, step_on, edits}
use open_soverign_blog.Prelude.{
  ◌≡◌, some, refl, inl, inr, List, Bool, find, Option-cases, Bool-cases, ℕ, ◌∷◌, false, In,
  update_where, ==_iff, ◌∙◌, find-some, any, sym, ap, find-update_where,
}
use open_soverign_blog.Storage.Load.{published, load_document, selected_revision}
use open_soverign_blog.Storage.Records.{DocumentRow, RevisionRow, Database}
use open_soverign_blog.Kernel.Content.{DocumentSnapshot, Library}
use open_soverign_blog.Kernel.Policy.{Uuid}
use open_soverign_blog.Storage.Queries.{is_document}
use open_soverign_blog.Text.{Text}
use open_soverign_blog.Storage.Steps.{
  Content, Drafts, IsNewRevision, CanCreate, CanAppend, Draft, content_of,
}
use open_soverign_blog.Storage.Invariant.{IsVersioned}
use open_soverign_blog.Storage.Requests.{Request, is_publication}
use open_soverign_blog.Storage.Revisions.{point_to_revision}
use open_soverign_blog.Storage.Documents.{move_document}
use open_soverign_blog.Storage.Requests.{run}
use open_soverign_blog.Storage.Invariant.Kept.{pointed_status, Steps-IsVersioned}
use open_soverign_blog.Storage.Requests.Run.{run-Drafts}
use open_soverign_blog.Storage.Guarantees.Shown.{
  shown, delivery, loaded, delivery-load, newer_loaded, moved_shown, selected-some,
}

-- a loaded document but for the identifier of its current revision
abbrev pub delivered : DocumentSnapshot → DocumentSnapshot
delivered s = record s { current_revision_id = 0 }

module _ (c : Content) (v : IsVersioned c) where
  -- a new revision is none that is delivered
  newer_shown :
      (r : RevisionRow)
      → IsNewRevision c r
      → (d : DocumentRow) → In d c.documents
      → shown (r ∷ c.revisions) (some d) ≡ shown c.revisions (some d)
  unfolding shown
  newer_shown r new d i = newer_loaded r c.revisions d (selected_revision published d) (λ id h q.
      let (s, j, a, b) = v.delivered d i id (selected-some d id h) in new s j (a ∙ sym q))

  found_in :
      (x : Uuid) (d : DocumentRow) → find (is_document x) c.documents ≡ some d → In d c.documents
  found_in x d h = (find-some (is_document x) c.documents d h).0

  create-shown :
      (d : DocumentRow) (r : RevisionRow)
      → CanCreate c d r
      → (x : Uuid)
      → shown (r ∷ c.revisions) (find (is_document x) (d ∷ c.documents))
        ≡ shown c.revisions (find (is_document x) c.documents)
  unfolding shown selected_revision loaded
  create-shown d r k x = elim (Bool-cases (is_document x d)) [
    | inl e ↦ elim (Option-cases (find (is_document x) c.documents)) [
      | inl n ↦ rw (e, n, k.unpublished, k.is_draft) refl
      | inr (a, h) ↦
          let (i, t) = find-some (is_document x) c.documents a h in
          absurd (k.new_document a i ((==_iff a.id x).0 t ∙ sym ((==_iff d.id x).0 e)))
    ]
    | inr e ↦ elim (Option-cases (find (is_document x) c.documents)) [
      | inl n ↦ rw (e, n) refl
      | inr (a, h) ↦ rw (e, h) (newer_shown r k.new_revision a (found_in x a h))
    ]
  ]

  append-shown :
      (d : DocumentRow) (r s : RevisionRow) (path : Text)
      → CanAppend c d r s path
      → (x : Uuid)
      → shown (r ∷ c.revisions) (
          find
            (is_document x)
            (update_where (is_document d.id) (point_to_revision r.snapshot path) c.documents))
        ≡ shown c.revisions (find (is_document x) c.documents)
  unfolding shown
  append-shown d r s path k x =
      let f = point_to_revision r.snapshot path in
      ap (shown (r ∷ c.revisions))
        (find-update_where (is_document x) (is_document d.id) f (λ a. refl) c.documents)
      ∙ elim (Option-cases (find (is_document x) c.documents)) [
        | inl n ↦ rw n refl
        | inr (a, h) ↦ rw h (elim (Bool-cases (is_document d.id a)) [
          | inl e ↦ rw e (
              ap (λ z. shown (r ∷ c.revisions) (some (record (f a) { status = z })))
                (pointed_status a.published_revision_id ∙ sym (v.status a (found_in x a h)))
              ∙ moved_shown (r ∷ c.revisions) a r.snapshot.id path r.snapshot.created_at
              ∙ newer_shown r k.new_revision a (found_in x a h))
          | inr e ↦ rw e (newer_shown r k.new_revision a (found_in x a h))
        ])
      ]

  move-shown :
      (p : DocumentRow → Bool) (path : Text) (now : ℕ) (x : Uuid)
      → shown c.revisions
          (find (is_document x) (update_where p (move_document path now) c.documents))
        ≡ shown c.revisions (find (is_document x) c.documents)
  unfolding shown
  move-shown p path now x =
      ap (shown c.revisions)
        (find-update_where (is_document x) p (move_document path now) (λ a. refl) c.documents)
      ∙ elim (Option-cases (find (is_document x) c.documents)) [
        | inl n ↦ rw n refl
        | inr (a, h) ↦ rw h (elim (Bool-cases (p a)) [
          | inl e ↦ rw e (moved_shown c.revisions a a.current_revision_id path now)
          | inr e ↦ rw e refl
        ])
      ]

  draft-shown :
      {c' : Content}
      → Draft c c'
      → (x : Uuid)
      → shown c'.revisions (find (is_document x) c'.documents)
        ≡ shown c.revisions (find (is_document x) c.documents)
  draft-shown (create d r k) x = create-shown d r k x
  draft-shown (append d r s path k) x = append-shown d r s path k x
  draft-shown (move d path now k) x = move-shown _ path now x

Drafts-shown :
    {c c' : Content}
    → Drafts c c'
    → IsVersioned c
    → (x : Uuid)
    → shown c'.revisions (find (is_document x) c'.documents)
      ≡ shown c.revisions (find (is_document x) c.documents)
Drafts-shown done v x = refl
Drafts-shown (step_on s d) v x =
    draft-shown _ (Steps-IsVersioned (edits s) v) d x ∙ Drafts-shown s v x

-- From a well-formed database, no sequence of calls without a publication changes what is delivered
-- of any document: its published revision, its status and its times. Only the identifier of the
-- current revision, which the answer also has, may be another.
pub run-delivery :
    (lib : Library) (requests : List Request) (db : Database) (x : Uuid)
    → IsVersioned (content_of db)
    → any is_publication requests ≡ false
    → delivery (load_document (run lib requests db) x published)
      ≡ delivery (load_document db x published)
run-delivery lib requests db x v quiet =
    delivery-load (run lib requests db) x
    ∙ Drafts-shown (run-Drafts lib requests db quiet) v x
    ∙ sym (delivery-load db x)
