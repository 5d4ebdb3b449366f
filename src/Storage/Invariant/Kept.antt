-- ===== src/Storage/Invariant/Kept.antt =====
-- That every step of the lifecycle keeps the history of every document.
use open_soverign_blog.Prelude.{
  ◌≡◌, ◌∷◌, ◌+◌, none, some, if◌then◌else◌, refl, sym, ap, ◌∙◌, inl, inr, Option, is_some, Bool, In,
  ℕ, update_where, List, unique_row, subst, Bool-cases, Distinct, update_where-changed,
  in-filter_iff, map-update_where, update_where-kept, ◌≢◌, in-update_where, filter, some-injective,
}
use open_soverign_blog.Kernel.Content.{draft, DocumentStatus}
use open_soverign_blog.Storage.Steps.{
  Content, edit, Draft, Step, Steps, create, append, move, publish, done, step_on, CanAppend,
  CanPublish,
}
use open_soverign_blog.Storage.Records.{DocumentRow, RevisionRow, RouteRow}
use open_soverign_blog.Storage.Invariant.{
  IsVersioned, status_of, history, revision_key, document_key, IsChain, HasRevision,
}
use open_soverign_blog.Kernel.Policy.{Uuid}
use open_soverign_blog.Storage.Invariant.History.{
  create-IsVersioned, updated_row, history_other, new_key, history_own, IsChain-cons,
}
use open_soverign_blog.Text.{Text}
use open_soverign_blog.Storage.Documents.{move_document}
use open_soverign_blog.Storage.Queries.{is_document}
use open_soverign_blog.Storage.Revisions.{point_to_revision}
use open_soverign_blog.Storage.Publish.{publish_row}
use open_soverign_blog.Storage.Load.{in_document}

pub pointed_status :
    (o : Option Uuid) → (if is_some o then DocumentStatus.published else draft) ≡ status_of o
pointed_status none = refl
pointed_status (some id) = refl

module _ (c : Content) (v : IsVersioned c) where
  move-IsVersioned :
      (p : DocumentRow → Bool) (path : Text) (now : ℕ)
      → IsVersioned (record c { documents = update_where p (move_document path now) c.documents })
  move-IsVersioned p path now =
      let f = move_document path now in
      record {
        document_ids =
            subst Distinct (sym (map-update_where p f document_key (λ a. refl) c.documents))
              v.document_ids;
        revision_ids = v.revision_ids;
        owned = λ r i.
            let (d, j, q) = v.owned r i in
            elim (Bool-cases (p d)) [
              | inl e ↦ (f d, update_where-changed p f c.documents d j e, q)
              | inr e ↦ (d, update_where-kept p f c.documents d j e, q)
            ];
        chain = λ e i. elim (in-update_where p f c.documents e i) [
          | inl (j, n) ↦ v.chain e j
          | inr (a, j, n, q) ↦
              subst (λ x. IsChain x.current_revision_id (history c x.id)) q (v.chain a j)
        ];
        delivered = λ e i. elim (in-update_where p f c.documents e i) [
          | inl (j, n) ↦ v.delivered e j
          | inr (a, j, n, q) ↦
              subst
                (λ (x : DocumentRow).
                  (id : Uuid) → x.published_revision_id ≡ some id → HasRevision c x.id id)
                q (v.delivered a j)
        ];
        status = λ e i. elim (in-update_where p f c.documents e i) [
          | inl (j, n) ↦ v.status e j
          | inr (a, j, n, q) ↦
              subst (λ x. x.status ≡ status_of x.published_revision_id) q (v.status a j)
        ];
      }

  -- the row that still stands for a document after an update of one document
  still_there :
      (d : DocumentRow) (f : DocumentRow → DocumentRow)
      → ((a : DocumentRow) → (f a).id ≡ a.id)
      → (e : DocumentRow) → In e c.documents
      → (e' : DocumentRow) × In e' (update_where (is_document d.id) f c.documents) × (e'.id ≡ e.id)
  still_there d f same e i = elim (Bool-cases (is_document d.id e)) [
    | inl t ↦ (f e, update_where-changed (is_document d.id) f c.documents e i t, same e)
    | inr n ↦ (e, update_where-kept (is_document d.id) f c.documents e i n, refl)
  ]

  publish-IsVersioned :
      (d : DocumentRow) (r : RevisionRow) (path : Text) (now : ℕ) (routes : List RouteRow)
      → CanPublish c d r path
      → IsVersioned (record c {
        documents = update_where (is_document d.id) (publish_row r.snapshot.id now) c.documents;
        routes = routes;
      })
  publish-IsVersioned d r path now routes k =
      let f = publish_row r.snapshot.id now in
      let row = updated_row c.documents d f v.document_ids k.stored in
      record {
        document_ids =
            subst Distinct
              (sym (map-update_where (is_document d.id) f document_key (λ a. refl) c.documents))
              v.document_ids;
        revision_ids = v.revision_ids;
        owned = λ s i.
            let (e, j, q) = v.owned s i in
            let (e', j', q') = still_there d f (λ a. refl) e j in (e', j', q' ∙ q);
        chain = λ e i. elim (row e i) [
          | inl (j, n) ↦ v.chain e j
          | inr q ↦
              subst (λ x. IsChain x.current_revision_id (history c x.id)) q (v.chain d k.stored)
        ];
        delivered = λ e i. elim (row e i) [
          | inl (j, n) ↦ v.delivered e j
          | inr q ↦
              subst
                (λ (x : DocumentRow).
                  (id : Uuid) → x.published_revision_id ≡ some id → HasRevision c x.id id)
                q (λ id p. (r, k.revision, some-injective _ _ p, k.of_document))
        ];
        status = λ e i. elim (row e i) [
          | inl (j, n) ↦ v.status e j
          | inr q ↦ subst (λ x. x.status ≡ status_of x.published_revision_id) q refl
        ];
      }

  -- a revision of the history whose identifier is that of a stored row is that row
  pub only_row :
      (s : RevisionRow)
      → In s c.revisions
      → (id : Uuid) (h : RevisionRow) → In h (history c id)
      → h.snapshot.id ≡ s.snapshot.id
      → h ≡ s
  only_row s i id h j q =
      unique_row revision_key c.revisions v.revision_ids h s
        ((in-filter_iff (in_document id) h c.revisions).0 j).0 i q

  append-IsVersioned :
      (d : DocumentRow) (r s : RevisionRow) (path : Text)
      → CanAppend c d r s path
      → IsVersioned (record c {
        documents = update_where (is_document d.id) (point_to_revision r.snapshot path) c.documents;
        revisions = r ∷ c.revisions;
      })
  append-IsVersioned d r s path k =
      let f = point_to_revision r.snapshot path in
      let row = updated_row c.documents d f v.document_ids k.stored in
      let other : (e : DocumentRow)
          → e.id ≢ d.id
          → history (record c { revisions = r ∷ c.revisions }) e.id ≡ history c e.id =
        λ e n. history_other r e.id c.revisions (λ p. n (sym p ∙ k.of_document)) in
      record {
        document_ids =
            subst Distinct
              (sym (map-update_where (is_document d.id) f document_key (λ a. refl) c.documents))
              v.document_ids;
        revision_ids =
            (new_key revision_key c.revisions r.snapshot.id k.new_revision, v.revision_ids);
        owned = λ t. elim [
          | inl q ↦
              let (e', j', q') = still_there d f (λ a. refl) d k.stored in
              (e', j', q' ∙ sym k.of_document ∙ ap (λ x. x.snapshot.document_id) q)
          | inr i ↦
              let (e, j, q) = v.owned t i in
              let (e', j', q') = still_there d f (λ a. refl) e j in (e', j', q' ∙ q)
        ];
        chain = λ e i. elim (row e i) [
          | inl (j, n) ↦ subst (IsChain e.current_revision_id) (sym (other e n)) (v.chain e j)
          | inr q ↦
              subst
                (λ x. IsChain x.current_revision_id (filter (in_document x.id) (r ∷ c.revisions))) q
                (subst (IsChain r.snapshot.id) (sym (history_own r d.id c.revisions k.of_document))
                  (IsChain-cons r d.current_revision_id (history c d.id) (v.chain d k.stored)
                    (λ h j p.
                      k.number
                      ∙ ap (λ x. x.snapshot.revision_number + 1)
                          (sym (only_row s k.base d.id h j (p ∙ sym k.current))))
                    k.parent))
        ];
        delivered = λ e i. elim (row e i) [
          | inl (j, n) ↦ λ id p. let (t, l, a, b) = v.delivered e j id p in (t, inr l, a, b)
          | inr q ↦ λ id p.
              let (t, l, a, b) =
                v.delivered d k.stored id (ap (λ x. x.published_revision_id) q ∙ p) in
              (t, inr l, a, b ∙ ap (λ x. x.id) q)
        ];
        status = λ e i. elim (row e i) [
          | inl (j, n) ↦ v.status e j
          | inr q ↦
              subst (λ x. x.status ≡ status_of x.published_revision_id) q
                (pointed_status d.published_revision_id)
        ];
      }

-- Every step keeps every history: its numbers count up from one, every revision follows the one
-- before it, and the current revision is the last one.
draft-IsVersioned : {c c' : Content} → Draft c c' → IsVersioned c → IsVersioned c'
draft-IsVersioned (create d r k) v = create-IsVersioned _ v d r k
draft-IsVersioned (append d r s path k) v = append-IsVersioned _ v d r s path k
draft-IsVersioned (move d path now k) v = move-IsVersioned _ v _ path now

pub step-IsVersioned : {c c' : Content} → Step c c' → IsVersioned c → IsVersioned c'
step-IsVersioned (edit d) v = draft-IsVersioned d v
step-IsVersioned (publish d r path now k) v = publish-IsVersioned _ v d r path now _ k

pub Steps-IsVersioned : {c c' : Content} → Steps c c' → IsVersioned c → IsVersioned c'
Steps-IsVersioned done v = v
Steps-IsVersioned (step_on s t) v = step-IsVersioned t (Steps-IsVersioned s v)
