-- ===== src/Storage/Invariant/History.antt =====
-- That the steps of the lifecycle keep the history of every document.
use open_soverign_blog.Prelude.{
  ◌≡◌, ◌∷◌, [], ◌+◌, false, some, refl, sym, ap, ◌∙◌, inl, inr, ◌⊎◌, List, Bool, In, ◌≢◌, filter,
  Distinct, map, map-in, update_where, ==_iff, false_iff, subst, in-update_where, unique_row,
}
use open_soverign_blog.Storage.Steps.{Content, CanCreate}
use open_soverign_blog.Storage.Records.{RevisionRow, DocumentRow}
use open_soverign_blog.Storage.Invariant.{
  IsVersioned, IsChain, history, document_key, revision_key, status_of,
}
use open_soverign_blog.Kernel.Policy.{Uuid}
use open_soverign_blog.Storage.Load.{in_document}
use open_soverign_blog.Storage.Queries.{is_document}

pub new_key :
    {A B : Type 0} (key : A → B) (xs : List A) (b : B)
    → ((a : A) → In a xs → key a ≢ b)
    → ¬ In b (map key xs)
new_key key xs b h i = let (a, j, q) = map-in key xs b i in h a j q

filter_all_false :
    {A : Type 0} (p : A → Bool) (xs : List A) → ((a : A) → In a xs → p a ≡ false) → filter p xs ≡ []
filter_all_false p [] h = refl
filter_all_false p (x ∷ xs) h = rw (h x (inl refl)) (filter_all_false p xs (λ a i. h a (inr i)))

-- the row that an update of a document by its identifier changes
pub updated_row :
    (xs : List DocumentRow) (d : DocumentRow) (f : DocumentRow → DocumentRow)
    → Distinct (map document_key xs)
    → In d xs
    → (e : DocumentRow) → In e (update_where (is_document d.id) f xs)
    → (In e xs × (e.id ≢ d.id)) ⊎ (f d ≡ e)
updated_row xs d f keys i e j = elim (in-update_where (is_document d.id) f xs e j) [
  | inl (k, n) ↦ inl (k, λ q. cc (n, (==_iff e.id d.id).1 q))
  | inr (a, k, t, q) ↦
      inr (ap f (sym (unique_row document_key xs keys a d k i ((==_iff a.id d.id).0 t))) ∙ q)
]

module _ (r : RevisionRow) (id : Uuid) (revisions : List RevisionRow) where
  pub history_own :
      r.snapshot.document_id ≡ id
      → filter (in_document id) (r ∷ revisions) ≡ r ∷ filter (in_document id) revisions
  history_own q = rw ((==_iff r.snapshot.document_id id).1 q) refl

  pub history_other :
      r.snapshot.document_id ≢ id
      → filter (in_document id) (r ∷ revisions) ≡ filter (in_document id) revisions
  history_other n = rw ((false_iff _ (==_iff r.snapshot.document_id id)).1 n) refl

pub IsChain-cons :
    (r : RevisionRow) (id : Uuid) (rows : List RevisionRow)
    → IsChain id rows
    → ((h : RevisionRow)
        → In h rows
        → h.snapshot.id ≡ id
        → r.snapshot.revision_number ≡ h.snapshot.revision_number + 1)
    → r.snapshot.parent_revision_id ≡ some id
    → IsChain r.snapshot.id (r ∷ rows)
IsChain-cons r id [] c n p = absurd c
IsChain-cons r id (h ∷ []) c n p =
    (refl, n h (inl refl) c.0, p ∙ ap some (sym c.0), (refl, c.1, c.2))
IsChain-cons r id (h ∷ s ∷ rows) c n p =
    (refl, n h (inl refl) c.0, p ∙ ap some (sym c.0), (refl, c.1, c.2, c.3))

module _ (c : Content) (v : IsVersioned c) where
  pub no_history :
      (id : Uuid) → ((e : DocumentRow) → In e c.documents → e.id ≢ id) → history c id ≡ []
  no_history id new = filter_all_false (in_document id) c.revisions (λ r i.
      (false_iff _ (==_iff r.snapshot.document_id id)).1
        (λ q. let (e, j, p) = v.owned r i in new e j (p ∙ q)))

  pub create-IsVersioned :
      (d : DocumentRow) (r : RevisionRow)
      → CanCreate c d r
      → IsVersioned (record c { documents = d ∷ c.documents; revisions = r ∷ c.revisions })
  create-IsVersioned d r k = record {
    document_ids = (new_key document_key c.documents d.id k.new_document, v.document_ids);
    revision_ids = (new_key revision_key c.revisions r.snapshot.id k.new_revision, v.revision_ids);
    owned = λ s. elim [
      | inl q ↦ (d, inl refl, sym k.of_document ∙ ap (λ x. x.snapshot.document_id) q)
      | inr i ↦ let (e, j, p) = v.owned s i in (e, inr j, p)
    ];
    chain = λ e. elim [
      | inl q ↦
          subst (λ x. IsChain x.current_revision_id (filter (in_document x.id) (r ∷ c.revisions))) q
            (rw (history_own r d.id c.revisions k.of_document, no_history d.id k.new_document)
              (sym k.current, k.number, k.no_parent))
      | inr i ↦
          rw (history_other r e.id c.revisions (λ p. k.new_document e i (sym p ∙ k.of_document)))
            (v.chain e i)
    ];
    delivered = λ e. elim [
      | inl q ↦ λ id p. cc (sym k.unpublished ∙ ap (λ x. x.published_revision_id) q ∙ p)
      | inr i ↦ λ id p. let (s, j, a, b) = v.delivered e i id p in (s, inr j, a, b)
    ];
    status = λ e. elim [
      | inl q ↦
          subst (λ x. x.status ≡ status_of x.published_revision_id) q
            (k.is_draft ∙ ap status_of (sym k.unpublished))
      | inr i ↦ v.status e i
    ];
  }
