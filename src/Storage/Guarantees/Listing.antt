-- ===== src/Storage/Guarantees/Listing.antt =====
-- The listing of the history of a document.
use mathlib.Core.List.{Permᴰ}
use open_soverign_blog.Storage.Guarantees.Order.{
  number, IsNumbered, order_by-permuted, filter-permuted,
}
use open_soverign_blog.Prelude.{
  ap, ◌<◌, ok, ◌≡◌, ◌∷◌, [], false, refl, sym, ◌∙◌, inl, inr, ◌↔◌, arith, List, ℕ, In, map, take,
  min, filter, Option-cases, find, ==_iff, find-none, in-filter_iff,
}
use open_soverign_blog.Storage.Records.{Database, RevisionRow, DocumentRow}
use open_soverign_blog.Storage.Load.{order_by, list_revisions, insert_row, is_newer, in_document}
use open_soverign_blog.Storage.Queries.{ensure_document_exists, find_document, is_document}
use open_soverign_blog.Kernel.Policy.{Uuid}
use open_soverign_blog.Storage.Invariant.{IsChain, IsVersioned}
use open_soverign_blog.Storage.Steps.{content_of}

ordered : (id : Uuid) (rows : List RevisionRow) → IsChain id rows → order_by is_newer rows ≡ rows
unfolding order_by insert_row
ordered id [] c = refl
ordered id (r ∷ []) c = refl
ordered id (r ∷ s ∷ rows) c =
    let older : is_newer s r ≡ false = ground (arith, c.1) in
    rw (ordered s.snapshot.id (s ∷ rows) c.3, older) refl

-- Behind the head of a chain the numbers are smaller.
chain_below :
    (id : Uuid) (r : RevisionRow) (rows : List RevisionRow)
    → IsChain id (r ∷ rows)
    → (s : RevisionRow) → In s rows
    → number s < number r
chain_below id r [] c s i = absurd i
chain_below id r (n ∷ rows) c s i = elim i [
  | inl q ↦ let same : number n ≡ number s = ap number q in ground (arith, same, c.1)
  | inr j ↦ let below = chain_below n.snapshot.id n rows c.3 s j in omega (arith, below, c.1)
]

chain-IsNumbered : (id : Uuid) (rows : List RevisionRow) → IsChain id rows → IsNumbered rows
chain-IsNumbered id [] c a b i j q = absurd i
chain-IsNumbered id (r ∷ []) c a b i j q = elim i [
  | inl e ↦ elim j [ inl f ↦ sym e ∙ f | inr k ↦ absurd k ]
  | inr k ↦ absurd k
]
chain-IsNumbered id (r ∷ n ∷ rows) c a b i j q = elim i [
  | inl e ↦ elim j [
    | inl f ↦ sym e ∙ f
    | inr l ↦
        let below = chain_below id r (n ∷ rows) c b l in
        let same : number r ≡ number a = ap number e in absurd (omega (arith, below, same, q))
  ]
  | inr k ↦ elim j [
    | inl f ↦
        let below = chain_below id r (n ∷ rows) c a k in
        let same : number r ≡ number b = ap number f in absurd (omega (arith, below, same, q))
    | inr l ↦ chain-IsNumbered n.snapshot.id (n ∷ rows) c.3 a b k l q
  ]
]

-- In whatever order the table of a well-formed database holds its revisions, the history of a document
-- is listed from its current revision back to its first one, each the parent of the one before it, up
-- to the limit and at most 1000 of them.
pub list_revisions-IsChain :
    (db : Database) (d : DocumentRow) (limit : ℕ) (revisions : List RevisionRow)
    → IsVersioned (content_of db)
    → In d db.documents
    → Permᴰ revisions db.revisions
    → (rows : List RevisionRow) × (list_revisions (record db { revisions = revisions }) d.id limit
        ≡ ok (map (λ r. r.snapshot) (take (min limit 1000) rows)))
      × IsChain d.current_revision_id rows
      × ((r : RevisionRow) → In r rows ↔ (In r db.revisions × (r.snapshot.document_id ≡ d.id)))
unfolding list_revisions ensure_document_exists find_document
list_revisions-IsChain db d limit revisions v i p =
    let rows = filter (in_document d.id) db.revisions in
    let same =
      order_by-permuted (filter-permuted (in_document d.id) p)
        (chain-IsNumbered d.current_revision_id rows (v.chain d i))
      ∙ ordered d.current_revision_id rows (v.chain d i) in
    (
      rows,
      elim (Option-cases (find (is_document d.id) db.documents)) [
        | inl n ↦
            cc (sym ((==_iff d.id d.id).1 refl) ∙ find-none (is_document d.id) db.documents n d i)
        | inr (e, h) ↦ rw h (rw same refl)
      ],
      v.chain d i,
      λ r.
          let (to, of) = in-filter_iff (in_document d.id) r db.revisions in
          (λ j. let (k, t) = to j in (k, (==_iff _ _).0 t), λ h. of (h.0, (==_iff _ _).1 h.1)),
    )
