-- ===== src/Storage/Guarantees/Order.antt =====
-- The order of a listing does not depend on the order of the rows in their table.
use mathlib.Core.List.{Permᴰ}
use open_soverign_blog.Prelude.{
  ◌≡◌, ◌∷◌, [], refl, sym, ◌∙◌, ap, inl, inr, arith, List, ℕ, In, filter, Bool, ==_iff, ◌==◌,
  Bool-cases, ◌≢◌,
}
use open_soverign_blog.Storage.Records.{RevisionRow}
use open_soverign_blog.Storage.Load.{order_by, insert_row, is_newer}

abbrev pub number : RevisionRow → ℕ
number r = r.snapshot.revision_number

insert_row_comm :
    (a b : RevisionRow) (rows : List RevisionRow)
    → number a ≢ number b
    → insert_row is_newer a (insert_row is_newer b rows)
      ≡ insert_row is_newer b (insert_row is_newer a rows)
unfolding insert_row
insert_row_comm a b [] n = ground arith
insert_row_comm a b (c ∷ rows) n = ground (arith, insert_row_comm a b rows n)

pub in-permuted : {A : Type 0} {xs ys : List A} → Permᴰ xs ys → (a : A) → In a xs → In a ys
in-permuted Permᴰ.nil a i = i
in-permuted (Permᴰ.cons e p) a i = elim i [
  | inl q ↦ inl (sym e ∙ q)
  | inr j ↦ inr (in-permuted p a j)
]
in-permuted (Permᴰ.swap e f) a i = elim i [
  | inl q ↦ inr (inl (sym e ∙ q))
  | inr j ↦ elim j [ inl q ↦ inl (sym f ∙ q) | inr k ↦ inr (inr k) ]
]
in-permuted (Permᴰ.trans p q) a i = in-permuted q a (in-permuted p a i)

-- A number belongs to one row only.
abbrev pub IsNumbered : List RevisionRow → Type 0
IsNumbered rows = (a b : RevisionRow) → In a rows → In b rows → number a ≡ number b → a ≡ b

permuted_refl : {A : Type 0} (xs : List A) → Permᴰ xs xs
permuted_refl [] = Permᴰ.nil
permuted_refl (x ∷ xs) = Permᴰ.cons refl (permuted_refl xs)

pub filter-permuted :
    {A : Type 0} (p : A → Bool) {xs ys : List A} → Permᴰ xs ys → Permᴰ (filter p xs) (filter p ys)
filter-permuted p Permᴰ.nil = Permᴰ.nil
filter-permuted p (Permᴰ.cons {a} {b} e q) = elim (Bool-cases (p a)) [
  | inl t ↦ rw (t, ap p (sym e) ∙ t) (Permᴰ.cons e (filter-permuted p q))
  | inr t ↦ rw (t, ap p (sym e) ∙ t) (filter-permuted p q)
]
filter-permuted p (Permᴰ.swap {a} {b} {a'} {b'} {l} e f) = elim (Bool-cases (p a)) [
  | inl s ↦ elim (Bool-cases (p b)) [
    | inl t ↦ rw (s, t, ap p (sym e) ∙ s, ap p (sym f) ∙ t) (Permᴰ.swap e f)
    | inr t ↦
        rw (s, t, ap p (sym e) ∙ s, ap p (sym f) ∙ t) (Permᴰ.cons e (permuted_refl (filter p l)))
  ]
  | inr s ↦ elim (Bool-cases (p b)) [
    | inl t ↦
        rw (s, t, ap p (sym e) ∙ s, ap p (sym f) ∙ t) (Permᴰ.cons f (permuted_refl (filter p l)))
    | inr t ↦ rw (s, t, ap p (sym e) ∙ s, ap p (sym f) ∙ t) (permuted_refl (filter p l))
  ]
]
filter-permuted p (Permᴰ.trans q r) = Permᴰ.trans (filter-permuted p q) (filter-permuted p r)

-- Whatever the order of the rows, the listing is the same.
pub order_by-permuted :
    {xs ys : List RevisionRow}
    → Permᴰ xs ys
    → IsNumbered ys
    → order_by is_newer xs ≡ order_by is_newer ys
unfolding order_by
order_by-permuted Permᴰ.nil n = refl
order_by-permuted (Permᴰ.cons {a} {b} e p) n =
    rw e (ap (insert_row is_newer b) (order_by-permuted p (λ c d i j q. n c d (inr i) (inr j) q)))
order_by-permuted (Permᴰ.swap {a} {b} {a'} {b'} {l} e f) n =
    rw (e, f)
      (elim (Bool-cases (number b' == number a')) [
        | inl t ↦
            let same : b' ≡ a' = n b' a' (inr (inl refl)) (inl refl) ((==_iff _ _).0 t) in
            rw same refl
        | inr t ↦
            insert_row_comm b' a' (order_by is_newer l)
              (λ q. cc (sym t ∙ (==_iff (number b') (number a')).1 q))
      ])
order_by-permuted (Permᴰ.trans p q) n =
    order_by-permuted p (λ a b i j e. n a b (in-permuted q a i) (in-permuted q b j) e)
    ∙ order_by-permuted q n
