-- ===== src/Prelude/Tables.antt =====
-- Tables as lists of rows: the row that a query finds, the rows that an update changes, the first
-- rows of a listing, and keys that are unique.
use Prim.Native.Nat.{ℕ, zero, suc}
use mathlib.Core.Path.{◌≡◌, refl, sym, ap, ◌∙◌, subst}
use mathlib.Core.Logic.{◌⊎◌, inl, inr}
use mathlib.Core.Bool.{Bool, true, false}
use mathlib.Core.Option.{Option, none, some}
use mathlib.Core.List.{List, [], ◌∷◌, map}
use native.Mathlib.Omega.{arith}
use open_soverign_blog.Prelude.Tests.{Bool-cases, if◌then◌else◌}
use open_soverign_blog.Prelude.Lists.{In, Distinct, any}

module _ {ℓ} {A : Type ℓ} where
  -- `SELECT … WHERE p`, of at most one row
  abbrev pub find : (A → Bool) → List A → Option A
  find p [] = none
  find p (x ∷ xs) = let rest = find p xs in if p x then some x else rest

  -- `UPDATE … SET f WHERE p`
  abbrev pub update_where : (A → Bool) → (A → A) → List A → List A
  update_where p f [] = []
  update_where p f (x ∷ xs) = let rest = update_where p f xs in if p x then f x ∷ rest else x ∷ rest

  -- `LIMIT n`
  abbrev pub take : ℕ → List A → List A
  take zero xs = []
  take (suc n) [] = []
  take (suc n) (x ∷ xs) = x ∷ take n xs

module _ {A : Type 0} (p : A → Bool) where
  pub find-some : (xs : List A) (a : A) → find p xs ≡ some a → In a xs × (p a ≡ true)
  find-some [] a h = cc
  find-some (x ∷ xs) a h = elim (Bool-cases (p x)) [
    | inl e ↦ let q : x ≡ a = ground (arith, e, h) in (inl q, ap p (sym q) ∙ e)
    | inr e ↦ let (i, t) = find-some xs a (ground (arith, e, h)) in (inr i, t)
  ]

  pub find-none : (xs : List A) → find p xs ≡ none → (a : A) → In a xs → p a ≡ false
  find-none [] h a i = elim i [ ]
  find-none (x ∷ xs) h a i = elim (Bool-cases (p x)) [
    | inl e ↦ let q : some x ≡ none = ground (arith, e, h) in cc q
    | inr e ↦ elim i [ inl q ↦ ap p (sym q) ∙ e | inr j ↦ find-none xs (ground (arith, e, h)) a j ]
  ]

  pub any-false : (xs : List A) → any p xs ≡ false → (a : A) → In a xs → p a ≡ false
  any-false [] h a i = elim i [ ]
  any-false (x ∷ xs) h a i = elim i [
    | inl q ↦ ap p (sym q) ∙ ground arith
    | inr j ↦ any-false xs (ground arith) a j
  ]

  module _ (f : A → A) where
    pub in-update_where :
        (xs : List A) (b : A)
        → In b (update_where p f xs)
        → (In b xs × (p b ≡ false)) ⊎ ((a : A) × In a xs × (p a ≡ true) × (f a ≡ b))
    in-update_where [] b = λ i. elim i [ ]
    in-update_where (x ∷ xs) b = elim (Bool-cases (p x)) [
      | inl e ↦ rw e elim [
        | inl q ↦ inr (x, inl refl, e, q)
        | inr j ↦ elim (in-update_where xs b j) [
          | inl (k, n) ↦ inl (inr k, n)
          | inr (a, k, t, r) ↦ inr (a, inr k, t, r)
        ]
      ]
      | inr e ↦ rw e elim [
        | inl q ↦ inl (inl q, ap p (sym q) ∙ e)
        | inr j ↦ elim (in-update_where xs b j) [
          | inl (k, n) ↦ inl (inr k, n)
          | inr (a, k, t, r) ↦ inr (a, inr k, t, r)
        ]
      ]
    ]

    -- a row that the update does not choose stays
    pub update_where-kept :
        (xs : List A) (a : A) → In a xs → p a ≡ false → In a (update_where p f xs)
    update_where-kept [] a i n = elim i [ ]
    update_where-kept (x ∷ xs) a i n = elim i [
      | inl q ↦ rw (ap p q ∙ n) (inl q)
      | inr j ↦ elim (Bool-cases (p x)) [
        | inl e ↦ rw e (inr (update_where-kept xs a j n))
        | inr e ↦ rw e (inr (update_where-kept xs a j n))
      ]
    ]

    pub update_where-changed :
        (xs : List A) (a : A) → In a xs → p a ≡ true → In (f a) (update_where p f xs)
    update_where-changed [] a i n = elim i [ ]
    update_where-changed (x ∷ xs) a i n = elim i [
      | inl q ↦ rw (ap p q ∙ n) (inl (ap f q))
      | inr j ↦ elim (Bool-cases (p x)) [
        | inl e ↦ rw e (inr (update_where-changed xs a j n))
        | inr e ↦ rw e (inr (update_where-changed xs a j n))
      ]
    ]

    -- an update that keeps a column keeps the column's list of values
    pub map-update_where :
        {B : Type 0} (key : A → B)
        → ((a : A) → key (f a) ≡ key a)
        → (xs : List A) → map key (update_where p f xs) ≡ map key xs
    map-update_where key h [] = refl
    map-update_where key h (x ∷ xs) = elim (Bool-cases (p x)) [
      | inl e ↦ rw (e, h x, map-update_where key h xs) refl
      | inr e ↦ rw (e, map-update_where key h xs) refl
    ]

module _ {A B : Type 0} (key : A → B) where
  pub in-map : (xs : List A) (a : A) → In a xs → In (key a) (map key xs)
  in-map [] a i = elim i [ ]
  in-map (x ∷ xs) a i = elim i [ inl q ↦ inl (ap key q) | inr j ↦ inr (in-map xs a j) ]

  pub map-in : (xs : List A) (b : B) → In b (map key xs) → (a : A) × In a xs × (key a ≡ b)
  map-in [] b i = elim i [ ]
  map-in (x ∷ xs) b i = elim i [
    | inl q ↦ (x, inl refl, q)
    | inr j ↦ let (a, k, q) = map-in xs b j in (a, inr k, q)
  ]

  -- rows with the same unique key are the same row
  pub unique_row :
      (xs : List A) → Distinct (map key xs) → (a b : A) → In a xs → In b xs → key a ≡ key b → a ≡ b
  unique_row [] d a b i j q = elim i [ ]
  unique_row (x ∷ xs) d a b i j q = elim i [
    | inl e ↦ elim j [
      | inl e' ↦ sym e ∙ e'
      | inr j' ↦
          absurd (d.0 (subst (λ k. In k (map key xs)) (sym q ∙ ap key (sym e)) (in-map xs b j')))
    ]
    | inr i' ↦ elim j [
      | inl e' ↦
          absurd (d.0 (subst (λ k. In k (map key xs)) (q ∙ ap key (sym e')) (in-map xs a i')))
      | inr j' ↦ unique_row xs d.1 a b i' j' q
    ]
  ]

module _ {A : Type 0} where
  -- what an update does to the row that a query finds
  abbrev pub updated : (A → Bool) → (A → A) → Option A → Option A
  updated p f none = none
  updated p f (some a) = some (if p a then f a else a)

  pub find-update_where :
      (q p : A → Bool) (f : A → A)
      → ((a : A) → q (f a) ≡ q a)
      → (xs : List A) → find q (update_where p f xs) ≡ updated p f (find q xs)
  find-update_where q p f same [] = refl
  find-update_where q p f same (x ∷ xs) = elim (Bool-cases (p x)) [
    | inl e ↦ elim (Bool-cases (q x)) [
      | inl t ↦ rw (e, same x, t, e) refl
      | inr t ↦ rw (e, same x, t) (find-update_where q p f same xs)
    ]
    | inr e ↦ elim (Bool-cases (q x)) [
      | inl t ↦ rw (e, t, e) refl
      | inr t ↦ rw (e, t) (find-update_where q p f same xs)
    ]
  ]
