-- ===== src/Prelude/Lists.antt =====
-- Lists measured by native numbers, the iterator tests `any` and `all`, and predicates on lists.
use Prim.Native.Nat.{ℕ, suc, ◌+◌}
use mathlib.Core.Path.{◌≡◌, refl, sym, ap, ◌∙◌}
use mathlib.Core.Logic.{◌↔◌, ◌⊎◌, inl, inr}
use mathlib.Core.Bool.{Bool, true, false, ◌&&◌, ◌||◌}
use mathlib.Core.Option.{Option, none, some}
use mathlib.Core.List.{List, [], ◌∷◌, ◌++◌}
use native.Mathlib.Omega.{arith}
use open_soverign_blog.Prelude.Tests.{Bool-cases, if◌then◌else◌, is_some_and}

module _ {ℓ} {A : Type ℓ} where
  abbrev pub length : List A → ℕ
  length [] = 0
  length (x ∷ xs) = suc (length xs)

  abbrev pub is_empty : List A → Bool
  is_empty [] = true
  is_empty (x ∷ xs) = false

  -- `iter().any(p)`
  abbrev pub any : (A → Bool) → List A → Bool
  any p [] = false
  any p (x ∷ xs) = p x || any p xs

  -- `iter().all(p)`
  abbrev pub all : (A → Bool) → List A → Bool
  all p [] = true
  all p (x ∷ xs) = p x && all p xs

  pub length-append : (xs ys : List A) → length (xs ++ ys) ≡ length xs + length ys
  length-append [] ys = omega arith
  length-append (x ∷ xs) ys = omega (arith, length-append xs ys)

abbrev pub All {ℓ κ} : {A : Type ℓ} → (A → Type κ) → List A → Type κ
All P [] = Unit
All P (x ∷ xs) = P x × All P xs

abbrev pub Any {ℓ} : {A : Type ℓ} → (A → Type 0) → List A → Type 0
Any P [] = ⊥
Any P (x ∷ xs) = P x ⊎ Any P xs

-- A position of a list that holds the element.
abbrev pub In : {A : Type 0} → A → List A → Type 0
In a xs = Any (λ x. x ≡ a) xs

-- No element occurs twice.
abbrev pub Distinct : {A : Type 0} → List A → Type 0
Distinct [] = Unit
Distinct (x ∷ xs) = (¬ In x xs) × Distinct xs

module _ {ℓ} {A : Type ℓ} (p : A → Bool) (P : A → Type 0)
    (p_iff : (a : A) → (p a ≡ true) ↔ P a) where
  pub any_iff : (xs : List A) → (any p xs ≡ true) ↔ Any P xs
  any_iff [] = (λ h. cc, λ h. elim h [ ])
  any_iff (x ∷ xs) = (
    λ h. elim (Bool-cases (p x)) [
      | inl e ↦ inl ((p_iff x).0 e)
      | inr e ↦ inr ((any_iff xs).0 (ground arith))
    ],
    elim [ inl q ↦ ground (arith, (p_iff x).1 q) | inr q ↦ ground (arith, (any_iff xs).1 q) ],
  )

  pub all_iff : (xs : List A) → (all p xs ≡ true) ↔ All P xs
  all_iff [] = (λ h. tt, λ h. refl)
  all_iff (x ∷ xs) = (
    λ h. ((p_iff x).0 (ground arith), (all_iff xs).0 (ground arith)),
    λ h. ground (arith, (p_iff x).1 h.0, (all_iff xs).1 h.1),
  )

module _ {ℓ} {A : Type ℓ} where
  -- `iter().filter(p)`, and `retain(p)`
  abbrev pub filter : (A → Bool) → List A → List A
  filter p [] = []
  filter p (x ∷ xs) = let rest = filter p xs in if p x then x ∷ rest else rest

pub in-filter_iff :
    {A : Type 0} (p : A → Bool) (a : A) (xs : List A)
    → In a (filter p xs) ↔ (In a xs × (p a ≡ true))
in-filter_iff p a [] = (λ h. elim h [ ], λ h. elim (h.0) [ ])
in-filter_iff p a (x ∷ xs) =
    let (to, of) = in-filter_iff p a xs in
    elim (Bool-cases (p x)) [
      | inl e ↦ rw e (
        elim [ inl q ↦ (inl q, ap p (sym q) ∙ e) | inr q ↦ (inr (to q).0, (to q).1) ],
        λ h. elim (h.0) [ inl q ↦ inl q | inr q ↦ inr (of (q, h.1)) ],
      )
      | inr e ↦ rw e (
        λ q. (inr (to q).0, (to q).1),
        λ h. elim (h.0) [ inl q ↦ cc (ap p q) | inr q ↦ of (q, h.1) ],
      )
    ]

-- What holds of the value, if there is one.
abbrev pub IfSome : {A : Type 0} → (A → Type 0) → Option A → Type 0
IfSome P none = Unit
IfSome P (some a) = P a

module _ {A : Type 0} (p : A → Bool) (P : A → Type 0) (iff : (a : A) → (p a ≡ false) ↔ P a) where
  -- `any` of a bad element fails exactly when every element is good.
  pub none_bad_iff : (xs : List A) → (any p xs ≡ false) ↔ All P xs
  none_bad_iff [] = (λ h. tt, λ h. refl)
  none_bad_iff (x ∷ xs) =
      let (to, of) = none_bad_iff xs in
      (
        λ h. ((iff x).0 (ground arith), to (ground arith)),
        λ h. ground (arith, (iff x).1 h.0, of h.1),
      )

  pub absent_or_iff : (o : Option A) → (is_some_and o p ≡ false) ↔ IfSome P o
  absent_or_iff none = (λ h. tt, λ h. refl)
  absent_or_iff (some a) = iff a
