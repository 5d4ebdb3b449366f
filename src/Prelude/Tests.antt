-- ===== src/Prelude/Tests.antt =====
-- Boolean tests on native numbers, the conditional, and Rust's `Result` with its `?`.
use Prim.Native.Nat.{ℕ, ◌≤◌, ◌<◌, compare, Ordering}
use mathlib.Core.Path.{◌≡◌, refl, ap}
use mathlib.Core.Logic.{◌↔◌, ◌⊎◌, inl, inr}
use mathlib.Core.Bool.{Bool, true, false, ◌&&◌, ◌||◌}
use mathlib.Core.Option.{Option, none, some}
use native.Mathlib.Omega.{arith}

abbrev pub ltb : ℕ → ℕ → Bool
ltb a b = elim (compare a b) [ Ordering.lt ↦ true | _ ↦ false ]

abbrev pub leb : ℕ → ℕ → Bool
leb a b = elim (compare a b) [ Ordering.gt ↦ false | _ ↦ true ]

infix 50 ◌==◌
abbrev pub ◌==◌ : ℕ → ℕ → Bool
a == b = elim (compare a b) [ Ordering.eq ↦ true | _ ↦ false ]

infix 1 if◌then◌else◌
abbrev pub if◌then◌else◌ {ℓ} : {A : Type ℓ} → Bool → A → A → A
if true then x else y = x
if false then x else y = y

pub leb→le : (a b : ℕ) → leb a b ≡ true → a ≤ b
leb→le a b h = ground arith

pub ltb→lt : (a b : ℕ) → ltb a b ≡ true → a < b
ltb→lt a b h = ground arith

pub ==_iff : (a b : ℕ) → ((a == b) ≡ true) ↔ (a ≡ b)
==_iff a b = ground arith

pub Bool-cases : (b : Bool) → (b ≡ true) ⊎ (b ≡ false)
Bool-cases true = inl refl
Bool-cases false = inr refl

pub Option-cases {ℓ} : {A : Type ℓ} (o : Option A) → (o ≡ none) ⊎ ((a : A) × (o ≡ some a))
Option-cases none = inl refl
Option-cases (some a) = inr (a, refl)

-- The methods of `Option` that the sources call.
module _ {ℓ} {A : Type ℓ} where
  abbrev pub is_some : Option A → Bool
  is_some none = false
  is_some (some a) = true

  abbrev pub is_some_and : Option A → (A → Bool) → Bool
  is_some_and none p = false
  is_some_and (some a) p = p a

  abbrev pub is_none_or : Option A → (A → Bool) → Bool
  is_none_or none p = true
  is_none_or (some a) p = p a

-- Rust's `Result`, with `?` as the bind of a `do` block.
pub data Result {ℓ κ} (A : Type ℓ) (E : Type κ) : Type (ℓ ⊔ κ) where
  ok : A → Result A E
  err : E → Result A E

infixl 5 ◌>>=◌ ◌>>◌
abbrev pub ◌>>=◌ {ℓ κ μ} :
    {A : Type ℓ} {B : Type κ} {E : Type μ} → Result A E → (A → Result B E) → Result B E
ok a >>= f = f a
err e >>= f = err e

abbrev pub ◌>>◌ {κ μ} : {B : Type κ} {E : Type μ} → Result (Unit {0}) E → Result B E → Result B E
m >> k = m >>= λ _. k

-- `if bad { return Err(e); }`
abbrev pub reject_if {μ} : {E : Type μ} → Bool → E → Result (Unit {0}) E
reject_if true e = err e
reject_if false e = ok tt

abbrev pub IsOk {ℓ κ} : {A : Type ℓ} {E : Type κ} → Result A E → Type 0
IsOk (ok a) = Unit
IsOk (err e) = ⊥

-- A sequence of checks passes exactly when each of them does.
pub >>-ok_iff {μ} :
    {E : Type μ} (m k : Result (Unit {0}) E) → ((m >> k) ≡ ok tt) ↔ ((m ≡ ok tt) × (k ≡ ok tt))
>>-ok_iff (ok tt) k = (λ h. (refl, h), λ h. h.1)
>>-ok_iff (err e) k = (λ h. cc, λ h. cc (h.0))

pub reject_if-ok_iff {μ} : {E : Type μ} (b : Bool) (e : E) → (reject_if b e ≡ ok tt) ↔ (b ≡ false)
reject_if-ok_iff true e = (λ h. cc, λ h. cc)
reject_if-ok_iff false e = (λ h. refl, λ h. refl)

pub &&_iff : (a b : Bool) → ((a && b) ≡ true) ↔ ((a ≡ true) × (b ≡ true))
&&_iff a b = (λ h. ground arith, λ h. ground arith)

pub ||_iff : (a b : Bool) → ((a || b) ≡ false) ↔ ((a ≡ false) × (b ≡ false))
||_iff a b = (λ h. ground arith, λ h. ground arith)

-- A test that decides `P` fails exactly when `P` does not hold.
pub false_iff {ℓ} : {P : Type ℓ} (b : Bool) → (b ≡ true) ↔ P → (b ≡ false) ↔ (¬ P)
false_iff true h = (λ e. cc, λ n. absurd (n (h.0 refl)))
false_iff false h = (λ e p. cc (h.1 p), λ n. refl)

module _ {μ} {E : Type μ} where
  -- The rules by which a chain of checks is read: one for a step, one for a test.
  pub then_iff :
      {P Q : Type 0} (m k : Result (Unit {0}) E)
      → (m ≡ ok tt) ↔ P
      → (k ≡ ok tt) ↔ Q
      → ((m >> k) ≡ ok tt) ↔ (P × Q)
  then_iff m k f g = (
    λ h. let (a, b) = (>>-ok_iff m k).0 h in (f.0 a, g.0 b),
    λ h. (>>-ok_iff m k).1 (f.1 h.0, g.1 h.1),
  )

  pub reject_iff : {P : Type 0} (b : Bool) (e : E) → (b ≡ false) ↔ P → (reject_if b e ≡ ok tt) ↔ P
  reject_iff b e f = (λ h. f.0 ((reject_if-ok_iff b e).0 h), λ p. (reject_if-ok_iff b e).1 (f.1 p))

-- A value behind a check is returned exactly when the check passes.
pub >>-value_iff {ℓ μ} :
    {A : Type ℓ} {E : Type μ} (m : Result (Unit {0}) E) (a b : A)
    → ((m >> ok a) ≡ ok b) ↔ ((m ≡ ok tt) × (a ≡ b))
>>-value_iff (ok tt) a b = (λ h. (refl, cc), λ h. cc (h.1))
>>-value_iff (err e) a b = (λ h. cc, λ h. cc (h.0))

-- What a chain that returns a value has passed.
module _ {μ} {E : Type μ} where
  pub >>=-ok {ℓ κ} :
      {A : Type ℓ} {B : Type κ} (m : Result A E) (f : A → Result B E) (b : B)
      → (m >>= f) ≡ ok b
      → (a : A) × (m ≡ ok a) × (f a ≡ ok b)
  >>=-ok (ok a) f b h = (a, refl, h)
  >>=-ok (err e) f b h = cc

  pub reject_if->>-ok {κ} :
      {B : Type κ} (bad : Bool) (e : E) (k : Result B E) (b : B)
      → (reject_if bad e >> k) ≡ ok b
      → (bad ≡ false) × (k ≡ ok b)
  reject_if->>-ok true e k b h = cc
  reject_if->>-ok false e k b h = (refl, h)

module _ {ℓ κ} {A : Type ℓ} {E : Type κ} where
  value_or : A → Result A E → A
  value_or a (ok b) = b
  value_or a (err e) = a

  pub ok-injective : (a b : A) → ◌≡◌ {A = Result A E} (ok a) (ok b) → a ≡ b
  unfolding value_or
  ok-injective a b h = ap (value_or a) h

module _ {ℓ κ} {A : Type ℓ} {E : Type κ} where
  error_or : E → Result A E → E
  error_or e (ok b) = e
  error_or e (err d) = d

  pub err-injective : (d e : E) → ◌≡◌ {A = Result A E} (err d) (err e) → d ≡ e
  unfolding error_or
  err-injective d e h = ap (error_or d) h

-- Where the error of a chain comes from.
pub >>=-err {ℓ κ μ} :
    {A : Type ℓ} {B : Type κ} {E : Type μ} (m : Result A E) (f : A → Result B E) (e : E)
    → (m >>= f) ≡ err e
    → (m ≡ err e) ⊎ ((a : A) × (m ≡ ok a) × (f a ≡ err e))
>>=-err (ok a) f e h = inr (a, refl, h)
>>=-err (err d) f e h = inl (ap err (err-injective _ _ h))
