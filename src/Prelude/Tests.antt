-- ===== src/Prelude/Tests.antt =====
-- Boolean tests on the native numbers, the conditional, equality tests by instances, and the
-- splits on computed values.
use Prim.Native.Nat.{ℕ, compare, Ordering}
use Prim.Native.String.{String}
use mathlib.Core.Path.{◌≡◌, refl}
use mathlib.Core.Logic.{◌↔◌, ◌⊎◌, inl, inr}
use mathlib.Core.Bool.{Bool, true, false, ◌&&◌, ◌||◌}
use mathlib.Core.List.{List, [], ◌∷◌, ◌++◌}
use mathlib.Core.Option.{Option, none, some}
use native.Mathlib.Omega.{arith}
use text.Mathlib.Text.{◌==◌ as text_eq}
use text.Mathlib.TextEquality.{eq_iff}

abbrev pub ltb : ℕ → ℕ → Bool
ltb a b = elim (compare a b) [ Ordering.lt ↦ true | _ ↦ false ]

abbrev pub leb : ℕ → ℕ → Bool
leb a b = elim (compare a b) [ Ordering.gt ↦ false | _ ↦ true ]

abbrev nat_beq : ℕ → ℕ → Bool
nat_beq a b = elim (compare a b) [ Ordering.eq ↦ true | _ ↦ false ]

infix 1 if◌then◌else◌
abbrev pub if◌then◌else◌ {ℓ} : {A : Type ℓ} → Bool → A → A → A
if true then x else y = x
if false then x else y = y

pub nat_beq_iff : (a b : ℕ) → (nat_beq a b ≡ true) ↔ (a ≡ b)
nat_beq_iff a b = ground arith

-- Python's `==` at one type, which decides equality there.
pub record Equality {ℓ} (K : Type ℓ) : Type ℓ where
  pub same : K → K → Bool
  pub same_iff : (x y : K) → (same x y ≡ true) ↔ (x ≡ y)

instance abbrev pub nat_eq : Equality ℕ
nat_eq = record { same_iff = nat_beq_iff; same = nat_beq }

abbrev pub ◌==◌ {ℓ} : {K : Type ℓ} ⦃d : Equality K⦄ → K → K → Bool
◌==◌ ⦃d⦄ x y = d.same x y

infix 50 ◌==◌
instance abbrev pub string_eq : Equality String
string_eq = record { same_iff = eq_iff; same = text_eq }

module _ {ℓ} {A : Type ℓ} ⦃e : Equality A⦄ where
  abbrev option_beq : Option A → Option A → Bool
  option_beq none none = true
  option_beq (some a) (some b) = a == b
  option_beq _ _ = false

  pub option_beq_iff : (a b : Option A) → (option_beq a b ≡ true) ↔ (a ≡ b)
  option_beq_iff none none = ground arith
  option_beq_iff (some a) (some b) = ground (arith, e.same_iff a b)
  option_beq_iff none (some b) = ground arith
  option_beq_iff (some a) none = ground arith

  abbrev list_beq : List A → List A → Bool
  list_beq [] [] = true
  list_beq (a ∷ l) (b ∷ r) = a == b && list_beq l r
  list_beq _ _ = false

  pub list_beq_iff : (l r : List A) → (list_beq l r ≡ true) ↔ (l ≡ r)
  list_beq_iff [] [] = ground arith
  list_beq_iff (a ∷ l) (b ∷ r) = ground (arith, e.same_iff a b, list_beq_iff l r)
  list_beq_iff [] (b ∷ r) = ground arith
  list_beq_iff (a ∷ l) [] = ground arith

  instance abbrev pub option_eq : Equality (Option A)
  option_eq = record { same = option_beq; same_iff = option_beq_iff }

  instance abbrev pub list_eq : Equality (List A)
  list_eq = record { same = list_beq; same_iff = list_beq_iff }

-- `a in l`
abbrev pub contains {ℓ} : {A : Type ℓ} ⦃e : Equality A⦄ → A → List A → Bool
contains a [] = false
contains a (x ∷ l) = a == x || contains a l

-- To split on a computed value and keep the equation.
pub Bool-cases : (b : Bool) → (b ≡ true) ⊎ (b ≡ false)
Bool-cases true = inl refl
Bool-cases false = inr refl

pub Option-cases {ℓ} : {A : Type ℓ} (o : Option A) → (o ≡ none) ⊎ ((a : A) × (o ≡ some a))
Option-cases none = inl refl
Option-cases (some a) = inr (a, refl)

pub contains-append_last : (a : String) (l : List String) → contains a (l ++ a ∷ []) ≡ true
contains-append_last a [] = ground (arith, eq_iff a a)
contains-append_last a (b ∷ l) = ground (arith, contains-append_last a l)

-- A conditional has what both of its branches have.
pub if-cases {ℓ κ} :
    {A : Type ℓ} (P : A → Type κ) (b : Bool) (x y : A)
    → (b ≡ true → P x)
    → (b ≡ false → P y)
    → P (if b then x else y)
if-cases P true x y h k = h refl
if-cases P false x y h k = k refl

-- Each element has the property.
abbrev pub Each {ℓ κ} : {A : Type ℓ} → (A → Type κ) → List A → Type κ
Each P [] = Unit
Each P (a ∷ l) = P a × Each P l
