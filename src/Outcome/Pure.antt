-- ===== src/Outcome/Pure.antt =====
-- A chain of checks that may raise and change nothing.
use mathlib.Core.Path.{subst}
use keirin_ai_web.Prelude.{
  if◌then◌else◌, arith, Bool, true, false, not, ◌||◌, ◌≡◌, ◌⊎◌, inl, inr, refl,
}
use keirin_ai_web.Outcome.{Raised, Result, ok, err}

infixl 5 ◌>>=◌ ◌>>◌
abbrev pub ◌>>=◌ {ℓ κ} : {A : Type ℓ} {B : Type κ} → Result A → (A → Result B) → Result B
ok a >>= f = f a
err e >>= f = err e

abbrev pub ◌>>◌ {ℓ κ} : {A : Type ℓ} {B : Type κ} → Result A → Result B → Result B
m >> k = m >>= λ _. k

-- `if test: raise e`
abbrev pub raise_if : Bool → Raised → Result (Unit {0})
raise_if true e = err e
raise_if false e = ok tt

pub Result-cases {ℓ} :
    {A : Type ℓ} (m : Result A) → ((a : A) × (m ≡ ok a)) ⊎ ((e : Raised) × (m ≡ err e))
Result-cases (ok a) = inl (a, refl)
Result-cases (err e) = inr (e, refl)

pub bind-ok {ℓ κ} :
    {A : Type ℓ} {B : Type κ} (m : Result A) (f : A → Result B) (b : B)
    → m >>= f ≡ ok b
    → (a : A) × (m ≡ ok a) × (f a ≡ ok b)
bind-ok (ok a) f b h = (a, refl, h)
bind-ok (err e) f b h = ground arith

-- A condition on what a chain of checks returns, if it returns.
abbrev pub Ensures {ℓ κ} : {A : Type ℓ} → (A → Type κ) → Result A → Type κ
Ensures R (ok a) = R a
Ensures R (err e) = Unit

pub bind-Ensures {ℓ κ μ} :
    {A : Type ℓ} {B : Type κ} (R : B → Type μ) (m : Result A) (f : A → Result B)
    → ((a : A) → m ≡ ok a → Ensures R (f a))
    → Ensures R (m >>= f)
bind-Ensures R (ok a) f h = h a refl
bind-Ensures R (err e) f h = tt

pub ensured {ℓ κ} :
    {A : Type ℓ} (R : A → Type κ) (m : Result A) (a : A) → Ensures R m → m ≡ ok a → R a
ensured R (ok b) a h e = subst R (ground arith) h
ensured R (err x) a h e = absurd (ground arith)

pub Ensures-mono {ℓ κ μ} :
    {A : Type ℓ} (R : A → Type κ) (Q : A → Type μ) (m : Result A)
    → ((a : A) → R a → Q a)
    → Ensures R m
    → Ensures Q m
Ensures-mono R Q (ok a) f h = f a h
Ensures-mono R Q (err e) f h = tt

pub passed : (t : Bool) (e : Raised) (u : Unit {0}) → raise_if t e ≡ ok u → t ≡ false
passed true e u h = absurd (ground arith)
passed false e u h = refl

pub both-pass :
    (a b : Bool) (e : Raised) (u : Unit {0})
    → raise_if (not a || not b) e ≡ ok u
    → (a ≡ true) × (b ≡ true)
both-pass true true e u h = (refl, refl)
both-pass true false e u h = absurd (ground arith)
both-pass false b e u h = absurd (ground arith)

pub must : (t : Bool) (e : Raised) (u : Unit {0}) → raise_if (not t) e ≡ ok u → t ≡ true
must true e u h = refl
must false e u h = absurd (ground arith)

-- `if not test: raise e`
pub accepted {ℓ} :
    {A : Type ℓ} (t : Bool) (m : Result A) (e : Raised) (a : A)
    → (if t then m else err e) ≡ ok a
    → (t ≡ true) × (m ≡ ok a)
accepted true m e a h = (refl, h)
accepted false m e a h = absurd (ground (arith, h))

pub ok-injective {ℓ} : {A : Type ℓ} (a b : A) → ok a ≡ ok b → a ≡ b
ok-injective a b h = ground (arith, h)
