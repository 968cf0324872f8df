-- ===== src/Outcome/Method.antt =====
-- Methods of an object, with the object's state passed along; `attempt` is the body of a `try`.
use keirin_ai_web.Prelude.{◌≡◌, refl, ap, arith}
use keirin_ai_web.Outcome.{Raised, Result, ok, err, Exec}
use keirin_ai_web.Outcome.Pure.{Ensures, ok-injective}

module _ {ℓ} {S A : Type ℓ} where
  abbrev pub pure : A → Exec S A
  pure a s = (ok a, s)

  abbrev pub raise : Raised → Exec S A
  raise e s = (err e, s)

  abbrev pub lift : Result A → Exec S A
  lift r s = (r, s)

  abbrev pub attempt : Exec S A → Exec S (Result A)
  attempt m s = let (r, s') = m s in (ok r, s')

-- What follows a call: its rest, or nothing after a raise.
abbrev pub continue {ℓ} : {S A B : Type ℓ} → Result A → (A → Exec S B) → Exec S B
continue (ok a) rest s = rest a s
continue (err e) rest s = (err e, s)

infixl 5 ◌>>=◌
abbrev pub ◌>>=◌ {ℓ} : {S A B : Type ℓ} → Exec S A → (A → Exec S B) → Exec S B
◌>>=◌ call rest s = let (outcome, after) = call s in continue outcome rest after

infixl 5 ◌>>◌
abbrev pub ◌>>◌ {ℓ} : {S A B : Type ℓ} → Exec S A → Exec S B → Exec S B
call >> rest = call >>= λ _. rest

-- A condition on what a method returns, from whatever state, if it returns.
abbrev pub Yields {ℓ κ} : {S A : Type ℓ} → (A → Type κ) → Exec S A → Type (ℓ ⊔ κ)
Yields {S} R call = (s : S) → Ensures R (call s).0

module _ {ℓ κ} {S A B : Type ℓ} (R : B → Type κ) where
  continue-Yields :
      (f : A → Exec S B) (r : Result A) (s : S)
      → ((a : A) → r ≡ ok a → Yields R (f a))
      → Ensures R (continue r f s).0
  continue-Yields f (ok a) s h = h a refl s
  continue-Yields f (err e) s h = tt

  -- What follows a call may use what the call returned.
  pub bind-Yields :
      (call : Exec S A) (f : A → Exec S B)
      → ((a : A) (s : S) → (call s).0 ≡ ok a → Yields R (f a))
      → Yields R (call >>= f)
  bind-Yields call f h s = continue-Yields f (call s).0 (call s).1 (λ a p. h a s p)

-- A method returns a value from some state.
abbrev pub Returns {ℓ} : {S A : Type ℓ} → Exec S A → A → Type ℓ
Returns {S} call a = (s : S) × ((call s).0 ≡ ok a)

-- A condition on the state that a method keeps, whether it returns or raises.
abbrev pub Preserves {ℓ κ} : {S A : Type ℓ} → (S → Type κ) → Exec S A → Type (ℓ ⊔ κ)
Preserves {S} I call = (s : S) → I s → I (call s).1

-- A method keeps a condition on the state, and has another on what it returns.
pub record Leads {ℓ κ} {S A : Type ℓ} (I : S → Type κ) (R : A → Type κ) (call : Exec S A)
    : Type (ℓ ⊔ κ) where
  pub keeps : Preserves I call
  pub yields : Yields R call

module _ {ℓ κ} {S A B : Type ℓ} (I : S → Type κ) (R : B → Type κ) where
  continue-keeps :
      (f : A → Exec S B) (r : Result A) (s : S)
      → ((a : A) → r ≡ ok a → Leads I R (f a))
      → I s
      → I (continue r f s).1
  continue-keeps f (ok a) s h i = (h a refl).keeps s i
  continue-keeps f (err e) s h i = i

  pub bind-Leads :
      (call : Exec S A) (f : A → Exec S B)
      → Preserves I call
      → ((a : A) → Returns call a → Leads I R (f a))
      → Leads I R (call >>= f)
  bind-Leads call f p h = record {
    keeps = (λ s i. continue-keeps f (call s).0 (call s).1 (λ a e. h a (s, e)) (p s i));
    yields = bind-Yields R call f (λ a s e. (h a (s, e)).yields);
  }

module _ {ℓ} {S A B : Type ℓ} where
  -- A call that returned, and what followed it.
  pub continue-returned :
      (f : A → Exec S B) (r : Result A) (s s' : S) (b : B)
      → continue r f s ≡ (ok b, s')
      → (a : A) × (r ≡ ok a) × (f a s ≡ (ok b, s'))
  continue-returned f (ok a) s s' b h = (a, refl, h)
  continue-returned f (err e) s s' b h = absurd (ground (arith, ap (λ x. x.0) h))

  pub bind-returned :
      (call : Exec S A) (f : A → Exec S B) (s s' : S) (b : B)
      → (call >>= f) s ≡ (ok b, s')
      → (a : A) × (t : S) × (call s ≡ (ok a, t)) × (f a t ≡ (ok b, s'))
  bind-returned call f s s' b h =
      let (a, p, q) = continue-returned f (call s).0 (call s).1 s' b h in
      (a, (call s).1, ap (λ r. (r, (call s).1)) p, q)

pub pure-returned {ℓ} :
    {S A : Type ℓ} (a b : A) (s s' : S) → pure a s ≡ (ok b, s') → (a ≡ b) × (s ≡ s')
pure-returned a b s s' h = (ok-injective a b (ap (λ x. x.0) h), ap (λ x. x.1) h)
