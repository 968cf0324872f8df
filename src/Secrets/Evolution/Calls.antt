-- ===== src/Secrets/Evolution/Calls.antt =====
-- Methods that may call the provider: rules for the order of `Secrets.Order` together with the
-- record of the calls that were made.
use keirin_ai_web.Prelude.{
  ◌<◌, ◌≤◌, ℕ, ◌≡◌, List, [], ◌∷◌, Option, some, inl, inr, false, true, arith,
}
use native.Mathlib.Decide.{dec_lt}
use keirin_ai_web.Outcome.{Result, ok, err}
use keirin_ai_web.Outcome.Method.{◌>>=◌, continue}
use keirin_ai_web.Credentials.{CredentialBinding}
use keirin_ai_web.Secrets.Record.{RefreshSecretRecord, is_ready}
use keirin_ai_web.Secrets.Store.{VersionedSecretStore}
use keirin_ai_web.Secrets.Order.{Later, LaterStored, LaterStored-refl, LaterStored-trans}
use keirin_ai_web.Secrets.Steps.{Post, stored, Steps}
use keirin_ai_web.Secrets.Source.Exchange.{World, ExchangeCall}
use keirin_ai_web.Secrets.Source.Methods.{Method}

-- The calls, newest first, were made under falling generations: none was made twice.
abbrev pub Below : ℕ → List ExchangeCall → Type 0
Below n [] = Unit
Below n (c ∷ l) = (c.claimed.refresh_generation < n) × Below n l

abbrev pub EachGenerationOnce : List ExchangeCall → Type 0
EachGenerationOnce [] = Unit
EachGenerationOnce (c ∷ l) = Below c.claimed.refresh_generation l × EachGenerationOnce l

-- Every call was made under a record that what is stored comes after, and that was not ready.
abbrev pub Spent : Option RefreshSecretRecord → List ExchangeCall → Type 0
Spent o [] = Unit
Spent o (c ∷ l) = (is_ready c.claimed.state ≡ false) × LaterStored (some c.claimed) o × Spent o l

pub Below-mono : (m n : ℕ) (l : List ExchangeCall) → m ≤ n → Below m l → Below n l
Below-mono m n [] h k = tt
Below-mono m n (c ∷ l) h k = (omega (arith, h, k.0), Below-mono m n l h k.1)

pub Spent-later :
    (o p : Option RefreshSecretRecord) (l : List ExchangeCall)
    → LaterStored o p
    → Spent o l
    → Spent p l
Spent-later o p [] h s = tt
Spent-later o p (c ∷ l) h s =
    (s.0, LaterStored-trans (some c.claimed) o p s.1 h, Spent-later o p l h s.2)

-- A ready record was reached from an earlier call's record only with a new generation.
ready_after :
    (old new : RefreshSecretRecord)
    → is_ready old.state ≡ false
    → is_ready new.state ≡ true
    → Later old new
    → old.refresh_generation < new.refresh_generation
ready_after old new h k (inl e) = cc
ready_after old new h k (inr s) = elim (dec_lt old.refresh_generation new.refresh_generation) [
  | yes grown ↦ grown
  | no same ↦
      let spent : is_ready new.state ≡ false =
        s.secret_spent (omega (arith, s.generation_kept, same)) in
      cc (spent, k)
]

pub Spent-Below :
    (current : RefreshSecretRecord) (l : List ExchangeCall)
    → is_ready current.state ≡ true
    → Spent (some current) l
    → Below current.refresh_generation l
Spent-Below current [] h s = tt
Spent-Below current (c ∷ l) h s =
    (ready_after c.claimed current s.0 h s.1, Spent-Below current l h s.2)

module _ (vs : VersionedSecretStore) (b : CredentialBinding) where
  -- The calls of a world are accounted for.
  abbrev pub Accounted : World vs.Store → Type 0
  Accounted w = Spent (stored vs b w) w.calls × EachGenerationOnce w.calls

  -- From `P`, the method moves the record along the order and keeps the calls accounted for.
  pub record Serves {A : Type 0} (P : World vs.Store → Type 0) (m : Method vs b A) : Type 0 where
    pub run :
        (w : World vs.Store)
        → P w
        → Accounted w
        → LaterStored (stored vs b w) (stored vs b (m w).1) × Accounted (m w).1

module _ (vs : VersionedSecretStore) (b : CredentialBinding) where
  Accounted-still :
      (w w' : World vs.Store)
      → LaterStored (stored vs b w) (stored vs b w')
      → w'.calls ≡ w.calls
      → Accounted vs b w
      → Accounted vs b w'
  Accounted-still w w' h e a =
      rw e (Spent-later (stored vs b w) (stored vs b w') w.calls h a.0, a.1)

  -- A method that makes no call serves.
  pub Steps-Serves :
      {A : Type 0} {P : World vs.Store → Type 0} {R : A → World vs.Store → Type 0}
      (m : Method vs b A)
      → Steps vs b P m R
      → Serves vs b P m
  Steps-Serves m km = record {
    run = λ w h a. let step = km.at w h in (step.0, Accounted-still w (m w).1 step.0 step.1 a);
  }

  module _ {A B : Type 0} {Q : A → World vs.Store → Type 0} (C : List ExchangeCall → Type 0) where
    continue-Serves :
        (f : A → Method vs b B)
        → ((a : A) → Serves vs b (λ w. Q a w × C w.calls) (f a))
        → (r : Result A) (w : World vs.Store) → Post Q r w
        → C w.calls
        → Accounted vs b w
        → LaterStored (stored vs b w) (stored vs b (continue r f w).1)
          × Accounted vs b (continue r f w).1
    continue-Serves f k (ok x) w h c a = (k x).run w (h, c) a
    continue-Serves f k (err e) w h c a = (LaterStored-refl (stored vs b w), a)

    -- A step that makes no call, and what follows; `C` is kept about the calls so far.
    pub Serves-bind :
        {P : World vs.Store → Type 0} (m : Method vs b A) (f : A → Method vs b B)
        → Steps vs b P m Q
        → ((a : A) → Serves vs b (λ w. Q a w × C w.calls) (f a))
        → Serves vs b (λ w. P w × C w.calls) (m >>= f)
    Serves-bind m f km kf = record {
      run = λ w h a.
          let step = km.at w h.0 in
          let (r, w') = m w in
          let rest =
            continue-Serves f kf r w' step.2 (rw step.1 h.1)
              (Accounted-still w w' step.0 step.1 a) in
          (
            LaterStored-trans (stored vs b w) (stored vs b w') (stored vs b ((m >>= f) w).1) step.0
                rest.0,
            rest.1,
          );
    }
