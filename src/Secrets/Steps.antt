-- ===== src/Secrets/Steps.antt =====
-- Rules for methods that move the durable record along the order of `Secrets.Order`.
use keirin_ai_web.Prelude.{
  ◌≡◌, refl, sym, ◌∙◌, ap, Bool, true, false, Option, some, inl, inr, if◌then◌else◌,
}
use keirin_ai_web.Outcome.{Raised, Result, ok, err}
use keirin_ai_web.Outcome.Method.{◌>>=◌, pure, raise, lift, continue}
use keirin_ai_web.Credentials.{CredentialBinding}
use keirin_ai_web.Secrets.Record.{RefreshSecretRecord}
use keirin_ai_web.Secrets.Store.{VersionedSecretStore, CasStep, applied, rejected}
use keirin_ai_web.Secrets.Order.{
  Succeeds, Later-eq_of_version, LaterStored, LaterStored-refl, LaterStored-trans,
}
use keirin_ai_web.Secrets.Source.Exchange.{World}
use keirin_ai_web.Secrets.Source.Methods.{Method}

-- A condition on the result of a call that returned.
abbrev pub Post : {A S : Type 0} → (A → S → Type 0) → Result A → S → Type 0
Post R (ok a) s = R a s
Post R (err e) s = Unit

module _ (vs : VersionedSecretStore) (b : CredentialBinding) where
  abbrev pub stored : World vs.Store → Option RefreshSecretRecord
  stored w = vs.durable b w.store

  -- What is stored is `r`, or came after it.
  abbrev pub Known : RefreshSecretRecord → World vs.Store → Type 0
  Known r w = LaterStored (some r) (stored w)

  abbrev pub Anywhere : World vs.Store → Type 0
  Anywhere w = Unit

  -- From `P`, the method moves the record along the order, makes no call of the exchange, and a
  -- result satisfies `R`.
  pub record Steps {A : Type 0} (P : World vs.Store → Type 0) (m : Method vs b A)
      (R : A → World vs.Store → Type 0) : Type 0 where
    pub at :
        (w : World vs.Store)
        → P w
        → LaterStored (stored w) (stored (m w).1)
          × ((m w).1.calls ≡ w.calls)
          × Post R (m w).0 (m w).1

module _ {vs : VersionedSecretStore} {b : CredentialBinding} where
  module _ {A : Type 0} {P : World vs.Store → Type 0} {R : A → World vs.Store → Type 0} where
    pub Steps-raise : (e : Raised) → Steps vs b P (raise e) R
    Steps-raise e = record { at = λ w h. (LaterStored-refl (stored vs b w), refl, tt) }

    pub Steps-pure : (a : A) → ((w : World vs.Store) → P w → R a w) → Steps vs b P (pure a) R
    Steps-pure a k = record { at = λ w h. (LaterStored-refl (stored vs b w), refl, k w h) }

    pub Steps-lift :
        (r : Result A) → ((w : World vs.Store) → P w → Post R r w) → Steps vs b P (lift r) R
    Steps-lift r k = record { at = λ w h. (LaterStored-refl (stored vs b w), refl, k w h) }

    pub Steps-if :
        (t : Bool) (m n : Method vs b A)
        → (t ≡ true → Steps vs b P m R)
        → (t ≡ false → Steps vs b P n R)
        → Steps vs b P (if t then m else n) R
    Steps-if true m n km kn = km refl
    Steps-if false m n km kn = kn refl

    -- A part of the condition that does not depend on the state.
    pub Steps-given :
        {E : Type 0} (m : Method vs b A) → (E → Steps vs b P m R) → Steps vs b (λ w. E × P w) m R
    Steps-given m k = record { at = λ w h. (k h.0).at w h.1 }

    -- A stronger condition before, for a method that needs a weaker one.
    pub Steps-before :
        {P' : World vs.Store → Type 0} (m : Method vs b A)
        → ((w : World vs.Store) → P' w → P w)
        → Steps vs b P m R
        → Steps vs b P' m R
    Steps-before m k km = record { at = λ w h. km.at w (k w h) }

  module _ {A B : Type 0} {Q : A → World vs.Store → Type 0} {R : B → World vs.Store → Type 0} where
    continue-Steps :
        (f : A → Method vs b B)
        → ((a : A) → Steps vs b (Q a) (f a) R)
        → (r : Result A) (w : World vs.Store) → Post Q r w
        → LaterStored (stored vs b w) (stored vs b (continue r f w).1)
          × ((continue r f w).1.calls ≡ w.calls)
          × Post R (continue r f w).0 (continue r f w).1
    continue-Steps f k (ok a) w h = (k a).at w h
    continue-Steps f k (err e) w h = (LaterStored-refl (stored vs b w), refl, tt)

    pub Steps-bind :
        {P : World vs.Store → Type 0} (m : Method vs b A) (f : A → Method vs b B)
        → Steps vs b P m Q
        → ((a : A) → Steps vs b (Q a) (f a) R)
        → Steps vs b P (m >>= f) R
    Steps-bind m f km kf = record {
      at = λ w h.
          let first = km.at w h in
          let second = continue-Steps f kf (m w).0 (m w).1 first.2 in
          (
            LaterStored-trans (stored vs b w) (stored vs b (m w).1) (stored vs b ((m >>= f) w).1)
                first.0 second.0,
            second.1 ∙ first.1,
            second.2,
          );
    }

-- One swap from a known record to a successor.
pub swapped :
    (cur new : RefreshSecretRecord) (reply : Result RefreshSecretRecord)
    (before after : Option RefreshSecretRecord)
    → CasStep cur.version new reply before after
    → LaterStored (some cur) before
    → Succeeds cur new
    → LaterStored before after
swapped cur new reply before after (applied c e v a r) k s =
    let same : c ≡ cur = Later-eq_of_version cur c (rw e at k) v in rw (e, a, same) (inr s)
swapped cur new reply before after (rejected e n) k s = rw e (LaterStored-refl before)

-- After the swap, a returned record is the one that is stored.
pub swapped_saved :
    (cur new : RefreshSecretRecord) (reply : Result RefreshSecretRecord)
    (before after : Option RefreshSecretRecord)
    → CasStep cur.version new reply before after
    → Post (λ r o. (r ≡ new) × (o ≡ some r)) reply after
swapped_saved cur new (ok x) before after (applied c e v a (inl r)) =
    let same : x ≡ new = cc in (same, a ∙ ap some (sym same))
swapped_saved cur new (ok x) before after (applied c e v a (inr r)) = absurd (r tt)
swapped_saved cur new (ok x) before after (rejected e n) = absurd (n tt)
swapped_saved cur new (err x) before after s = tt
