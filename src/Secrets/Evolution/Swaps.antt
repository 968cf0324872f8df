-- ===== src/Secrets/Evolution/Swaps.antt =====
-- The parts that the methods of the credential source share: a read, a swap from a known record,
-- and `replace` followed by a swap.
use keirin_ai_web.Prelude.{
  Option, sym, ◌∙◌, ◌≡◌, refl, Bool, true, false, some, inl, arith, nat_eq, string_eq, option_eq,
}
use mathlib.Core.Path.{subst}
use keirin_ai_web.Outcome.{
  store_ambiguous, store_conflict, Raised, Result, ok, err, store_ambiguous, store_conflict,
}
use keirin_ai_web.Outcome.Method.{◌>>=◌, lift}
use keirin_ai_web.Credentials.{CredentialBinding}
use keirin_ai_web.Secrets.Record.{RefreshSecretRecord, state_eq, code_eq, post_init}
use keirin_ai_web.Secrets.Store.{VersionedSecretStore}
use keirin_ai_web.Secrets.Order.{Succeeds, LaterStored-refl, LaterStored-trans}
use keirin_ai_web.Secrets.Steps.{
  Post, stored, Known, Steps, Steps-raise, Steps-pure, Steps-lift, Steps-given, Steps-bind, swapped,
  swapped_saved,
}
use keirin_ai_web.Secrets.Source.Exchange.{World}
use keirin_ai_web.Secrets.Source.Methods.{
  Method, Swap, saved, classify, checked_read, read_record, try_cas, confirmed,
}

-- A checked read returns what the store returned.
checked_read-ok :
    (b : CredentialBinding) (reply : Result RefreshSecretRecord) (r : RefreshSecretRecord)
    → checked_read b reply ≡ ok r
    → reply ≡ ok r
unfolding checked_read
checked_read-ok b (ok x) r h = ground arith
checked_read-ok b (err e) r h = ground arith

-- `replace` returns the record that it was given.
post_init-ok : (x r : RefreshSecretRecord) → post_init x ≡ ok r → r ≡ x
unfolding post_init
post_init-ok x r h = ground arith

-- After a swap from `cur`: a saved record is the replacement and is stored; else what is stored
-- still comes after `cur`.
abbrev pub SwapKnown :
    (vs : VersionedSecretStore) (b : CredentialBinding) (cur new : RefreshSecretRecord)
    → Swap
    → World vs.Store
    → Type 0
SwapKnown vs b cur new (saved r) w = (r ≡ new) × Known vs b r w
SwapKnown vs b cur new _ w = Known vs b cur w

module _ (vs : VersionedSecretStore) (b : CredentialBinding) where
  read-Post :
      (w : World vs.Store) (reply : Result RefreshSecretRecord)
      → (read_record vs b w).0 ≡ reply
      → Post (λ r w'. stored vs b w' ≡ some r) reply (read_record vs b w).1
  unfolding read_record
  read-Post w (err e) h = tt
  read-Post w (ok r) h =
      vs.durable-read b w.store ∙ vs.read-durable b w.store r (checked_read-ok b _ r h)

  stored-read : (w : World vs.Store) → stored vs b (read_record vs b w).1 ≡ stored vs b w
  unfolding read_record
  stored-read w = vs.durable-read b w.store

  -- What is added to a result that is stored.
  read_keeps :
      (P : Option RefreshSecretRecord → Type 0) (w : World vs.Store)
      (reply : Result RefreshSecretRecord)
      → P (stored vs b w)
      → Post (λ r w'. stored vs b w' ≡ some r) reply (read_record vs b w).1
      → Post (λ r w'. P (some r) × (stored vs b w' ≡ some r)) reply (read_record vs b w).1
  read_keeps P w (ok r) p h = (subst P (sym (stored-read w) ∙ h) p, h)
  read_keeps P w (err e) p h = tt

  -- `_read` changes nothing durable, and its result is what is stored: what held of the stored
  -- record holds of the result.
  pub read_record-Steps :
      (P : Option RefreshSecretRecord → Type 0)
      → Steps vs b
          (λ w. P (stored vs b w))
          (read_record vs b)
          (λ r w. P (some r) × (stored vs b w ≡ some r))
  unfolding read_record
  read_record-Steps P = record {
    at = λ w h. (
      rw (vs.durable-read b w.store) (LaterStored-refl (stored vs b w)),
      refl,
      read_keeps P w (read_record vs b w).0 h (read-Post w (read_record vs b w).0 refl),
    );
  }

  -- A read, wherever it stands.
  pub read_anywhere : {P : World vs.Store → Type 0} → Steps vs b P (read_record vs b) (Known vs b)
  read_anywhere = record {
    at = λ w h.
        let step = (read_record-Steps (λ o. Unit)).at w tt in
        (step.0, step.1, known (read_record vs b w).1 (read_record vs b w).0 step.2);
  }
    where
      known :
          (w : World vs.Store) (reply : Result RefreshSecretRecord)
          → Post (λ r w'. Unit {0} × (stored vs b w' ≡ some r)) reply w
          → Post (Known vs b) reply w
      known w (ok r) h = rw h.1 (inl refl)
      known w (err e) h = tt

  swap-Post :
      (cur new : RefreshSecretRecord) (w : World vs.Store) (reply : Result RefreshSecretRecord)
      → Known vs b cur w
      → Post (λ r o. (r ≡ new) × (o ≡ some r)) reply (stored vs b w)
      → SwapKnown vs b cur new (classify reply) w
  unfolding classify
  swap-Post cur new w (ok r) k h = (h.0, rw h.1 (inl refl))
  swap-Post cur new w (err (store_ambiguous m)) k h = k
  swap-Post cur new w (err (store_conflict m)) k h = k
  swap-Post cur new w (err e) k h = k

  -- A swap from a known record to a successor of it.
  pub try_cas-Steps :
      (cur new : RefreshSecretRecord)
      → Succeeds cur new
      → Steps vs b (Known vs b cur) (try_cas vs b cur new) (SwapKnown vs b cur new)
  unfolding try_cas
  try_cas-Steps cur new s = record {
    at = λ w h.
        let step = vs.cas_step b cur.version new w.store in
        let (_, w') = try_cas vs b cur new w in
        let moved = swapped cur new _ (stored vs b w) (stored vs b w') step h s in
        (
          moved,
          refl,
          swap-Post cur new w' _
              (LaterStored-trans (some cur) (stored vs b w) (stored vs b w') h moved)
              (swapped_saved cur new _ (stored vs b w) (stored vs b w') step),
        );
  }

  -- `replace` keeps what is known.
  pub replace-Steps :
      (P : World vs.Store → Type 0) (x : RefreshSecretRecord)
      → Steps vs b P (lift (post_init x)) (λ r w. (r ≡ x) × P w)
  replace-Steps P x = Steps-lift (post_init x) (λ w h. go (post_init x) refl w h)
    where
      go :
          (reply : Result RefreshSecretRecord)
          → post_init x ≡ reply
          → (w : World vs.Store) → P w
          → Post (λ r w. (r ≡ x) × P w) reply w
      go (ok r) e w h = (post_init-ok x r e, h)
      go (err r) e w h = tt

  -- The shape of `_claim`, `_block` and `_commit_success`: `replace`, swap, and handle the outcome.
  pub replace_swap-Steps :
      {A : Type 0} {R : A → World vs.Store → Type 0} (cur x : RefreshSecretRecord)
      (after : RefreshSecretRecord → Swap → Method vs b A)
      → Succeeds cur x
      → ((swap : Swap) → Steps vs b (SwapKnown vs b cur x swap) (after x swap) R)
      → Steps vs b
          (Known vs b cur)
          (do new ← lift (post_init x); swap ← try_cas vs b cur new; after new swap)
          R
  replace_swap-Steps cur x after s k = Steps-bind _ _ (replace-Steps (Known vs b cur) x) λ new.
      Steps-given _ λ e. rw e (Steps-bind (try_cas vs b cur x) (after x) (try_cas-Steps cur x s) k)

  pub confirmed-Steps :
      {P : World vs.Store → Type 0} {R : RefreshSecretRecord → World vs.Store → Type 0} (t : Bool)
      (r : RefreshSecretRecord) (e : Raised)
      → (t ≡ true → (w : World vs.Store) → P w → R r w)
      → Steps vs b P (lift (confirmed t r e)) R
  unfolding confirmed
  confirmed-Steps true r e k = Steps-pure r (k refl)
  confirmed-Steps false r e k = Steps-raise e
