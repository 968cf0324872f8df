-- ===== src/Secrets/Evolution/Refresh.antt =====
-- `refresh_access` moves the durable record along the order of `Secrets.Order` and presents no
-- refresh generation twice. Other hosts may move the record along the order meanwhile.
use keirin_ai_web.Prelude.{ℕ, String, ◌≡◌, refl, Option, none, some, inl, false, not, ◌==◌}
use mathlib.Core.Path.{subst}
use keirin_ai_web.Outcome.{Result, ok, err, auth_blocked}
use keirin_ai_web.Outcome.Pure.{raise_if}
use keirin_ai_web.Outcome.Method.{◌>>=◌, ◌>>◌, lift}
use keirin_ai_web.Credentials.{seconds, binding_eq, Value, CredentialBinding}
use keirin_ai_web.Secrets.Record.{
  RefreshSecretRecord, SecretState, ready, refreshing, revoked, blocked_auth, blocked_ambiguous,
  is_revoked,
}
use keirin_ai_web.Secrets.Store.{VersionedSecretStore}
use keirin_ai_web.Secrets.Order.{LaterStored, LaterStored-refl, LaterStored-trans}
use keirin_ai_web.Secrets.Steps.{stored, Known, Steps, Steps-raise, Steps-lift, Steps-bind}
use keirin_ai_web.Secrets.Source.Exchange.{
  World, ExchangeReply, returned, rejected, failed, interrupted, exited, RefreshExchangeResult,
}
use keirin_ai_web.Secrets.Source.Methods.{Method, claim, fixed_attempt}
use keirin_ai_web.Secrets.Source.Refresh.{
  Exchange, require_ready, call_with, call_exchange, hand_over, deliver, after_validation, settle,
  refresh_access,
}
use keirin_ai_web.Secrets.Evolution.Swaps.{read_record-Steps}
use keirin_ai_web.Secrets.Evolution.Writes.{Claimed, claim-Steps, block-Steps, commit_success-Steps}
use keirin_ai_web.Secrets.Evolution.Calls.{
  Below, Below-mono, Spent, Spent-later, Spent-Below, Serves, Steps-Serves, Serves-bind,
}

require_ready-ok : (s : SecretState) (u : Unit {0}) → require_ready s ≡ ok u → s ≡ ready
unfolding require_ready
require_ready-ok ready u h = refl
require_ready-ok refreshing u h = cc
require_ready-ok blocked_auth u h = cc
require_ready-ok blocked_ambiguous u h = cc
require_ready-ok revoked u h = cc

-- Whoever else uses the store while the exchange runs moves the record along the order.
abbrev pub Polite : (vs : VersionedSecretStore) → Exchange vs → CredentialBinding → Type 0
Polite vs exchange b =
    (secret attempt_id : String) (ttl : ℕ) (s : vs.Store)
    → LaterStored (vs.durable b s) (vs.durable b (exchange b secret attempt_id ttl s).1)

module _ (vs : VersionedSecretStore) (exchange : Exchange vs) (b : CredentialBinding)
    (polite : Polite vs exchange b) where
  abbrev Anything : {A : Type 0} → A → World vs.Store → Type 0
  Anything a w = Unit

  call_with-Serves :
      {A : Type 0} (current claimed : RefreshSecretRecord) (attempt_id : String) (ttl : ℕ)
      (f : ExchangeReply → Method vs b A)
      → ((reply : ExchangeReply) → Serves vs b (Claimed vs b current claimed) (f reply))
      → (secret : Option String)
      → Serves vs b
          (λ w. Claimed vs b current claimed w × Below current.refresh_generation w.calls)
          (call_with vs exchange b secret claimed attempt_id ttl >>= f)
  unfolding call_with
  call_with-Serves current claimed attempt_id ttl f k none = record {
    run = λ w h a. (LaterStored-refl (stored vs b w), a);
  }
  call_with-Serves current claimed attempt_id ttl f k (some secret) = record {
    run = λ w h a.
        let (reply, s) = exchange b secret attempt_id ttl w.store in
        let (_, w') = call_with vs exchange b (some secret) claimed attempt_id ttl w in
        let moved = polite secret attempt_id ttl w.store in
        let (live, shut, grown, known) = h.0 in
        let known' =
          LaterStored-trans (some claimed) (stored vs b w) (vs.durable b s) known moved in
        let rest =
          (k reply).run w' (live, shut, grown, known')
            (
              (shut, known', Spent-later (stored vs b w) (vs.durable b s) w.calls moved a.0),
              (
                Below-mono current.refresh_generation claimed.refresh_generation w.calls grown h.1,
                a.1,
              ),
            ) in
        (
          LaterStored-trans (stored vs b w) (vs.durable b s) (stored vs b (f reply w').1) moved
              rest.0,
          rest.1,
        );
  }

  any_lift :
      {A : Type 0} {P : World vs.Store → Type 0} (r : Result A) → Steps vs b P (lift r) Anything
  any_lift (ok a) = Steps-lift (ok a) (λ w h. tt)
  any_lift (err e) = Steps-lift (err e) (λ w h. tt)

  kept_lift :
      {A : Type 0} (P : World vs.Store → Type 0) (r : Result A) → Steps vs b P (lift r) (λ a. P)
  kept_lift P (ok a) = Steps-lift (ok a) (λ w h. h)
  kept_lift P (err e) = Steps-lift (err e) (λ w h. tt)

  deliver-Steps :
      (claimed : RefreshSecretRecord) (attempt_id : String) (result : Option RefreshExchangeResult)
      → is_revoked claimed.state ≡ false
      → Steps vs b (Known vs b claimed) (deliver vs exchange b claimed attempt_id result) Anything
  unfolding deliver
  deliver-Steps claimed attempt_id none live = Steps-raise _
  deliver-Steps claimed attempt_id (some result) live =
      Steps-bind _ _
        (commit_success-Steps vs b claimed attempt_id result.rotated_refresh_secret live)
        λ r. any_lift (hand_over result.grant)

  after_validation-Steps :
      (verdict : Result (Unit {0})) (claimed : RefreshSecretRecord) (attempt_id : String)
      (result : Option RefreshExchangeResult)
      → is_revoked claimed.state ≡ false
      → Steps vs b
          (Known vs b claimed)
          (after_validation vs exchange b verdict claimed attempt_id result)
          Anything
  unfolding after_validation
  after_validation-Steps (err e) claimed attempt_id result live =
      Steps-bind _ _ (block-Steps vs b claimed attempt_id blocked_ambiguous _ live refl)
        λ r. Steps-raise _
  after_validation-Steps (ok u) claimed attempt_id result live =
      deliver-Steps claimed attempt_id result live

  settle-Steps :
      (claimed : RefreshSecretRecord) (attempt_id : String) (ttl : ℕ) (reply : ExchangeReply)
      → is_revoked claimed.state ≡ false
      → Steps vs b (Known vs b claimed) (settle vs exchange b claimed attempt_id ttl reply) Anything
  unfolding settle
  settle-Steps claimed attempt_id ttl rejected live =
      Steps-bind _ _ (block-Steps vs b claimed attempt_id blocked_auth _ live refl)
        λ r. Steps-raise _
  settle-Steps claimed attempt_id ttl failed live =
      Steps-bind _ _ (block-Steps vs b claimed attempt_id blocked_ambiguous _ live refl)
        λ r. Steps-raise _
  settle-Steps claimed attempt_id ttl interrupted live =
      Steps-bind _ _ (block-Steps vs b claimed attempt_id blocked_ambiguous _ live refl)
        λ r. Steps-raise _
  settle-Steps claimed attempt_id ttl exited live =
      Steps-bind _ _ (block-Steps vs b claimed attempt_id blocked_ambiguous _ live refl)
        λ r. Steps-raise _
  settle-Steps claimed attempt_id ttl (returned result) live =
      after_validation-Steps _ claimed attempt_id result live

  settle-Serves :
      (current claimed : RefreshSecretRecord) (attempt_id : String) (ttl : ℕ)
      (reply : ExchangeReply)
      → Serves vs b
          (Claimed vs b current claimed)
          (settle vs exchange b claimed attempt_id ttl reply)
  settle-Serves current claimed attempt_id ttl reply = record {
    run =
        λ w h a. (Steps-Serves vs b _ (settle-Steps claimed attempt_id ttl reply h.0)).run w h.3 a;
  }

  -- From the claim on, for a record that was read ready.
  claim_and_call :
      (current : RefreshSecretRecord) (attempt_id : String) (ttl : ℕ)
      → current.state ≡ ready
      → Serves vs b
          (λ w. Known vs b current w × Below current.refresh_generation w.calls)
          (do
            claimed ← claim vs b current attempt_id
            reply ← call_exchange vs exchange b claimed attempt_id ttl
            settle vs exchange b claimed attempt_id ttl reply)
  unfolding call_exchange
  claim_and_call current attempt_id ttl e =
      Serves-bind vs b (Below current.refresh_generation) (claim vs b current attempt_id) _
        (claim-Steps vs b current attempt_id (rw e))
        λ claimed.
          call_with-Serves current claimed attempt_id ttl _
            (settle-Serves current claimed attempt_id ttl) claimed.refresh_secret

  require_ready-Steps :
      (P : World vs.Store → Type 0) (state : SecretState)
      → Steps vs b P (lift (require_ready state)) (λ u w. (state ≡ ready) × P w)
  require_ready-Steps P state = go (require_ready state) (require_ready-ok state)
    where
      go :
          (reply : Result (Unit {0}))
          → ((u : Unit {0}) → reply ≡ ok u → state ≡ ready)
          → Steps vs b P (lift reply) (λ u w. (state ≡ ready) × P w)
      go (ok u) k = Steps-lift (ok u) (λ w h. (k u refl, h))
      go (err e) k = Steps-raise e

  attempt_and_call :
      (current : RefreshSecretRecord) (attempt : Value) (ttl : ℕ)
      → current.state ≡ ready
      → Serves vs b
          (λ w. Known vs b current w × Below current.refresh_generation w.calls)
          (do
            attempt_id ← lift (fixed_attempt attempt)
            claimed ← claim vs b current attempt_id
            reply ← call_exchange vs exchange b claimed attempt_id ttl
            settle vs exchange b claimed attempt_id ttl reply)
  attempt_and_call current attempt ttl e =
      Serves-bind vs b (Below current.refresh_generation) (lift (fixed_attempt attempt)) _
        (kept_lift (Known vs b current) (fixed_attempt attempt))
        λ attempt_id. claim_and_call current attempt_id ttl e

  after_read :
      (current : RefreshSecretRecord) (attempt : Value) (ttl : ℕ)
      → Serves vs b
          (λ w. (Unit {0} × (stored vs b w ≡ some current)) × Unit {0})
          (do
            lift (require_ready current.state)
            attempt_id ← lift (fixed_attempt attempt)
            claimed ← claim vs b current attempt_id
            reply ← call_exchange vs exchange b claimed attempt_id ttl
            settle vs exchange b claimed attempt_id ttl reply)
  after_read current attempt ttl =
      Serves-bind vs b (λ l. Unit {0}) _ _
        (require_ready-Steps (λ w. Unit {0} × (stored vs b w ≡ some current)) current.state)
        λ u. record {
          run = λ w h a.
              let unused =
                Spent-Below current w.calls (rw h.0.0) (subst (λ o. Spent o w.calls) h.0.1.1 a.0) in
              (attempt_and_call current attempt ttl h.0.0).run w (rw h.0.1.1 (inl refl), unused) a;
        }

  pub refresh_access-Serves :
      (requested : CredentialBinding) (minimum_ttl_seconds attempt : Value)
      → Serves vs b
          (λ w. Unit {0} × Unit {0})
          (refresh_access vs exchange b requested minimum_ttl_seconds attempt)
  unfolding refresh_access
  refresh_access-Serves requested minimum_ttl_seconds attempt =
      Serves-bind vs b (λ l. Unit {0}) _ _
        (any_lift (raise_if (not (requested == b)) (auth_blocked "credential_binding_mismatch")))
        λ u.
          Serves-bind vs b (λ l. Unit {0}) _ _
            (any_lift (seconds minimum_ttl_seconds "invalid_minimum_ttl"))
            λ ttl.
              Serves-bind vs b (λ l. Unit {0}) _ _ (read_record-Steps vs b (λ o. Unit {0}))
                λ current. after_read current attempt ttl
