-- ===== src/Secrets/Evolution/Operator.antt =====
-- `revoke` and the recovery with a rotated secret move the durable record along the order of
-- `Secrets.Order`.
use keirin_ai_web.Prelude.{
  ℕ, String, ◌≡◌, refl, Option, some, true, false, Bool, not, ◌==◌, arith, nat_eq, string_eq,
  option_eq,
}
use keirin_ai_web.Outcome.{Result, ok, err, value_error}
use keirin_ai_web.Outcome.Pure.{raise_if}
use keirin_ai_web.Outcome.Method.{lift}
use keirin_ai_web.Credentials.{Value, seconds, is_filled_text, CredentialBinding}
use keirin_ai_web.Secrets.Record.{RefreshSecretRecord, SecretState, revoked, is_revoked, state_eq}
use keirin_ai_web.Secrets.Store.{VersionedSecretStore}
use keirin_ai_web.Secrets.Order.{Succeeds}
use keirin_ai_web.Secrets.Steps.{
  Known, Steps, Steps-raise, Steps-pure, Steps-lift, Steps-given, Steps-bind,
}
use keirin_ai_web.Secrets.Source.Exchange.{World}
use keirin_ai_web.Secrets.Source.Methods.{
  Swap, saved, ambiguous, conflict, escaped, fixed_attempt, read_record, recover_cas, after_recover,
}
use keirin_ai_web.Secrets.Source.Operator.{
  rotated_record, revoked_record, recovery_allowed, recover_ambiguous_with_rotated_secret,
  after_revoke, revoke_from, revoke,
}
use keirin_ai_web.Secrets.Evolution.Swaps.{
  SwapKnown, read_anywhere, confirmed-Steps, replace_swap-Steps,
}
use keirin_ai_web.Secrets.Evolution.Writes.{after_recover-Steps}

recovery_allowed-ok :
    (current : RefreshSecretRecord) (expected : ℕ) (attempt : Option String) (u : Unit {0})
    → recovery_allowed current expected attempt ≡ ok u
    → is_revoked current.state ≡ false
unfolding recovery_allowed
recovery_allowed-ok current expected attempt u h = ground arith

module _ (vs : VersionedSecretStore) (b : CredentialBinding) where
  after_revoke-Steps :
      (current new : RefreshSecretRecord) (swap : Swap)
      → Steps vs b (SwapKnown vs b current new swap) (after_revoke vs b swap) (Known vs b)
  unfolding after_revoke
  after_revoke-Steps current new (saved r) = Steps-pure r (λ w h. h.1)
  after_revoke-Steps current new ambiguous =
      Steps-bind (read_record vs b) _ (read_anywhere vs b)
        λ observed. confirmed-Steps vs b _ observed _ λ seen w h. h
  after_revoke-Steps current new conflict =
      Steps-bind (read_record vs b) _ (read_anywhere vs b)
        λ observed. confirmed-Steps vs b _ observed _ λ seen w h. h
  after_revoke-Steps current new (escaped e) = Steps-raise e

  revoke_from-Steps :
      (already : Bool) (current : RefreshSecretRecord)
      → (already ≡ false → is_revoked current.state ≡ false)
      → Steps vs b (Known vs b current) (revoke_from vs b already current) (Known vs b)
  unfolding revoke_from
  revoke_from-Steps true current live = Steps-pure current (λ w h. h)
  revoke_from-Steps false current live =
      replace_swap-Steps vs b current (revoked_record current) (λ _. after_revoke vs b)
        (record {
          version_grows = omega arith;
          not_revoked = live refl;
          generation_kept = omega arith;
          secret_spent = λ e. refl;
        })
        λ swap. after_revoke-Steps current _ swap

  not_yet_revoked : (s : SecretState) → (s == revoked) ≡ false → is_revoked s ≡ false
  not_yet_revoked s h = ground arith

  -- `revoke`
  pub revoke-Steps : Steps vs b (λ w. Unit {0}) (revoke vs b) (Known vs b)
  unfolding revoke
  revoke-Steps =
      Steps-bind (read_record vs b) _ (read_anywhere vs b)
        λ current. revoke_from-Steps _ current (not_yet_revoked current.state)

  recovery_allowed-Steps :
      (P : World vs.Store → Type 0) (current : RefreshSecretRecord) (expected : ℕ)
      (attempt : Option String)
      → Steps vs b P
          (lift (recovery_allowed current expected attempt))
          (λ u w. (is_revoked current.state ≡ false) × P w)
  recovery_allowed-Steps P current expected attempt =
      go (recovery_allowed current expected attempt) (recovery_allowed-ok current expected attempt)
    where
      go :
          (reply : Result (Unit {0}))
          → ((u : Unit {0}) → reply ≡ ok u → is_revoked current.state ≡ false)
          → Steps vs b P (lift reply) (λ u w. (is_revoked current.state ≡ false) × P w)
      go (ok u) k = Steps-lift (ok u) (λ w h. (k u refl, h))
      go (err e) k = Steps-raise e

  any_lift :
      {A : Type 0} {P : World vs.Store → Type 0} (r : Result A)
      → Steps vs b P (lift r) (λ a w. Unit {0})
  any_lift (ok a) = Steps-lift (ok a) (λ w h. tt)
  any_lift (err e) = Steps-raise e

  rotated-Succeeds :
      (current : RefreshSecretRecord) (rotated : Value)
      → is_revoked current.state ≡ false
      → Succeeds current (rotated_record current rotated)
  rotated-Succeeds current rotated live = record {
    version_grows = omega arith;
    not_revoked = live;
    generation_kept = omega arith;
    secret_spent = λ e. absurd (omega arith);
  }

  -- `recover_ambiguous_with_rotated_secret`
  pub recover_rotated-Steps :
      (expected_version attempt rotated : Value)
      → Steps vs b
          (λ w. Unit {0})
          (recover_ambiguous_with_rotated_secret vs b expected_version attempt rotated)
          (Known vs b)
  unfolding recover_ambiguous_with_rotated_secret recover_cas
  recover_rotated-Steps expected_version attempt rotated =
      Steps-bind _ _ (any_lift (seconds expected_version "secret_store_expected_version_invalid"))
        λ expected. Steps-bind _ _ (any_lift (fixed_attempt attempt)) λ attempt_id.
          Steps-bind _ _
            (any_lift (
              raise_if (not (is_filled_text rotated))
                (value_error "rotated_refresh_secret_required")))
            λ u. Steps-bind (read_record vs b) _ (read_anywhere vs b) λ current.
              Steps-bind _ _
                (recovery_allowed-Steps (Known vs b current) current expected (some attempt_id))
                λ v. Steps-given _ λ live.
                  replace_swap-Steps vs b current (rotated_record current rotated)
                    (λ _. after_recover vs b) (rotated-Succeeds current rotated live)
                    λ swap. after_recover-Steps vs b current _ swap
