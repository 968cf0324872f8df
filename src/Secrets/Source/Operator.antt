-- ===== src/Secrets/Source/Operator.antt =====
-- The operator's methods of agent_core/versioned_secret_store.py: the two recoveries from an
-- ambiguous refresh, and `revoke`.
use keirin_ai_web.Prelude.{
  ℕ, ◌+◌, String, Bool, true, false, not, ◌&&◌, ◌||◌, Option, none, some, ◌==◌, nat_eq, string_eq,
  option_eq, if◌then◌else◌,
}
use keirin_ai_web.Outcome.{Result, ok, err, value_error, auth_blocked, store_conflict}
use keirin_ai_web.Outcome.Pure.{raise_if}
use keirin_ai_web.Outcome.Method.{◌>>=◌, ◌>>◌, pure, raise, lift}
use keirin_ai_web.Credentials.{Value, seconds, CredentialBinding, is_filled_text}
use keirin_ai_web.Secrets.Record.{
  RefreshSecretRecord, ready, blocked_ambiguous, revoked, credential_source_revoked, state_eq,
  post_init,
}
use keirin_ai_web.Secrets.Store.{VersionedSecretStore}
use keirin_ai_web.Secrets.Source.Methods.{
  Method, Swap, saved, ambiguous, conflict, escaped, text_of, read_record, try_cas, fixed_attempt,
  confirmed, recover_cas,
}

abbrev pub reset_record : RefreshSecretRecord → RefreshSecretRecord
reset_record current = record current {
  version = current.version + 1;
  state = ready;
  active_attempt_id = none;
  failure = none;
}

abbrev pub rotated_record : RefreshSecretRecord → Value → RefreshSecretRecord
rotated_record current rotated = record current {
  version = current.version + 1;
  state = ready;
  refresh_secret = text_of rotated;
  refresh_generation = current.refresh_generation + 1;
  active_attempt_id = none;
  failure = none;
}

abbrev pub revoked_record : RefreshSecretRecord → RefreshSecretRecord
revoked_record current = record current {
  version = current.version + 1;
  state = revoked;
  refresh_secret = none;
  active_attempt_id = none;
  failure = some credential_source_revoked;
}

-- The guards that both recoveries make on the record that they read.
unfoldable pub recovery_allowed : RefreshSecretRecord → ℕ → Option String → Result (Unit {0})
recovery_allowed current expected attempt =
    if not (current.version == expected)
    then err (store_conflict "secret_store_version_conflict")
    else if not (current.state == blocked_ambiguous) || not (current.last_attempt_id == attempt)
    then err (auth_blocked "ambiguous_recovery_precondition_failed")
    else ok tt

-- The test on the record that is read back after a revocation that did not return.
unfoldable pub revocation_seen : RefreshSecretRecord → Bool
revocation_seen observed = observed.state == revoked && observed.refresh_secret == none

module _ (vs : VersionedSecretStore) (b : CredentialBinding) where
  -- `recover_ambiguous_not_applied`
  unfoldable pub recover_ambiguous_not_applied : Value → Value → Method vs b RefreshSecretRecord
  unfolding recovery_allowed
  recover_ambiguous_not_applied expected_version attempt = do
    expected ← lift (seconds expected_version "secret_store_expected_version_invalid")
    attempt_id ← lift (fixed_attempt attempt)
    current ← read_record vs b
    lift (recovery_allowed current expected (some attempt_id))
    replacement ← lift (post_init (reset_record current))
    recover_cas vs b current replacement

  -- `recover_ambiguous_with_rotated_secret`
  unfoldable pub recover_ambiguous_with_rotated_secret :
      Value → Value → Value → Method vs b RefreshSecretRecord
  unfolding recovery_allowed
  recover_ambiguous_with_rotated_secret expected_version attempt rotated = do
    expected ← lift (seconds expected_version "secret_store_expected_version_invalid")
    attempt_id ← lift (fixed_attempt attempt)
    lift (raise_if (not (is_filled_text rotated)) (value_error "rotated_refresh_secret_required"))
    current ← read_record vs b
    lift (recovery_allowed current expected (some attempt_id))
    replacement ← lift (post_init (rotated_record current rotated))
    recover_cas vs b current replacement

  unfoldable pub after_revoke : Swap → Method vs b RefreshSecretRecord
  after_revoke (saved r) = pure r
  after_revoke ambiguous = do
    observed ← read_record vs b
    lift (
        confirmed (revocation_seen observed) observed
          (auth_blocked "credential_revoke_persistence_ambiguous"))
  after_revoke conflict = do
    observed ← read_record vs b
    lift (
        confirmed (revocation_seen observed) observed
          (auth_blocked "credential_revoke_persistence_conflict"))
  after_revoke (escaped e) = raise e

  -- A revoked record is returned as it is.
  unfoldable pub revoke_from : Bool → RefreshSecretRecord → Method vs b RefreshSecretRecord
  unfolding after_revoke
  revoke_from true current = pure current
  revoke_from false current = do
    replacement ← lift (post_init (revoked_record current))
    swap ← try_cas vs b current replacement
    after_revoke swap

  -- `revoke`
  unfoldable pub revoke : Method vs b RefreshSecretRecord
  unfolding revoke_from
  revoke = do current ← read_record vs b; revoke_from (current.state == revoked) current
