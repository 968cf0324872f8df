-- ===== src/Secrets/Source/Refresh.antt =====
-- `assert_available` and `refresh_access` of agent_core/versioned_secret_store.py.
use keirin_ai_web.Prelude.{ℕ, String, not, Option, none, some, ◌∷◌, ◌==◌}
use keirin_ai_web.Outcome.{
  Result, ok, err, auth_blocked, credential_revoked, refresh_in_progress, keyboard_interrupt,
  system_exit, assertion_error,
}
use keirin_ai_web.Outcome.Pure.{raise_if}
use keirin_ai_web.Outcome.Method.{◌>>=◌, ◌>>◌, raise, lift}
use keirin_ai_web.Credentials.{Value, seconds, CredentialBinding, AccessCredentialGrant, binding_eq}
use keirin_ai_web.Secrets.Record.{
  RefreshSecretRecord, SecretState, ready, refreshing, blocked_auth, blocked_ambiguous, revoked,
  refresh_rejected, refresh_outcome_ambiguous, refresh_response_invalid_or_incomplete,
}
use keirin_ai_web.Secrets.Store.{VersionedSecretStore}
use keirin_ai_web.Secrets.Source.Exchange.{
  ExchangeCall, ExchangeReply, returned, rejected, failed, interrupted, exited,
  RefreshExchangeResult, validate_exchange_result,
}
use keirin_ai_web.Secrets.Source.Methods.{
  Method, read_record, fixed_attempt, claim, block, commit_success,
}

-- The states other than `ready` raise, each its own error.
unfoldable pub require_ready : SecretState → Result (Unit {0})
require_ready ready = ok tt
require_ready revoked = err (credential_revoked "credential_source_revoked")
require_ready refreshing = err (refresh_in_progress "credential_refresh_owned_elsewhere")
require_ready blocked_ambiguous = err (auth_blocked "credential_refresh_outcome_ambiguous")
require_ready blocked_auth = err (auth_blocked "credential_auth_unavailable")

-- `result.grant`, which the validation has found to be a grant.
unfoldable pub hand_over : Option AccessCredentialGrant → Result AccessCredentialGrant
hand_over none = err assertion_error
hand_over (some grant) = ok grant

-- `exchange(binding, refresh_secret, attempt_id, minimum_ttl_seconds)`, with the store around it.
abbrev pub Exchange : VersionedSecretStore → Type 0
Exchange vs = CredentialBinding → String → String → ℕ → vs.Store → ExchangeReply × vs.Store

module _ (vs : VersionedSecretStore) (exchange : Exchange vs) (b : CredentialBinding) where
  -- `assert_available`
  unfoldable pub assert_available : Method vs b (Unit {0})
  unfolding require_ready
  assert_available = do r ← read_record vs b; lift (require_ready r.state)

  -- The call of the provider, with the claimed record's secret; the source asserts that it is there.
  unfoldable pub call_with :
      Option String → RefreshSecretRecord → String → ℕ → Method vs b ExchangeReply
  call_with none claimed attempt_id ttl w = (err assertion_error, w)
  call_with (some secret) claimed attempt_id ttl w =
      let (reply, s) = exchange b secret attempt_id ttl w.store in
      let call : ExchangeCall = record {
        claimed = claimed;
        refresh_secret = secret;
        attempt_id = attempt_id;
        minimum_ttl_seconds = ttl;
      } in
      (ok reply, record { store = s; calls = call ∷ w.calls })

  unfoldable pub call_exchange : RefreshSecretRecord → String → ℕ → Method vs b ExchangeReply
  unfolding call_with
  call_exchange claimed attempt_id ttl = call_with claimed.refresh_secret claimed attempt_id ttl

  -- The grant leaves the source only after the rotated secret is committed.
  unfoldable pub deliver :
      RefreshSecretRecord
      → String
      → Option RefreshExchangeResult
      → Method vs b AccessCredentialGrant
  unfolding hand_over
  deliver claimed attempt_id none = raise assertion_error
  deliver claimed attempt_id (some result) = do
    commit_success vs b claimed attempt_id result.rotated_refresh_secret
    lift (hand_over result.grant)

  -- What follows `_validate_exchange_result`, by its outcome.
  unfoldable pub after_validation :
      Result (Unit {0})
      → RefreshSecretRecord
      → String
      → Option RefreshExchangeResult
      → Method vs b AccessCredentialGrant
  unfolding deliver
  after_validation (err e) claimed attempt_id result = do
    block vs b claimed attempt_id blocked_ambiguous refresh_response_invalid_or_incomplete
    raise (auth_blocked "credential_refresh_outcome_ambiguous")
  after_validation (ok _) claimed attempt_id result = deliver claimed attempt_id result

  -- What `refresh_access` does with the provider's reply.
  unfoldable pub settle :
      RefreshSecretRecord → String → ℕ → ExchangeReply → Method vs b AccessCredentialGrant
  unfolding after_validation
  settle claimed attempt_id ttl rejected = do
    block vs b claimed attempt_id blocked_auth refresh_rejected
    raise (auth_blocked "credential_refresh_rejected")
  settle claimed attempt_id ttl failed = do
    block vs b claimed attempt_id blocked_ambiguous refresh_outcome_ambiguous
    raise (auth_blocked "credential_refresh_outcome_ambiguous")
  settle claimed attempt_id ttl interrupted = do
    block vs b claimed attempt_id blocked_ambiguous refresh_outcome_ambiguous
    raise (keyboard_interrupt "credential_refresh_interrupted")
  settle claimed attempt_id ttl exited = do
    block vs b claimed attempt_id blocked_ambiguous refresh_outcome_ambiguous
    raise (system_exit "credential_refresh_interrupted")
  settle claimed attempt_id ttl (returned result) =
      after_validation (validate_exchange_result b ttl result) claimed attempt_id result

  -- `refresh_access`; `attempt` is what the attempt id factory returns to this call.
  unfoldable pub refresh_access :
      CredentialBinding → Value → Value → Method vs b AccessCredentialGrant
  unfolding require_ready call_exchange settle
  refresh_access requested minimum_ttl_seconds attempt = do
    lift (raise_if (not (requested == b)) (auth_blocked "credential_binding_mismatch"))
    ttl ← lift (seconds minimum_ttl_seconds "invalid_minimum_ttl")
    current ← read_record vs b
    lift (require_ready current.state)
    attempt_id ← lift (fixed_attempt attempt)
    claimed ← claim vs b current attempt_id
    reply ← call_exchange claimed attempt_id ttl
    settle claimed attempt_id ttl reply
