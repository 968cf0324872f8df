-- ===== src/Secrets/Source/Exchange.antt =====
-- What passes between the source and the provider: the calls, the replies, and the checks of
-- `_validate_exchange_result` in agent_core/versioned_secret_store.py.
use keirin_ai_web.Prelude.{
  ℕ, ◌-◌, String, not, ◌&&◌, Option, none, some, List, ltb, ◌==◌, list_eq, string_eq,
}
use keirin_ai_web.Outcome.{Result, err, value_error}
use keirin_ai_web.Outcome.Pure.{◌>>=◌, ◌>>◌, raise_if}
use keirin_ai_web.Credentials.{
  Value, seconds, capabilities, CredentialBinding, AccessCredentialGrant, is_text, is_filled_text,
  validate_times,
}
use keirin_ai_web.Secrets.Record.{RefreshSecretRecord}

-- `RefreshExchangeResult`; the grant is `none` where it is no `AccessCredentialGrant`.
pub record RefreshExchangeResult : Type 0 where
  pub grant : Option AccessCredentialGrant
  pub rotated_refresh_secret : Value

-- How a call of the exchange ends. `returned none` is an object of another type.
pub data ExchangeReply : Type 0 where
  returned : Option RefreshExchangeResult → ExchangeReply
  rejected : ExchangeReply
  failed : ExchangeReply
  interrupted : ExchangeReply
  exited : ExchangeReply

-- One call that was made, under the record that had been claimed for it.
pub record ExchangeCall : Type 0 where
  pub claimed : RefreshSecretRecord
  pub refresh_secret : String
  pub attempt_id : String
  pub minimum_ttl_seconds : ℕ

-- The store, and the calls made so far, the last one first.
pub record World (S : Type 0) : Type 0 where
  pub store : S
  pub calls : List ExchangeCall

unfoldable pub check_grant : CredentialBinding → ℕ → AccessCredentialGrant → Result (Unit {0})
check_grant b minimum_ttl_seconds grant = do
  raise_if (not (is_text grant.provider_id b.provider_id && is_text grant.account_id b.account_id))
      (value_error "credential_identity_mismatch")
  names ← capabilities grant.capabilities
  raise_if (not (names == b.capabilities)) (value_error "credential_scope_changed")
  raise_if (not (is_filled_text grant.access_token)) (value_error "invalid_access_token")
  issued_at ← seconds grant.issued_at "invalid_issue_time"
  expires_at ← seconds grant.expires_at "invalid_expiry"
  validate_times grant.issued_at grant.expires_at
  raise_if (ltb (expires_at - issued_at) minimum_ttl_seconds)
      (value_error "invalid_access_lifetime")

-- `_validate_exchange_result`
unfoldable pub validate_exchange_result :
    CredentialBinding → ℕ → Option RefreshExchangeResult → Result (Unit {0})
unfolding check_grant
validate_exchange_result b ttl none = err (value_error "invalid_refresh_exchange_result")
validate_exchange_result b ttl (some result) = elim result.grant [
  | none ↦ err (value_error "invalid_access_grant")
  | some grant ↦ do
    check_grant b ttl grant
    raise_if (not (is_filled_text result.rotated_refresh_secret))
        (value_error "rotated_refresh_secret_required")
]
