-- ===== src/Credentials/Refreshing.antt =====
-- `RefreshingCredentialProvider` of agent_core/refresh_credentials.py: its state, its
-- revocation, and the tests before and after a refresh.
use keirin_ai_web.Prelude.{
  ℕ, ◌-◌, String, Bool, false, not, ◌||◌, Option, none, some, ltb, leb, ◌==◌, nat_eq, string_eq,
  list_eq, if◌then◌else◌,
}
use keirin_ai_web.Outcome.{
  Result, ok, err, value_error, scope_error, credential_revoked, auth_blocked, refresh_in_progress,
}
use keirin_ai_web.Outcome.Pure.{◌>>=◌, ◌>>◌, raise_if}
use keirin_ai_web.Credentials.Values.{Value, null, seconds}
use keirin_ai_web.Credentials.Capabilities.{Collection, capabilities}
use keirin_ai_web.Credentials.Snapshot.{is_missing, boolean_of}
use keirin_ai_web.Credentials.Binding.{
  CredentialBinding, AccessCredentialGrant, is_text, is_filled_text, validate_times,
}

pub data ProviderState : Type 0 where
  unconfigured refresh_required refreshing ready ready_rotated blocked_auth revoked : ProviderState

pub record RefreshingProvider : Type 0 where
  pub binding : CredentialBinding
  pub busy : Bool
  pub state : ProviderState
  pub failure : Option String
  pub grant : Option AccessCredentialGrant
  pub generation : ℕ

-- `RefreshingCredentialProvider(binding, source)`, by whether there is a source.
unfoldable pub refreshing_provider : CredentialBinding → Bool → RefreshingProvider
refreshing_provider b configured = record {
  binding = b;
  busy = false;
  state = if configured then refresh_required else unconfigured;
  failure = none;
  grant = none;
  generation = 0;
}

-- `revoke`
unfoldable pub revoke_refreshing : RefreshingProvider → RefreshingProvider
revoke_refreshing self = record self {
  state = revoked;
  failure = some "credential_provider_revoked";
  grant = none;
}

-- `_assert_issuance_allowed`
unfoldable pub issuance_allowed : ProviderState → Bool → Result (Unit {0})
issuance_allowed revoked busy = err (credential_revoked "credential_provider_revoked")
issuance_allowed unconfigured busy = err (auth_blocked "credential_auth_unavailable")
issuance_allowed blocked_auth busy = err (auth_blocked "credential_auth_unavailable")
issuance_allowed _ busy = raise_if busy (refresh_in_progress "credential_refresh_in_progress")

-- `_validate_grant`, behind the test on the type of the grant.
unfoldable pub validate_grant :
    RefreshingProvider → AccessCredentialGrant → ℕ → ℕ → Result (Unit {0})
unfolding is_text is_filled_text validate_times seconds
validate_grant self grant now minimum = do
  raise_if
      (not (is_text grant.provider_id self.binding.provider_id)
        || not (is_text grant.account_id self.binding.account_id))
      (value_error "credential_identity_mismatch")
  names ← capabilities grant.capabilities
  raise_if (not (names == self.binding.capabilities)) (value_error "credential_scope_changed")
  raise_if (not (is_filled_text grant.access_token)) (value_error "invalid_access_token")
  issued ← seconds grant.issued_at "invalid_issue_time"
  expires ← seconds grant.expires_at "invalid_expiry"
  validate_times grant.issued_at grant.expires_at
  raise_if (ltb now issued || leb expires now || ltb (expires - now) minimum)
      (value_error "invalid_access_lifetime")

-- `now_epoch`, where `null` is `None`.
unfoldable pub given_time : Value → Result (Option ℕ)
unfolding seconds
given_time null = ok none
given_time v = do n ← seconds v "invalid_now_epoch"; ok (some n)

-- The tests of `snapshot` before its first lock: the seconds asked for, and the time where one is given.
unfoldable pub check_request :
    CredentialBinding → Collection → Value → Value → Value → Result (ℕ × Option ℕ)
unfolding capabilities seconds boolean_of given_time is_missing
check_request b required minimum_ttl_seconds require_known_expiry now_epoch = do
  names ← capabilities required
  minimum ← seconds minimum_ttl_seconds "invalid_minimum_ttl"
  boolean_of require_known_expiry
  given ← given_time now_epoch
  raise_if (is_missing names b.capabilities) (scope_error "credential_capability_mismatch")
  ok (minimum, given)
