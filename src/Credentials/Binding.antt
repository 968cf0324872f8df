-- ===== src/Credentials/Binding.antt =====
-- `CredentialBinding` and `AccessCredentialGrant` of agent_core/refresh_credentials.py, and
-- `_validate_times` of agent_core/credential_provider.py.
use keirin_ai_web.Prelude.{
  String, ◌≡◌, ◌↔◌, Bool, true, false, not, ◌&&◌, ◌||◌, List, arith, leb, Equality, ◌==◌, string_eq,
  list_eq, list_beq_iff, eq_iff, if◌then◌else◌,
}
use keirin_ai_web.Prelude.Text.{is_blank, strip}
use keirin_ai_web.Outcome.{Result, ok, err, value_error}
use keirin_ai_web.Outcome.Pure.{◌>>=◌, ◌>>◌, raise_if}
use keirin_ai_web.Credentials.Values.{Value, null, text, seconds}
use keirin_ai_web.Credentials.Capabilities.{Collection, capabilities}

pub record CredentialBinding : Type 0 where
  pub provider_id : String
  pub account_id : String
  pub capabilities : List String

abbrev binding_beq : CredentialBinding → CredentialBinding → Bool
binding_beq a b =
    a.provider_id == b.provider_id
    && a.account_id == b.account_id
    && a.capabilities == b.capabilities

pub binding_beq_iff : (a b : CredentialBinding) → (binding_beq a b ≡ true) ↔ (a ≡ b)
binding_beq_iff a b = ground (
  arith,
  eq_iff a.provider_id b.provider_id,
  eq_iff a.account_id b.account_id,
  list_beq_iff a.capabilities b.capabilities,
)

-- The equality that the frozen dataclass derives.
instance abbrev pub binding_eq : Equality CredentialBinding
binding_eq = record { same = binding_beq; same_iff = binding_beq_iff }

-- One turn of the loop of `CredentialBinding.__post_init__`.
unfoldable pub identity : Value → Result String
identity (text s) =
    if is_blank s || not (s == strip s)
    then err (value_error "credential_identity_required")
    else ok s
identity _ = err (value_error "credential_identity_required")

-- `CredentialBinding(provider_id, account_id, capabilities)`
unfoldable pub credential_binding : Value → Value → Collection → Result CredentialBinding
unfolding identity
credential_binding provider account wanted = do
  provider_id ← identity provider
  account_id ← identity account
  names ← capabilities wanted
  ok (record { provider_id = provider_id; account_id = account_id; capabilities = names })

-- What the host source hands over, not yet checked.
pub record AccessCredentialGrant : Type 0 where
  pub provider_id : Value
  pub account_id : Value
  pub capabilities : Collection
  pub access_token : Value
  pub issued_at : Value
  pub expires_at : Value

-- `value == s` for a text `s`
unfoldable pub is_text : Value → String → Bool
is_text (text t) s = t == s
is_text _ s = false

-- `isinstance(value, str) and value.strip()`
unfoldable pub is_filled_text : Value → Bool
is_filled_text (text t) = not (is_blank t)
is_filled_text _ = false

-- `_validate_times`; `None` is `null`.
unfoldable pub validate_times : Value → Value → Result (Unit {0})
unfolding seconds
validate_times null null = ok tt
validate_times null expires = do seconds expires "credential_expiry_invalid"; ok tt
validate_times issued null = do seconds issued "credential_issue_time_invalid"; ok tt
validate_times issued expires = do
  start ← seconds issued "credential_issue_time_invalid"
  stop ← seconds expires "credential_expiry_invalid"
  raise_if (leb stop start) (value_error "credential_expiry_must_follow_issue_time")
