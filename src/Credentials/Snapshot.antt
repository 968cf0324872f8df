-- ===== src/Credentials/Snapshot.antt =====
-- `CredentialSnapshot` and `StaticInMemoryCredentialProvider` of agent_core/credential_provider.py.
use keirin_ai_web.Prelude.{
  ℕ, ◌-◌, ◌≡◌, String, Bool, true, false, not, ◌||◌, Option, none, some, List, [], ◌∷◌, ltb, leb,
  string_eq, contains, if◌then◌else◌,
}
use keirin_ai_web.Prelude.Text.{is_blank, strip}
use keirin_ai_web.Prelude.Dict.{Dict, lookup}
use keirin_ai_web.Outcome.{
  Result, ok, err, value_error, provider_error, scope_error, lifetime_error, credential_revoked,
}
use keirin_ai_web.Outcome.Pure.{◌>>=◌, ◌>>◌, raise_if}
use keirin_ai_web.Credentials.Values.{Value, null, truth, int, text, pos, seconds}
use keirin_ai_web.Credentials.Capabilities.{Collection, items, capabilities}
use keirin_ai_web.Credentials.Binding.{CredentialBinding, validate_times, credential_binding}

-- The argument `secrets`: no mapping, or the pairs that it lists.
pub data Secrets : Type 0 where
  not_mapping : Secrets
  mapping : List (Value × Value) → Secrets

-- The test on each pair, with the copy.
unfoldable pub copy_pairs : List (Value × Value) → Result (Dict String String)
copy_pairs [] = ok []
copy_pairs ((text name, text value) ∷ l) =
    let rest = copy_pairs l in
    if is_blank name || is_blank value
    then err (value_error "non_empty_runtime_secrets_required")
    else elim rest [ ok pairs ↦ ok ((name, value) ∷ pairs) | err e ↦ err e ]
copy_pairs (_ ∷ l) = err (value_error "non_empty_runtime_secrets_required")

-- `_copy_secrets`
unfoldable pub copy_secrets : Secrets → Result (Dict String String)
unfolding copy_pairs
copy_secrets not_mapping = err (value_error "non_empty_runtime_secrets_required")
copy_secrets (mapping []) = err (value_error "non_empty_runtime_secrets_required")
copy_secrets (mapping (p ∷ l)) = copy_pairs (p ∷ l)

-- `isinstance(provider_id, str) and provider_id.strip()`, with the stripped text.
unfoldable pub provider_name : Value → Result String
provider_name (text s) =
    if is_blank s then err (value_error "provider_id_required") else ok (strip s)
provider_name _ = err (value_error "provider_id_required")

-- The label, or `None` for what is no filled text.
unfoldable pub label_of : Value → Option String
label_of (text s) = if is_blank s then none else some (strip s)
label_of _ = none

-- A time that `_validate_times` admits; `None` is `null`.
unfoldable pub time_of : Value → Option ℕ
time_of (int (pos n)) = some n
time_of _ = none

pub record CredentialSnapshot : Type 0 where
  pub provider_id : String
  pub account_label : Option String
  pub capabilities : List String
  pub issued_at : Option ℕ
  pub expires_at : Option ℕ
  pub refresh_capable : Bool
  pub secrets : Dict String String
  pub created_at : ℕ

-- `CredentialSnapshot(…)`
unfoldable pub credential_snapshot :
    Value → Value → Collection → Secrets → Value → Value → Bool → Value → Result CredentialSnapshot
unfolding provider_name copy_secrets label_of time_of
credential_snapshot provider account wanted hidden issued expires refreshes created = do
  provider_id ← provider_name provider
  names ← capabilities wanted
  copied ← copy_secrets hidden
  validate_times issued expires
  created_at ← seconds created "credential_snapshot_time_invalid"
  ok (record {
    provider_id = provider_id;
    account_label = label_of account;
    capabilities = names;
    issued_at = time_of issued;
    expires_at = time_of expires;
    refresh_capable = refreshes;
    secrets = copied;
    created_at = created_at;
  })

unfoldable pub found_secret : Option String → Result String
found_secret none = err (provider_error "credential_secret_not_available")
found_secret (some s) = ok s

-- `CredentialSnapshot.secret`
unfoldable pub secret : CredentialSnapshot → Value → Result String
unfolding found_secret
secret self (text name) = found_secret (lookup name self.secrets)
secret self _ = err (provider_error "credential_secret_not_available")

pub record StaticProvider : Type 0 where
  pub provider_id : String
  pub account_label : Option String
  pub capabilities : List String
  pub secrets : Dict String String
  pub issued_at : Option ℕ
  pub expires_at : Option ℕ
  pub revoked : Bool

-- `StaticInMemoryCredentialProvider(…)`
unfoldable pub static_provider :
    Value → Collection → Secrets → Value → Value → Value → Result StaticProvider
unfolding provider_name copy_secrets label_of time_of
static_provider provider wanted hidden account issued expires = do
  provider_id ← provider_name provider
  names ← capabilities wanted
  copied ← copy_secrets hidden
  validate_times issued expires
  ok (record {
    provider_id = provider_id;
    account_label = label_of account;
    capabilities = names;
    secrets = copied;
    issued_at = time_of issued;
    expires_at = time_of expires;
    revoked = false;
  })

-- `StaticInMemoryCredentialProvider.revoke`
unfoldable pub revoke_provider : StaticProvider → StaticProvider
revoke_provider self = record self { revoked = true; secrets = [] }

-- The values that the provider hands to `CredentialSnapshot`.
abbrev pub value_of_text : Option String → Value
value_of_text none = null
value_of_text (some s) = text s

abbrev pub value_of_time : Option ℕ → Value
value_of_time none = null
value_of_time (some n) = int (pos n)

abbrev pub texts : List String → List Value
texts [] = []
texts (s ∷ l) = text s ∷ texts l

abbrev pub pairs : Dict String String → List (Value × Value)
pairs [] = []
pairs ((k, v) ∷ l) = (text k, text v) ∷ pairs l

-- The constructor of bindings gives the binding back.
abbrev pub IsCanonical : CredentialBinding → Type 0
IsCanonical b =
    credential_binding (text b.provider_id) (text b.account_id) (items (texts b.capabilities))
    ≡ ok b

-- `any` value of the first list that is not in the second.
unfoldable pub is_missing : List String → List String → Bool
is_missing [] held = false
is_missing (a ∷ l) held = not (contains a held) || is_missing l held

unfoldable pub check_started : Option ℕ → ℕ → Result (Unit {0})
check_started none now = ok tt
check_started (some issued) now =
    raise_if (ltb now issued) (lifetime_error "credential_not_yet_valid")

-- The tests on the expiry. The time that remains is positive behind the first test.
unfoldable pub check_lifetime : Option ℕ → Bool → ℕ → ℕ → Result (Unit {0})
check_lifetime none known ttl now = raise_if known (lifetime_error "credential_expiry_unknown")
check_lifetime (some expires) known ttl now = do
  raise_if (leb expires now) (lifetime_error "credential_expired")
  raise_if (ltb (expires - now) ttl) (lifetime_error "credential_ttl_below_minimum")

-- `now_epoch`, or the clock for `None`.
unfoldable pub time_now : Value → ℕ → Result ℕ
time_now null clock = ok clock
time_now now_epoch clock = seconds now_epoch "credential_now_invalid"

unfoldable pub boolean_of : Value → Result Bool
boolean_of (truth b) = ok b
boolean_of _ = err (value_error "require_known_expiry_must_be_boolean")

-- `StaticInMemoryCredentialProvider.snapshot`; `clock` is `int(time.time())`.
unfoldable pub snapshot :
    StaticProvider → Collection → Value → Value → Value → ℕ → Result CredentialSnapshot
unfolding boolean_of is_missing time_now check_started check_lifetime credential_snapshot
snapshot self required minimum_ttl_seconds require_known_expiry now_epoch clock = do
  raise_if self.revoked (credential_revoked "credential_provider_revoked")
  ttl ← seconds minimum_ttl_seconds "minimum_ttl_seconds_must_be_non_negative_integer"
  known ← boolean_of require_known_expiry
  names ← capabilities required
  raise_if (is_missing names self.capabilities) (scope_error "credential_capability_mismatch")
  now ← time_now now_epoch clock
  check_started self.issued_at now
  check_lifetime self.expires_at known ttl now
  credential_snapshot (text self.provider_id) (value_of_text self.account_label)
      (items (texts self.capabilities)) (mapping (pairs self.secrets))
      (value_of_time self.issued_at) (value_of_time self.expires_at) false (int (pos now))
