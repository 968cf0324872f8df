-- ===== src/Secrets/Record.antt =====
-- `RefreshSecretRecord` of agent_core/versioned_secret_store.py. A record holds a natural version
-- and generation and an enumerated state and failure code. `refresh_secret_record` is the
-- constructor on untrusted values; `post_init` makes, of a record that `replace` builds of typed
-- fields, the checks that remain then.
use keirin_ai_web.Prelude.{
  ℕ, String, ◌≡◌, ◌↔◌, Bool, true, false, not, ◌||◌, Option, none, some, arith, Equality, ◌==◌,
  nat_eq, string_eq, if◌then◌else◌,
}
use keirin_ai_web.Prelude.Text.{is_blank, is_alphanumeric, starts_then}
use keirin_ai_web.Outcome.{Result, ok, err, value_error}
use keirin_ai_web.Outcome.Pure.{◌>>=◌, ◌>>◌, raise_if}
use keirin_ai_web.Credentials.{seconds, Value, null, text, seconds, CredentialBinding}

pub data SecretState : Type 0 where
  ready refreshing blocked_auth blocked_ambiguous revoked : SecretState

-- `_FAILURE_CODES`
pub data FailureCode : Type 0 where
  refresh_rejected refresh_outcome_ambiguous refresh_response_invalid_or_incomplete : FailureCode
  secret_store_commit_ambiguous credential_source_revoked : FailureCode

abbrev pub is_ready : SecretState → Bool
is_ready ready = true
is_ready _ = false

abbrev pub is_refreshing : SecretState → Bool
is_refreshing refreshing = true
is_refreshing _ = false

abbrev pub is_blocked_ambiguous : SecretState → Bool
is_blocked_ambiguous blocked_ambiguous = true
is_blocked_ambiguous _ = false

abbrev pub is_revoked : SecretState → Bool
is_revoked revoked = true
is_revoked _ = false

abbrev same_state : SecretState → SecretState → Bool
same_state ready ready = true
same_state refreshing refreshing = true
same_state blocked_auth blocked_auth = true
same_state blocked_ambiguous blocked_ambiguous = true
same_state revoked revoked = true
same_state _ _ = false

pub same_state_iff : (a b : SecretState) → (same_state a b ≡ true) ↔ (a ≡ b)
same_state_iff a b = ground arith

instance abbrev pub state_eq : Equality SecretState
state_eq = record { same = same_state; same_iff = same_state_iff }

abbrev same_code : FailureCode → FailureCode → Bool
same_code refresh_rejected refresh_rejected = true
same_code refresh_outcome_ambiguous refresh_outcome_ambiguous = true
same_code refresh_response_invalid_or_incomplete refresh_response_invalid_or_incomplete = true
same_code secret_store_commit_ambiguous secret_store_commit_ambiguous = true
same_code credential_source_revoked credential_source_revoked = true
same_code _ _ = false

pub same_code_iff : (a b : FailureCode) → (same_code a b ≡ true) ↔ (a ≡ b)
same_code_iff a b = ground arith

instance abbrev pub code_eq : Equality FailureCode
code_eq = record { same = same_code; same_iff = same_code_iff }

pub record RefreshSecretRecord : Type 0 where
  pub binding : CredentialBinding
  pub version : ℕ
  pub state : SecretState
  pub refresh_secret : Option String
  pub refresh_generation : ℕ
  pub active_attempt_id : Option String
  pub last_attempt_id : Option String
  pub failure : Option FailureCode

-- `[A-Za-z0-9._:-]`
unfoldable pub attempt_character : ℕ → Bool
unfolding is_alphanumeric
attempt_character c = is_alphanumeric c || c == b'.' || c == b'_' || c == b':' || c == b'-'

-- `_ATTEMPT_ID_RE.fullmatch`
unfoldable pub is_attempt_id : String → Bool
unfolding starts_then attempt_character
is_attempt_id s = starts_then is_alphanumeric attempt_character 127 s

-- `_safe_attempt_id`
unfoldable pub safe_attempt_id : Value → String → Result String
safe_attempt_id (text s) e = if is_attempt_id s then ok s else err (value_error e)
safe_attempt_id _ e = err (value_error e)

-- The test on `refresh_secret` in `__post_init__`.
unfoldable pub check_secret : SecretState → Option String → Result (Unit {0})
check_secret revoked none = ok tt
check_secret revoked (some s) = err (value_error "revoked_secret_must_be_cleared")
check_secret _ none = err (value_error "refresh_secret_required")
check_secret _ (some s) = raise_if (is_blank s) (value_error "refresh_secret_required")

-- The test on `active_attempt_id`.
unfoldable pub check_active : SecretState → Option String → Result (Unit {0})
check_active refreshing none = err (value_error "refresh_attempt_required")
check_active refreshing (some a) =
    raise_if (not (is_attempt_id a)) (value_error "refresh_attempt_invalid")
check_active _ none = ok tt
check_active _ (some a) = err (value_error "active_attempt_only_while_refreshing")

-- The test on `last_attempt_id`.
unfoldable pub check_last : Option String → Result (Unit {0})
check_last none = ok tt
check_last (some a) = raise_if (not (is_attempt_id a)) (value_error "last_attempt_invalid")

-- What `__post_init__` tests of a record whose fields have their types.
unfoldable pub post_init : RefreshSecretRecord → Result RefreshSecretRecord
unfolding check_secret check_active check_last
post_init r = do
  check_secret r.state r.refresh_secret
  check_active r.state r.active_attempt_id
  check_last r.last_attempt_id
  ok r

-- The spellings of `state` that `__post_init__` admits.
unfoldable pub parse_state : Value → Result SecretState
parse_state (text s) =
    if s == "ready"
    then ok ready
    else if s == "refreshing"
    then ok refreshing
    else if s == "blocked_auth"
    then ok blocked_auth
    else if s == "blocked_ambiguous"
    then ok blocked_ambiguous
    else if s == "revoked"
    then ok revoked
    else err (value_error "secret_store_state_invalid")
parse_state _ = err (value_error "secret_store_state_invalid")

-- The spellings of `failure` that `__post_init__` admits, besides `None`.
unfoldable pub parse_failure : Value → Result (Option FailureCode)
parse_failure null = ok none
parse_failure (text s) =
    if s == "refresh_rejected"
    then ok (some refresh_rejected)
    else if s == "refresh_outcome_ambiguous"
    then ok (some refresh_outcome_ambiguous)
    else if s == "refresh_response_invalid_or_incomplete"
    then ok (some refresh_response_invalid_or_incomplete)
    else if s == "secret_store_commit_ambiguous"
    then ok (some secret_store_commit_ambiguous)
    else if s == "credential_source_revoked"
    then ok (some credential_source_revoked)
    else err (value_error "secret_store_failure_invalid")
parse_failure _ = err (value_error "secret_store_failure_invalid")

-- The fields `refresh_secret`, `active_attempt_id` and `last_attempt_id` of untrusted values.
unfoldable pub secret_field : SecretState → Value → Result (Option String)
secret_field revoked null = ok none
secret_field revoked _ = err (value_error "revoked_secret_must_be_cleared")
secret_field _ (text s) =
    if is_blank s then err (value_error "refresh_secret_required") else ok (some s)
secret_field _ _ = err (value_error "refresh_secret_required")

unfoldable pub active_field : SecretState → Value → Result (Option String)
active_field refreshing null = err (value_error "refresh_attempt_required")
active_field refreshing v = do a ← safe_attempt_id v "refresh_attempt_invalid"; ok (some a)
active_field _ null = ok none
active_field _ _ = err (value_error "active_attempt_only_while_refreshing")

unfoldable pub last_field : Value → Result (Option String)
last_field null = ok none
last_field v = do a ← safe_attempt_id v "last_attempt_invalid"; ok (some a)

-- The constructor: `__post_init__` on values of any type, its tests in the source's order.
unfoldable pub refresh_secret_record :
    CredentialBinding
    → (version state secret generation active last failure : Value) → Result RefreshSecretRecord
unfolding parse_state parse_failure secret_field active_field last_field
refresh_secret_record b version state secret generation active last failure = do
  version' ← seconds version "secret_store_version_invalid"
  generation' ← seconds generation "refresh_generation_invalid"
  state' ← parse_state state
  secret' ← secret_field state' secret
  active' ← active_field state' active
  last' ← last_field last
  failure' ← parse_failure failure
  ok (record {
    binding = b;
    version = version';
    state = state';
    refresh_secret = secret';
    refresh_generation = generation';
    active_attempt_id = active';
    last_attempt_id = last';
    failure = failure';
  })
