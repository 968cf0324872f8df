-- ===== src/Secrets/Source/Methods.antt =====
-- The private methods of `VersionedHostCredentialSource` that use the store: `_read`, `_cas`,
-- `_claim`, `_block`, `_commit_success` and `_recover_cas`.
use keirin_ai_web.Prelude.{
  ◌+◌, String, Bool, true, false, not, ◌&&◌, Option, none, some, ◌==◌, nat_eq, string_eq, option_eq,
  if◌then◌else◌,
}
use keirin_ai_web.Outcome.{
  Result, ok, err, Raised, Exec, auth_blocked, credential_revoked, refresh_in_progress, store_error,
  store_conflict, store_ambiguous,
}
use keirin_ai_web.Outcome.Method.{◌>>=◌, ◌>>◌, pure, raise, lift}
use keirin_ai_web.Credentials.{Value, text, CredentialBinding, binding_eq}
use keirin_ai_web.Secrets.Record.{
  RefreshSecretRecord, SecretState, FailureCode, ready, refreshing, blocked_ambiguous, revoked,
  secret_store_commit_ambiguous, state_eq, code_eq, post_init, safe_attempt_id,
}
use keirin_ai_web.Secrets.Store.{VersionedSecretStore}
use keirin_ai_web.Secrets.Source.Exchange.{World}

-- What the handlers around a compare-and-swap tell apart.
pub data Swap : Type 0 where
  saved : RefreshSecretRecord → Swap
  ambiguous conflict : Swap
  escaped : Raised → Swap

-- `except SecretStoreAmbiguousWrite`, `except SecretStoreConflict`, and what neither catches.
unfoldable pub classify : Result RefreshSecretRecord → Swap
classify (ok r) = saved r
classify (err (store_ambiguous m)) = ambiguous
classify (err (store_conflict m)) = conflict
classify (err e) = escaped e

-- `_fixed_attempt`
unfoldable pub fixed_attempt : Value → Result String
fixed_attempt value = elim (safe_attempt_id value "credential_refresh_attempt_invalid") [
  | ok s ↦ ok s
  | err _ ↦ err (auth_blocked "credential_refresh_attempt_invalid")
]

-- What `_read` makes of the store's answer. The conflict and the ambiguous write are subclasses of
-- `SecretStoreError`.
unfoldable pub checked_read :
    CredentialBinding → Result RefreshSecretRecord → Result RefreshSecretRecord
checked_read b (ok r) =
    if not (r.binding == b)
    then err (auth_blocked "credential_secret_store_integrity_error")
    else ok r
checked_read b (err (store_error m)) = err (auth_blocked "credential_secret_store_unavailable")
checked_read b (err (store_conflict m)) = err (auth_blocked "credential_secret_store_unavailable")
checked_read b (err (store_ambiguous m)) = err (auth_blocked "credential_secret_store_unavailable")
checked_read b (err e) = err e

-- The records that the methods build with `replace`.
abbrev pub claimed_record : RefreshSecretRecord → String → RefreshSecretRecord
claimed_record current attempt_id = record current {
  version = current.version + 1;
  state = refreshing;
  active_attempt_id = some attempt_id;
  failure = none;
}

abbrev pub blocked_record :
    RefreshSecretRecord → String → SecretState → FailureCode → RefreshSecretRecord
blocked_record current attempt_id state failure = record current {
  version = current.version + 1;
  state = state;
  active_attempt_id = none;
  last_attempt_id = some attempt_id;
  failure = some failure;
}

abbrev pub text_of : Value → Option String
text_of (text s) = some s
text_of _ = none

abbrev pub committed_record : RefreshSecretRecord → String → Value → RefreshSecretRecord
committed_record current attempt_id rotated = record current {
  version = current.version + 1;
  state = ready;
  refresh_secret = text_of rotated;
  refresh_generation = current.refresh_generation + 1;
  active_attempt_id = none;
  last_attempt_id = some attempt_id;
  failure = none;
}

-- `if test: return observed`, and else a raise.
unfoldable pub confirmed : Bool → RefreshSecretRecord → Raised → Result RefreshSecretRecord
confirmed true observed e = ok observed
confirmed false observed e = err e

-- The tests on the record that is read back after an ambiguous swap.
unfoldable pub claim_seen : RefreshSecretRecord → String → RefreshSecretRecord → Bool
claim_seen claimed attempt_id observed =
    observed.state == refreshing
    && observed.active_attempt_id == some attempt_id
    && observed.version == claimed.version

unfoldable pub block_seen : String → SecretState → FailureCode → RefreshSecretRecord → Bool
block_seen attempt_id state failure observed =
    observed.state == state
    && observed.last_attempt_id == some attempt_id
    && observed.failure == some failure

unfoldable pub commit_seen : RefreshSecretRecord → String → RefreshSecretRecord → Bool
commit_seen committed attempt_id observed =
    observed.state == ready
    && observed.version == committed.version
    && observed.refresh_generation == committed.refresh_generation
    && observed.last_attempt_id == some attempt_id
    && observed.refresh_secret == committed.refresh_secret

-- The error after a commit that met a conflict, by the state that is read back.
unfoldable pub commit_conflict : SecretState → Raised
commit_conflict revoked = credential_revoked "credential_source_revoked"
commit_conflict _ = auth_blocked "credential_refresh_persistence_conflict"

module _ (vs : VersionedSecretStore) (b : CredentialBinding) where
  abbrev pub Method : Type 0 → Type 0
  Method A = Exec (World vs.Store) A

  -- `_read`
  unfoldable pub read_record : Method RefreshSecretRecord
  read_record w =
      let (reply, s) = vs.read b w.store in (checked_read b reply, record w { store = s })

  -- `_cas` in its `try`
  unfoldable pub try_cas : RefreshSecretRecord → RefreshSecretRecord → Method Swap
  try_cas current replacement w =
      let (reply, s) = vs.compare_and_swap b current.version replacement w.store in
      (ok (classify reply), record w { store = s })

  unfoldable pub after_claim : RefreshSecretRecord → String → Swap → Method RefreshSecretRecord
  after_claim claimed attempt_id (saved r) = pure r
  after_claim claimed attempt_id conflict =
      raise (refresh_in_progress "credential_refresh_owned_elsewhere")
  after_claim claimed attempt_id ambiguous = do
    observed ← read_record
    lift (
        confirmed (claim_seen claimed attempt_id observed) observed
          (auth_blocked "credential_refresh_claim_ambiguous"))
  after_claim claimed attempt_id (escaped e) = raise e

  -- `_claim`
  unfoldable pub claim : RefreshSecretRecord → String → Method RefreshSecretRecord
  unfolding after_claim
  claim current attempt_id = do
    claimed ← lift (post_init (claimed_record current attempt_id))
    swap ← try_cas current claimed
    after_claim claimed attempt_id swap

  unfoldable pub confirm_block : String → SecretState → FailureCode → Method RefreshSecretRecord
  confirm_block attempt_id state failure = do
    observed ← read_record
    lift (
        confirmed (block_seen attempt_id state failure observed) observed
          (auth_blocked "credential_refresh_recovery_state_uncertain"))

  unfoldable pub after_block :
      String → SecretState → FailureCode → Swap → Method RefreshSecretRecord
  unfolding confirm_block
  after_block attempt_id state failure (saved r) = pure r
  after_block attempt_id state failure conflict = confirm_block attempt_id state failure
  after_block attempt_id state failure ambiguous = confirm_block attempt_id state failure
  after_block attempt_id state failure (escaped e) = raise e

  -- `_block`
  unfoldable pub block :
      RefreshSecretRecord → String → SecretState → FailureCode → Method RefreshSecretRecord
  unfolding after_block
  block current attempt_id state failure = do
    blocked ← lift (post_init (blocked_record current attempt_id state failure))
    swap ← try_cas current blocked
    after_block attempt_id state failure swap

  -- The commit is not in the store; an attempt that is still open is blocked first.
  unfoldable pub persistence_ambiguous :
      Bool → RefreshSecretRecord → String → Method RefreshSecretRecord
  persistence_ambiguous true observed attempt_id = do
    block observed attempt_id blocked_ambiguous secret_store_commit_ambiguous
    raise (auth_blocked "credential_refresh_persistence_ambiguous")
  persistence_ambiguous false observed attempt_id =
      raise (auth_blocked "credential_refresh_persistence_ambiguous")

  -- After an ambiguous commit: what was read back either is the commit, or it is not.
  unfoldable pub read_back : Bool → RefreshSecretRecord → String → Method RefreshSecretRecord
  unfolding persistence_ambiguous
  read_back true observed attempt_id = pure observed
  read_back false observed attempt_id =
      persistence_ambiguous
        (observed.state == refreshing && observed.active_attempt_id == some attempt_id) observed
        attempt_id

  unfoldable pub after_commit : RefreshSecretRecord → String → Swap → Method RefreshSecretRecord
  unfolding read_back
  after_commit committed attempt_id (saved r) = pure r
  after_commit committed attempt_id ambiguous = do
    observed ← read_record
    read_back (commit_seen committed attempt_id observed) observed attempt_id
  after_commit committed attempt_id conflict = do
    observed ← read_record
    raise (commit_conflict observed.state)
  after_commit committed attempt_id (escaped e) = raise e

  -- `_commit_success`
  unfoldable pub commit_success : RefreshSecretRecord → String → Value → Method RefreshSecretRecord
  unfolding after_commit
  commit_success current attempt_id rotated = do
    committed ← lift (post_init (committed_record current attempt_id rotated))
    swap ← try_cas current committed
    after_commit committed attempt_id swap

  unfoldable pub after_recover : Swap → Method RefreshSecretRecord
  after_recover (saved r) = pure r
  after_recover ambiguous = raise (auth_blocked "credential_recovery_persistence_ambiguous")
  after_recover conflict = raise (store_conflict "secret_store_version_conflict")
  after_recover (escaped e) = raise e

  -- `_recover_cas`
  unfoldable pub recover_cas :
      RefreshSecretRecord → RefreshSecretRecord → Method RefreshSecretRecord
  unfolding after_recover
  recover_cas current replacement = do swap ← try_cas current replacement; after_recover swap
