-- ===== src/Secrets/Memory.antt =====
-- `InMemoryVersionedSecretStore` of agent_core/versioned_secret_store.py. Its lock makes each method
-- one step; a key is the binding itself, whose three fields are the key's parts.
pub mod Contract
use keirin_ai_web.Prelude.{
  ℕ, zero, ◌+◌, String, Bool, true, false, not, ◌&&◌, ◌||◌, Option, none, some, ◌==◌, nat_eq,
  if◌then◌else◌,
}
use keirin_ai_web.Prelude.Text.{is_blank}
use keirin_ai_web.Prelude.Dict.{Dict, lookup, insert}
use keirin_ai_web.Outcome.{Result, ok, err, Exec, value_error, auth_blocked, store_conflict}
use keirin_ai_web.Outcome.Pure.{◌>>=◌, ◌>>◌, raise_if}
use keirin_ai_web.Credentials.{Value, int, pos, seconds, CredentialBinding, binding_eq}
use keirin_ai_web.Secrets.Record.{RefreshSecretRecord, ready, post_init}

-- `self._records`
abbrev pub Records : Type 0
Records = Dict CredentialBinding RefreshSecretRecord

-- The record that `seed` writes.
abbrev pub seeded : CredentialBinding → String → RefreshSecretRecord
seeded b secret = record {
  binding = b;
  version = 0;
  state = ready;
  refresh_secret = some secret;
  refresh_generation = 0;
  active_attempt_id = none;
  last_attempt_id = none;
  failure = none;
}

-- `seed`, once the record is made.
unfoldable pub seed_made :
    Result RefreshSecretRecord → CredentialBinding → Exec Records RefreshSecretRecord
seed_made (err e) b records = (err e, records)
seed_made (ok r) b records = elim (lookup b records) [
  | some _ ↦ (err (store_conflict "secret_store_record_already_exists"), records)
  | none ↦ (ok r, insert b r records)
]

unfoldable pub seed : CredentialBinding → String → Exec Records RefreshSecretRecord
unfolding seed_made
seed b secret =
    seed_made
      (do
        raise_if (is_blank secret) (value_error "refresh_secret_required")
        post_init (seeded b secret))
      b

unfoldable pub read : CredentialBinding → Exec Records RefreshSecretRecord
read b records = elim (lookup b records) [
  | none ↦ (err (auth_blocked "credential_secret_unconfigured"), records)
  | some r ↦ (ok r, records)
]

-- The swap, where the versions agree.
unfoldable pub swap_if :
    Bool → CredentialBinding → RefreshSecretRecord → Exec Records RefreshSecretRecord
swap_if true b replacement records = (ok replacement, insert b replacement records)
swap_if false b replacement records =
    (err (store_conflict "secret_store_version_conflict"), records)

-- The part of `compare_and_swap` under the lock, by what the dictionary holds.
unfoldable pub swap_locked :
    Option RefreshSecretRecord
    → CredentialBinding
    → ℕ
    → RefreshSecretRecord
    → Exec Records RefreshSecretRecord
unfolding swap_if
swap_locked none b expected replacement records =
    (err (store_conflict "secret_store_version_conflict"), records)
swap_locked (some current) b expected replacement records =
    swap_if (current.version == expected) b replacement records

-- The tests that come before the lock.
unfoldable pub check_replacement : CredentialBinding → Value → RefreshSecretRecord → Result ℕ
check_replacement b expected_version replacement = do
  expected ← seconds expected_version "secret_store_expected_version_invalid"
  raise_if (not (replacement.binding == b))
      (value_error "secret_store_replacement_binding_mismatch")
  raise_if (not (replacement.version == expected + 1))
      (value_error "secret_store_replacement_version_invalid")
  ok expected

unfoldable pub swap_checked :
    Result ℕ → CredentialBinding → RefreshSecretRecord → Exec Records RefreshSecretRecord
unfolding swap_locked
swap_checked (err e) b replacement records = (err e, records)
swap_checked (ok expected) b replacement records =
    swap_locked (lookup b records) b expected replacement records

unfoldable pub compare_and_swap :
    CredentialBinding → Value → RefreshSecretRecord → Exec Records RefreshSecretRecord
unfolding check_replacement swap_checked
compare_and_swap b expected_version replacement =
    swap_checked (check_replacement b expected_version replacement) b replacement
