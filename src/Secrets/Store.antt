-- ===== src/Secrets/Store.antt =====
-- The protocol `VersionedSecretStore` of agent_core/versioned_secret_store.py: "strict version-CAS
-- semantics", as operations and the laws that its docstrings and exceptions document.
use keirin_ai_web.Prelude.{ℕ, ◌≡◌, ◌⊎◌, Option, some}
use keirin_ai_web.Outcome.{Result, ok, err}
use keirin_ai_web.Credentials.{CredentialBinding}
use keirin_ai_web.Secrets.Record.{RefreshSecretRecord}

-- The call returned, or it raised.
abbrev pub IsReturned {ℓ} : {A : Type ℓ} → Result A → Type 0
IsReturned (ok a) = Unit
IsReturned (err e) = ⊥

-- What a compare-and-swap at version `expected` may have done to the durable record. An ambiguous
-- write raises whether or not it was applied.
pub data CasStep (expected : ℕ) (replacement : RefreshSecretRecord)
    (reply : Result RefreshSecretRecord) (before after : Option RefreshSecretRecord) : Type 0 where
  applied :
      (current : RefreshSecretRecord)
      → before ≡ some current
      → current.version ≡ expected
      → after ≡ some replacement
      → (reply ≡ ok replacement) ⊎ (¬ IsReturned reply)
      → CasStep expected replacement reply before after
  rejected : after ≡ before → ¬ IsReturned reply → CasStep expected replacement reply before after

pub record VersionedSecretStore : Type 1 where
  pub Store : Type 0
  pub read : CredentialBinding → Store → Result RefreshSecretRecord × Store
  pub compare_and_swap :
      CredentialBinding → ℕ → RefreshSecretRecord → Store → Result RefreshSecretRecord × Store
  -- The record that is durably stored for a binding.
  pub durable : CredentialBinding → Store → Option RefreshSecretRecord
  -- A read changes nothing durable, and returns what is stored.
  pub durable-read : (b : CredentialBinding) (s : Store) → durable b (read b s).1 ≡ durable b s
  pub read-durable :
      (b : CredentialBinding) (s : Store) (r : RefreshSecretRecord)
      → (read b s).0 ≡ ok r
      → durable b s ≡ some r
  pub cas_step :
      (b : CredentialBinding) (expected : ℕ) (replacement : RefreshSecretRecord) (s : Store)
      → CasStep expected replacement
          (compare_and_swap b expected replacement s).0
          (durable b s)
          (durable b (compare_and_swap b expected replacement s).1)
