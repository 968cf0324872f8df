-- ===== src/Secrets/Durable/Backend.antt =====
-- The protocol `DurableSecretBackend` of agent_core/durable_secret_store.py, with the laws that its
-- docstring documents.
use keirin_ai_web.Prelude.{ℕ, String, ◌≡◌, ◌≢◌, Option, some}
use keirin_ai_web.Credentials.{pos}
use keirin_ai_web.Json.{Json, null, int, obj, get}

-- How a call of the backend ends: it returns, or raises an exception of one of its classes, an
-- interrupt, or another exception.
pub data BackendReply (A : Type 0) : Type 0 where
  returned : A → BackendReply A
  conflict ambiguous unavailable : BackendReply A
  interrupted exited other_exception : BackendReply A

-- The version that a stored record shows.
unfoldable pub version_of : Json → Json
version_of (obj fs) = get "version" fs
version_of _ = null

-- "Atomically compare `expected_version`": the record is replaced where the version agrees, or is
-- left as it is, and then nothing is returned. A conflict says that nothing was applied.
pub data SwapStep (expected : ℕ) (replacement : Json) (reply : BackendReply (Option Json))
    (before after : Option Json) : Type 0 where
  committed :
      (current : Json)
      → before ≡ some current
      → version_of current ≡ int (pos expected)
      → after ≡ some replacement
      → reply ≢ conflict
      → SwapStep expected replacement reply before after
  left :
      after ≡ before
      → ((o : Option Json) → reply ≢ returned o)
      → SwapStep expected replacement reply before after

pub record DurableSecretBackend : Type 1 where
  pub State : Type 0
  pub fetch : String → State → BackendReply (Option Json) × State
  pub swap : String → ℕ → Json → State → BackendReply (Option Json) × State
  pub stored : String → State → Option Json
  pub stored-fetch : (key : String) (s : State) → stored key (fetch key s).1 ≡ stored key s
  pub fetch-stored :
      (key : String) (s : State) (o : Option Json) → (fetch key s).0 ≡ returned o → stored key s ≡ o
  pub swap_step :
      (key : String) (expected : ℕ) (replacement : Json) (s : State)
      → SwapStep expected replacement
          (swap key expected replacement s).0
          (stored key s)
          (stored key (swap key expected replacement s).1)
