-- ===== src/Outcome.antt =====
-- The exceptions that the program raises, and methods that change an object and may raise.
-- What was written before a raise stays written, so the state comes back beside an error too.
pub mod Pure
pub mod Method
use Prim.Native.String.{String}

-- An exception by its class, with its message. `other_error` is any other `Exception`.
pub data Raised : Type 0 where
  value_error type_error runtime_error key_error : String → Raised
  provider_error scope_error lifetime_error credential_revoked : String → Raised
  auth_blocked refresh_in_progress : String → Raised
  store_error store_conflict store_ambiguous : String → Raised
  keyboard_interrupt system_exit : String → Raised
  queue_error queue_conflict queue_integrity : String → Raised
  activity_error activity_integrity : String → Raised
  assertion_error other_error : Raised

pub data Result {ℓ} (A : Type ℓ) : Type ℓ where
  ok : A → Result A
  err : Raised → Result A

abbrev pub Exec {ℓ} : Type ℓ → Type ℓ → Type ℓ
Exec S A = S → Result A × S
