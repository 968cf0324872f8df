-- ===== src/Credentials/Values.antt =====
-- Untrusted Python values, as far as `_seconds`, `_capabilities` and the identity checks of
-- agent_core/credential_provider.py tell them apart.
use keirin_ai_web.Prelude.{ℕ, String, Bool}
use keirin_ai_web.Outcome.{Result, ok, err, value_error}

-- `negsuc n` is -(n + 1).
pub data ℤ : Type 0 where
  pos negsuc : ℕ → ℤ

-- A value by its exact type; a `bool` is no `int` for the tests on `type(value)`.
pub data Value : Type 0 where
  null : Value
  truth : Bool → Value
  int : ℤ → Value
  text : String → Value
  opaque_object : Value

-- `_seconds`: a non-negative `int`, and no `bool`.
unfoldable pub seconds : Value → String → Result ℕ
seconds (int (pos n)) e = ok n
seconds _ e = err (value_error e)
