-- ===== src/Hosted/Transport.antt =====
-- `_request` and `_error_from_response` of agent_core/hosted_queue.py. The transport is a parameter: it
-- answers a mode and a payload with a JSON value, or raises, and changes the world outside. Python's `str`
-- of a value that is no text is a parameter too.
use Prim.Native.Char.{code}
use keirin_ai_web.Prelude.{
  String, Bool, true, false, ◌&&◌, ◌||◌, ◌==◌, nat_eq, string_eq, if◌then◌else◌,
}
use keirin_ai_web.Outcome.{Raised, Result, ok, err, Exec, queue_error, queue_conflict}
use keirin_ai_web.Outcome.Method.{◌>>=◌, lift}
use keirin_ai_web.Json.{Json, Fields, boolean, obj, get, is_truthy}

abbrev pub Transport : Type 0 → Type 0
Transport W = String → Json → Exec W Json

unfoldable pub begins : String → String → Bool
begins String.[] s = true
begins (String.◌∷◌ c p) String.[] = false
begins (String.◌∷◌ c p) (String.◌∷◌ d s) = code c == code d && begins p s

-- `part in s`
unfoldable pub occurs : String → String → Bool
unfolding begins
occurs part String.[] = begins part String.[]
occurs part (String.◌∷◌ c s) = begins part (String.◌∷◌ c s) || occurs part s

-- `str(value or default)`
abbrev pub text_or : (Json → String) → Json → String → String
text_or str value default = if is_truthy value then str value else default

-- `_error_from_response`
unfoldable pub error_from_response : (Json → String) → Fields → Raised
unfolding is_truthy occurs
error_from_response str response =
    let message = text_or str (get "error" response) "hosted_queue_request_failed" in
    if text_or str (get "backend_code" response) "" == "40001"
      || occurs "conflict" message
      || occurs "expired" message
    then queue_conflict message
    else queue_error message

abbrev pub is_true : Json → Bool
is_true (boolean b) = b
is_true _ = false

-- What `_request` makes of the answer.
unfoldable pub checked_response : (Json → String) → Json → Result Fields
unfolding error_from_response
checked_response str (obj response) =
    if is_true (get "success" response) then ok response else err (error_from_response str response)
checked_response str _ = err (queue_error "invalid_hosted_queue_response")

-- `_request`
unfoldable pub request :
    {W : Type 0} → (Json → String) → Transport W → String → Json → Exec W Fields
unfolding checked_response
request str transport mode payload = do
  response ← transport mode payload
  lift (checked_response str response)
