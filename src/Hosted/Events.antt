-- ===== src/Hosted/Events.antt =====
-- The events of the activity ledger, and the tests on them, of agent_core/hosted_activity.py. The path of a
-- forbidden key is left out of the messages.
use keirin_ai_web.Prelude.{
  ℕ, String, Bool, true, not, ◌||◌, Option, none, some, ◌==◌, nat_eq, string_eq, if◌then◌else◌,
}
use keirin_ai_web.Prelude.Text.{is_alphanumeric, starts_then, each_upto, is_blank, strip}
use keirin_ai_web.Outcome.{Result, ok, err, value_error, activity_integrity}
use keirin_ai_web.Outcome.Pure.{◌>>=◌}
use keirin_ai_web.Credentials.{pos}
use keirin_ai_web.Tasks.Store.{id_character}
use keirin_ai_web.Json.{Json, Fields, null, int, text, obj, get}
use keirin_ai_web.Hosted.Forbidden.{forbidden_path}
use keirin_ai_web.Hosted.Lease.{is_clear}

pub record HostedActivityEvent : Type 0 where
  pub event_id : ℕ
  pub task_id : String
  pub event_type : String
  pub step_id : Option String
  pub payload : Fields
  pub created_at : String

-- `_valid_task_id`, of a text.
unfoldable pub is_task_id : String → Bool
unfolding starts_then id_character is_alphanumeric
is_task_id s = starts_then is_alphanumeric id_character 127 s

-- `len(s) <= 128`
unfoldable pub is_short : String → Bool
unfolding each_upto
is_short s = each_upto (λ c. true) 128 s

-- `_validate_event_type`
unfoldable pub validate_event_type : Json → Result String
unfolding strip is_short
validate_event_type (text s) =
    let value = strip s in
    if value == "" || not (is_short value) then err (value_error "invalid_event_type") else ok value
validate_event_type _ = err (value_error "event_type_required")

-- `_validate_step_id`
unfoldable pub validate_step_id : Json → Result (Option String)
unfolding strip is_short
validate_step_id null = ok none
validate_step_id (text s) =
    let value = strip s in
    if value == "" || not (is_short value)
    then err (value_error "invalid_step_id")
    else ok (some value)
validate_step_id _ = err (value_error "invalid_step_id")

-- `_validate_payload`
unfoldable pub validate_payload : Json → Result Fields
unfolding forbidden_path
validate_payload (obj payload) =
    if is_clear (forbidden_path (obj payload))
    then ok payload
    else err (value_error "event_payload_contains_forbidden_secret")
validate_payload _ = err (value_error "event_payload_must_be_object")

-- The tests of `_parse_event` on each field.
unfoldable pub event_number : Json → Result ℕ
event_number (int (pos n)) =
    if n == 0 then err (activity_integrity "invalid_activity_event_id") else ok n
event_number _ = err (activity_integrity "invalid_activity_event_id")

unfoldable pub event_task : Json → Option String → Result String
unfolding is_task_id
event_task (text s) none =
    if is_task_id s then ok s else err (activity_integrity "invalid_activity_task_id")
event_task (text s) (some expected) =
    if is_task_id s
    then (if s == expected then ok s else err (activity_integrity "activity_task_id_mismatch"))
    else err (activity_integrity "invalid_activity_task_id")
event_task _ expected = err (activity_integrity "invalid_activity_task_id")

unfoldable pub event_kind : Json → Result String
unfolding is_blank is_short strip
event_kind (text s) =
    if is_blank s || not (is_short s)
    then err (activity_integrity "invalid_activity_event_type")
    else ok (strip s)
event_kind _ = err (activity_integrity "invalid_activity_event_type")

unfoldable pub event_step : Json → Result (Option String)
unfolding is_blank is_short strip
event_step null = ok none
event_step (text s) =
    if is_blank s || not (is_short s)
    then err (activity_integrity "invalid_activity_step_id")
    else ok (some (strip s))
event_step _ = err (activity_integrity "invalid_activity_step_id")

unfoldable pub event_payload : Json → Result Fields
unfolding forbidden_path
event_payload (obj payload) =
    if is_clear (forbidden_path (obj payload))
    then ok payload
    else err (activity_integrity "activity_payload_contains_forbidden_secret")
event_payload _ = err (activity_integrity "invalid_activity_payload")

unfoldable pub event_time : Json → Result String
event_time (text s) =
    if s == "" then err (activity_integrity "invalid_activity_created_at") else ok s
event_time _ = err (activity_integrity "invalid_activity_created_at")

-- `_parse_event`
unfoldable pub parse_event : Json → Option String → Result HostedActivityEvent
unfolding event_number event_task event_kind event_step event_payload event_time
parse_event (obj value) expected_task_id = do
  event_id ← event_number (get "event_id" value)
  task_id ← event_task (get "task_id" value) expected_task_id
  event_type ← event_kind (get "event_type" value)
  step_id ← event_step (get "step_id" value)
  payload ← event_payload (get "payload" value)
  created_at ← event_time (get "created_at" value)
  ok (record {
    event_id = event_id;
    task_id = task_id;
    event_type = event_type;
    step_id = step_id;
    payload = payload;
    created_at = created_at;
  })
parse_event _ expected_task_id = err (activity_integrity "activity_event_object_required")
