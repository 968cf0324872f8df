-- ===== src/Hosted/Activity.antt =====
-- `HostedActivityClient` of agent_core/hosted_activity.py: `append` and `list`.
use keirin_ai_web.Prelude.{String, some, List, nat_eq, list_eq, if◌then◌else◌}
use keirin_ai_web.Outcome.{Result, ok, err, Exec, value_error, activity_error}
use keirin_ai_web.Outcome.Method.{◌>>=◌, lift}
use keirin_ai_web.Credentials.{pos}
use keirin_ai_web.Json.{Json, Fields, int, text, obj, end, field, get, is_truthy, optional_text}
use keirin_ai_web.Hosted.Transport.{Transport, text_or, is_true}
use keirin_ai_web.Hosted.Events.{
  HostedActivityEvent, is_task_id, validate_event_type, validate_step_id, validate_payload,
  parse_event,
}
use keirin_ai_web.Hosted.Listing.{listed_events, valid_limit, valid_cursor, with_cursor}

-- What `_request` makes of the answer.
unfoldable pub checked_activity : (Json → String) → Json → Result Fields
checked_activity str (obj response) =
    if is_true (get "success" response)
    then ok response
    else err (activity_error (text_or str (get "error" response) "hosted_activity_request_failed"))
checked_activity str _ = err (activity_error "invalid_hosted_activity_response")

-- `_request`
unfoldable pub activity_request :
    {W : Type 0} → (Json → String) → Transport W → String → Json → Exec W Fields
unfolding checked_activity
activity_request str transport mode payload = do
  response ← transport mode payload
  lift (checked_activity str response)

unfoldable pub valid_task_id : Json → Result String
unfolding is_task_id
valid_task_id (text s) = if is_task_id s then ok s else err (value_error "invalid_task_id")
valid_task_id _ = err (value_error "invalid_task_id")

-- `payload or {}`
abbrev pub or_empty : Json → Json
or_empty payload = if is_truthy payload then payload else obj end

module _ {W : Type 0} (str : Json → String) (transport : Transport W) where
  unfoldable pub append : Json → Json → Json → Json → Exec W HostedActivityEvent
  unfolding valid_task_id validate_event_type validate_step_id validate_payload activity_request
      parse_event
  append task_id event_type step_id payload = do
    task ← lift (valid_task_id task_id)
    kind ← lift (validate_event_type event_type)
    step ← lift (validate_step_id step_id)
    clean_payload ← lift (validate_payload (or_empty payload))
    response ← activity_request str transport "event_append" (
        obj (
          field "task_id" (text task) (
            field "event_type" (text kind)
              (field "step_id" (optional_text step) (field "payload" (obj clean_payload) end)))))
    lift (parse_event (get "event" response) (some task))

  -- `list`
  unfoldable pub list_events : Json → Json → Json → Exec W (List HostedActivityEvent)
  unfolding valid_task_id valid_limit valid_cursor activity_request listed_events
  list_events task_id after_event_id limit = do
    task ← lift (valid_task_id task_id)
    rows ← lift (valid_limit limit)
    after ← lift (valid_cursor after_event_id)
    response ←
        activity_request str transport "event_list"
          (obj (field "task_id" (text task) (field "limit" (int (pos rows)) (with_cursor after))))
    lift (listed_events task after (get "events" response))
