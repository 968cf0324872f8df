-- ===== src/Hosted/WorkerTests.antt =====
-- The ledger's client and the worker on small rows.
use keirin_ai_web.Prelude.{ℕ, ◌≡◌, refl, String, true, none, some, List, [], ◌∷◌, string_eq}
use keirin_ai_web.Prelude.Text.{
  is_alphanumeric, starts_then, each_upto, is_blank, is_space, strip, strip_left, strip_right,
}
use keirin_ai_web.Outcome.{ok}
use keirin_ai_web.Tasks.Store.{id_character}
use keirin_ai_web.Credentials.{pos, sorted_set, insert_sorted, text_lt}
use keirin_ai_web.Json.{Json, null, boolean, int, text, arr, obj, nil, cons, end, field, get}
use keirin_ai_web.Tools.Registry.{Capability, ToolRegistry, keys, entered, new_registry}
use keirin_ai_web.Hosted.Forbidden.{forbidden_path, is_forbidden, among, lower_codes, codes, lower}
use keirin_ai_web.Hosted.Transport.{Transport}
use keirin_ai_web.Hosted.Queue.{claim, save}
use keirin_ai_web.Hosted.Events.{
  HostedActivityEvent, is_task_id, is_short, event_number, event_task, event_kind, event_step,
  event_payload, event_time, parse_event,
}
use keirin_ai_web.Hosted.Listing.{
  parse_events, insert_number, sorted_numbers, count, count_distinct, any_upto, check_ids,
  listed_rows, listed_events, valid_limit, valid_cursor,
}
use keirin_ai_web.Hosted.Activity.{
  checked_activity, activity_request, valid_task_id, append, list_events,
}
use keirin_ai_web.Hosted.Ledger.{ListFits, cursor_of, list_events-fit}
use keirin_ai_web.Hosted.Worker.{
  keep, is_refused, missing_of, forbidden_of, preflight, blocked_state, decided, announce, report,
  release, inspect_lease, inspect_claimed, inspect_next,
}
use keirin_ai_web.Hosted.Preflight.{PreflightFits, preflight-fits}
use keirin_ai_web.Hosted.Decision.{ReadyTask, inspect_next-ready}
use keirin_ai_web.Hosted.Model.{copy_state}
use keirin_ai_web.Tasks.Uses.{used_names}
use keirin_ai_web.Tasks.Model.{validate_step, no_repeats, validate_steps, validate_task}
use keirin_ai_web.Hosted.Tests.{tasks, task, claimed, released, host, shown}

abbrev event_row : ℕ → Json
event_row n = obj (
    field "event_id" (int (pos n)) (
      field "task_id" (text "t1") (
        field "event_type" (text " noted ") (
          field "step_id" null (
            field "payload" (obj (field "reason" (text "queue_empty") end))
              (field "created_at" (text "2026-01-01T00:00:00Z") end))))))

abbrev event_at : ℕ → HostedActivityEvent
event_at n = record {
  event_id = n;
  task_id = "t1";
  event_type = "noted";
  step_id = none;
  payload = field "reason" (text "queue_empty") end;
  created_at = "2026-01-01T00:00:00Z";
}

-- The ledger's host.
abbrev ledger : Transport (List String)
ledger mode payload log = (
  ok (
      obj (
        field "success" (boolean true) (
          field "event" (event_row 9)
            (field "events" (arr (cons (event_row 3) (cons (event_row 7) nil))) end)))),
  mode ∷ log,
)

lists :
    (list_events shown ledger (text "t1") (cursor_of (some 2)) (int (pos 100)) []).0
    ≡ ok (event_at 3 ∷ event_at 7 ∷ [])
unfolding list_events valid_task_id is_task_id starts_then each_upto id_character is_alphanumeric
    valid_limit valid_cursor activity_request checked_activity listed_events listed_rows
    parse_events parse_event event_number event_task event_kind event_step event_payload event_time
    is_blank is_space is_short strip strip_left strip_right forbidden_path is_forbidden among
    lower_codes lower codes check_ids sorted_numbers insert_number count count_distinct any_upto get
lists = refl

list_events-fit_example : ListFits "t1" (some 2) (event_at 3 ∷ event_at 7 ∷ [])
list_events-fit_example =
    list_events-fit shown ledger "t1" (some 2) (int (pos 100)) (event_at 3 ∷ event_at 7 ∷ []) []
      lists

abbrev reading : String → Capability
reading name = record {
  action = name;
  access = "read";
  required_permissions = [];
  supports_dry_run = true;
  description = "";
}

abbrev tools : ToolRegistry ℕ
tools =
    entered "github-readonly" "github.verify_ci" 2 (reading "github.verify_ci")
      (entered "github-readonly" "github.read_main" 1 (reading "github.read_main") (new_registry ℕ))

checks :
    preflight tasks tools claimed ("write" ∷ [])
    ≡ ok ([], "github.read_main" ∷ "github.verify_ci" ∷ [])
unfolding preflight validate_task validate_steps validate_step no_repeats is_blank is_space strip
    strip_left strip_right used_names missing_of forbidden_of keep is_refused keys sorted_set
    insert_sorted text_lt
checks = refl

preflight-fits_example :
    PreflightFits tools ("write" ∷ []) task.steps [] ("github.read_main" ∷ "github.verify_ci" ∷ [])
preflight-fits_example =
    preflight-fits tools ("write" ∷ []) tasks claimed []
      ("github.read_main" ∷ "github.verify_ci" ∷ []) checks

abbrev end_log : List String
end_log = "event_append" ∷ "queue_save" ∷ "event_append" ∷ "queue_claim" ∷ []

inspects :
    inspect_next tasks shown host ledger tools (text "worker-1") (int (pos 120)) ("read" ∷ []) []
    ≡ (ok (decided tasks claimed released [] []), end_log)
unfolding inspect_next inspect_claimed inspect_lease announce release report append claim save
    blocked_state copy_state get text_lt
inspects = refl

inspect_next-ready_example :
    ReadyTask tasks shown host ledger tools
      (text "worker-1")
      (int (pos 120))
      ("read" ∷ [])
      (decided tasks claimed released [] [])
      []
inspect_next-ready_example =
    inspect_next-ready tasks shown host ledger tools (text "worker-1") (int (pos 120)) ("read" ∷ [])
      (decided tasks claimed released [] []) [] end_log inspects refl
