-- ===== src/Hosted/Listing.antt =====
-- The rows that `list` of agent_core/hosted_activity.py takes for an answer.
use keirin_ai_web.Prelude.{
  ℕ, suc, String, Bool, false, not, ◌&&◌, ◌||◌, Option, none, some, List, [], ◌∷◌, leb, ◌==◌,
  nat_eq, list_eq, contains, if◌then◌else◌,
}
use keirin_ai_web.Outcome.{Result, ok, err, value_error, activity_integrity}
use keirin_ai_web.Outcome.Pure.{◌>>=◌, ◌>>◌, raise_if}
use keirin_ai_web.Credentials.{pos}
use keirin_ai_web.Json.{Json, Items, Fields, null, int, arr, nil, cons, end, field}
use keirin_ai_web.Hosted.Events.{HostedActivityEvent, parse_event}

-- `_parse_event` of each row.
unfoldable pub parse_events : Items → String → Result (List HostedActivityEvent)
unfolding parse_event
parse_events nil task_id = ok []
parse_events (cons row rows) task_id = do
  event ← parse_event row (some task_id)
  events ← parse_events rows task_id
  ok (event ∷ events)

abbrev pub event_ids : List HostedActivityEvent → List ℕ
event_ids [] = []
event_ids (event ∷ events) = event.event_id ∷ event_ids events

unfoldable pub insert_number : ℕ → List ℕ → List ℕ
insert_number n [] = n ∷ []
insert_number n (k ∷ l) = if leb n k then n ∷ k ∷ l else k ∷ insert_number n l

-- `sorted(ids)`
unfoldable pub sorted_numbers : List ℕ → List ℕ
unfolding insert_number
sorted_numbers [] = []
sorted_numbers (n ∷ l) = insert_number n (sorted_numbers l)

-- `len(ids)`
unfoldable pub count : List ℕ → ℕ
count [] = 0
count (n ∷ l) = suc (count l)

-- `len(set(ids))`
unfoldable pub count_distinct : List ℕ → ℕ
count_distinct [] = 0
count_distinct (n ∷ l) = let rest = count_distinct l in if contains n l then rest else suc rest

-- `any(event_id <= after for event_id in ids)`
unfoldable pub any_upto : ℕ → List ℕ → Bool
any_upto after [] = false
any_upto after (n ∷ l) = leb n after || any_upto after l

-- The tests of `list` on the ids of the events.
unfoldable pub check_ids : List ℕ → Option ℕ → Result (Unit {0})
unfolding sorted_numbers count count_distinct any_upto
check_ids ids none =
    raise_if (not (ids == sorted_numbers ids) || not (count ids == count_distinct ids))
      (activity_integrity "activity_event_order_or_duplicate_error")
check_ids ids (some after) = do
  raise_if (not (ids == sorted_numbers ids) || not (count ids == count_distinct ids))
      (activity_integrity "activity_event_order_or_duplicate_error")
  raise_if (any_upto after ids) (activity_integrity "activity_event_cursor_violation")

unfoldable pub listed_rows : String → Option ℕ → Items → Result (List HostedActivityEvent)
unfolding parse_events check_ids
listed_rows task_id after rows = do
  events ← parse_events rows task_id
  check_ids (event_ids events) after
  ok events

unfoldable pub listed_events : String → Option ℕ → Json → Result (List HostedActivityEvent)
unfolding listed_rows
listed_events task_id after (arr rows) = listed_rows task_id after rows
listed_events task_id after _ = err (activity_integrity "activity_event_list_required")

unfoldable pub valid_limit : Json → Result ℕ
valid_limit (int (pos n)) =
    if leb 1 n && leb n 200 then ok n else err (value_error "activity_list_limit_out_of_range")
valid_limit _ = err (value_error "activity_list_limit_out_of_range")

unfoldable pub valid_cursor : Json → Result (Option ℕ)
valid_cursor null = ok none
valid_cursor (int (pos n)) = ok (some n)
valid_cursor _ = err (value_error "invalid_after_event_id")

-- `if after_event_id is not None: request["after_event_id"] = after_event_id`
abbrev pub with_cursor : Option ℕ → Fields
with_cursor none = end
with_cursor (some n) = field "after_event_id" (int (pos n)) end
