-- ===== src/Hosted/Lease.antt =====
-- `HostedQueueLease` and `_parse_lease` of agent_core/hosted_queue.py. The path of a forbidden key is left
-- out of the message.
use keirin_ai_web.Prelude.{
  ℕ, String, Bool, true, false, not, ◌||◌, Option, none, some, ltb, ◌==◌, nat_eq, string_eq,
  if◌then◌else◌,
}
use keirin_ai_web.Prelude.Text.{is_alphanumeric, starts_then}
use keirin_ai_web.Outcome.{Result, ok, err, key_error, type_error, value_error, queue_integrity}
use keirin_ai_web.Outcome.Pure.{◌>>=◌, ◌>>◌, raise_if}
use keirin_ai_web.Credentials.{pos}
use keirin_ai_web.Secrets.Record.{attempt_character}
use keirin_ai_web.Json.{Json, Fields, null, int, text, arr, obj, end, field, get, is_object}
use keirin_ai_web.Hosted.Forbidden.{forbidden_path}
use keirin_ai_web.Tasks.Model.{TaskSpec}
use keirin_ai_web.Hosted.Model.{TaskModel, StoredState, read_state}

-- `_ROW_STATUSES`
pub data RowStatus : Type 0 where
  queued running blocked completed failed : RowStatus

unfoldable pub row_status : Json → Result RowStatus
row_status (text s) =
    if s == "queued"
    then ok queued
    else if s == "running"
    then ok running
    else if s == "blocked"
    then ok blocked
    else if s == "completed"
    then ok completed
    else if s == "failed"
    then ok failed
    else err (queue_integrity "invalid_queue_status")
row_status (arr l) = err (type_error "unhashable type: 'list'")
row_status (obj fs) = err (type_error "unhashable type: 'dict'")
row_status _ = err (queue_integrity "invalid_queue_status")

abbrev pub status_text : RowStatus → String
status_text queued = "queued"
status_text running = "running"
status_text blocked = "blocked"
status_text completed = "completed"
status_text failed = "failed"

-- `"pending" if status == "queued" else status`
abbrev pub expected_state_status : RowStatus → String
expected_state_status queued = "pending"
expected_state_status status = status_text status

pub record HostedQueueLease (m : TaskModel) : Type 0 where
  pub task_id : String
  pub status : RowStatus
  pub revision : ℕ
  pub idempotency_key : String
  pub spec : TaskSpec Json
  pub state : StoredState m
  pub attempt_count : ℕ
  pub max_attempts : ℕ
  pub lease_owner : Option String
  pub lease_generation : ℕ
  pub lease_expires_at : Option String
  pub not_before : String
  pub created_at : Option String
  pub updated_at : Option String

-- `_valid_worker_id`, of a text.
unfoldable pub is_worker_id : String → Bool
unfolding starts_then attempt_character is_alphanumeric
is_worker_id s = starts_then is_alphanumeric attempt_character 127 s

unfoldable pub valid_worker_id : Json → Bool
unfolding is_worker_id
valid_worker_id (text s) = is_worker_id s
valid_worker_id _ = false

-- `_parse_int`
unfoldable pub parse_int : Json → ℕ → String → Result ℕ
parse_int (int (pos n)) minimum e = if ltb n minimum then err (queue_integrity e) else ok n
parse_int _ minimum e = err (queue_integrity e)

-- `isinstance(value, str) and value`
unfoldable pub filled_text : Json → String → Result String
filled_text (text s) e = if s == "" then err (queue_integrity e) else ok s
filled_text _ e = err (queue_integrity e)

abbrev pub text_or_none : Json → Option String
text_or_none (text s) = some s
text_or_none _ = none

abbrev pub is_null : Json → Bool
is_null null = true
is_null _ = false

-- `value == s` for a text `s`.
abbrev pub equals_text : Json → String → Bool
equals_text (text t) s = t == s
equals_text _ s = false

-- `except (KeyError, TypeError, ValueError)` as an integrity error.
unfoldable pub or_integrity : {A : Type 0} → Result A → String → Result A
or_integrity (err (key_error s)) e = err (queue_integrity e)
or_integrity (err (type_error s)) e = err (queue_integrity e)
or_integrity (err (value_error s)) e = err (queue_integrity e)
or_integrity r e = r

-- The tests on the owner, the generation and the expiry, by the status of the row.
unfoldable pub check_lease : RowStatus → Json → ℕ → Json → Result (Unit {0})
unfolding valid_worker_id filled_text
check_lease running owner generation expires = do
  raise_if (not (valid_worker_id owner)) (queue_integrity "invalid_lease_owner")
  raise_if (ltb generation 1) (queue_integrity "invalid_lease_generation")
  filled_text expires "invalid_lease_expiry"
  ok tt
check_lease status owner generation expires =
    raise_if (not (is_null owner) || not (is_null expires))
      (queue_integrity "terminal_or_queued_lease_not_cleared")

abbrev pub is_clear : {A : Type 0} → Option A → Bool
is_clear none = true
is_clear (some a) = false

module _ (m : TaskModel) where
  -- `expected_spec is not None and spec.to_dict() != expected_spec.to_dict()`
  abbrev pub differs : TaskSpec Json → Option (TaskSpec Json) → Bool
  differs spec none = false
  differs spec (some expected) = not (m.same_spec spec expected)

  -- The tests on the task and its state.
  unfoldable pub check_task :
      Fields
      → String
      → RowStatus
      → TaskSpec Json
      → StoredState m
      → Option (TaskSpec Json)
      → Result (Unit {0})
  unfolding forbidden_path
  check_task value task_id status spec state expected_spec = do
    raise_if (not (spec.task_id == task_id) || not (state.task_id == task_id))
        (queue_integrity "queue_task_identity_mismatch")
    raise_if (differs spec expected_spec) (queue_integrity "task_spec_changed")
    raise_if
        (not (equals_text (get "spec_fingerprint" value) (m.fingerprint spec))
          || not (equals_text state.spec_fingerprint (m.fingerprint spec)))
        (queue_integrity "queue_spec_fingerprint_mismatch")
    raise_if (not (equals_text state.status (expected_state_status status)))
        (queue_integrity "queue_state_status_mismatch")
    raise_if
        (not (
          is_clear (
            forbidden_path
              (obj (field "spec" (get "spec" value) (field "state" (get "state" value) end))))))
        (queue_integrity "queue_record_contains_forbidden_secret")

  -- The numbers, texts and lease of a row, behind the tests on its task.
  unfoldable pub lease_of :
      Fields → String → RowStatus → TaskSpec Json → StoredState m → Result (HostedQueueLease m)
  unfolding parse_int filled_text check_lease
  lease_of value task_id status spec state = do
    revision ← parse_int (get "revision" value) 0 "invalid_queue_revision"
    attempt_count ← parse_int (get "attempt_count" value) 0 "invalid_attempt_count"
    max_attempts ← parse_int (get "max_attempts" value) 1 "invalid_max_attempts"
    generation ← parse_int (get "lease_generation" value) 0 "invalid_lease_generation"
    raise_if (ltb max_attempts attempt_count) (queue_integrity "attempt_budget_exceeded")
    key ← filled_text (get "idempotency_key" value) "invalid_queue_idempotency_key"
    not_before ← filled_text (get "not_before" value) "invalid_not_before"
    check_lease status (get "lease_owner" value) generation (get "lease_expires_at" value)
    ok (record {
      task_id = task_id;
      status = status;
      revision = revision;
      idempotency_key = key;
      spec = spec;
      state = state;
      attempt_count = attempt_count;
      max_attempts = max_attempts;
      lease_owner = text_or_none (get "lease_owner" value);
      lease_generation = generation;
      lease_expires_at = text_or_none (get "lease_expires_at" value);
      not_before = not_before;
      created_at = text_or_none (get "created_at" value);
      updated_at = text_or_none (get "updated_at" value);
    })

  -- `_parse_lease`, of a mapping.
  unfoldable pub parse_fields : Fields → Option (TaskSpec Json) → Result (HostedQueueLease m)
  unfolding row_status filled_text or_integrity read_state check_task lease_of
  parse_fields value expected_spec = do
    task_id ← filled_text (get "task_id" value) "invalid_queue_task_id"
    status ← row_status (get "status" value)
    raise_if (not (is_object (get "spec" value)) || not (is_object (get "state" value)))
        (queue_integrity "queue_spec_state_required")
    spec ← or_integrity (m.read_spec (get "spec" value)) "invalid_queue_model"
    state ← or_integrity (read_state m (get "state" value)) "invalid_queue_model"
    check_task value task_id status spec state expected_spec
    lease_of value task_id status spec state

  -- `_parse_lease`
  unfoldable pub parse_lease : Json → Option (TaskSpec Json) → Result (HostedQueueLease m)
  unfolding parse_fields
  parse_lease (obj value) expected_spec = parse_fields value expected_spec
  parse_lease _ expected_spec = err (queue_integrity "queue_lease_object_required")
