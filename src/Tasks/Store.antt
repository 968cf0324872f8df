-- ===== src/Tasks/Store.antt =====
-- `FileStateStore` of agent_core/store.py: the saved states by task id, and the ledger of events, newest
-- first. An event's `data` and its timestamp are left out. File-system faults are not modelled.
use keirin_ai_web.Prelude.{
  ℕ, String, Bool, not, ◌||◌, Option, none, some, List, [], ◌∷◌, ◌++◌, ◌==◌, nat_eq, string_eq,
  contains, if◌then◌else◌,
}
use keirin_ai_web.Prelude.Text.{is_blank, is_alphanumeric, starts_then}
use keirin_ai_web.Prelude.Dict.{Dict, lookup, insert, remove}
use keirin_ai_web.Outcome.{Result, ok, err, Exec, value_error, runtime_error}
use keirin_ai_web.Outcome.Pure.{◌>>=◌, ◌>>◌, raise_if}
use keirin_ai_web.Tasks.Model.{
  TaskState, pending, blocked, is_blocked, ArtifactUpdate, Resolution, not_applied,
  applied_and_verified, needs_manual_action, Reconciliation, initial_state,
}
use keirin_ai_web.Tasks.Artifacts.{apply_artifact_updates}

pub data EventType : Type 0 where
  terminal_resume_skipped task_started task_blocked task_failed task_completed : EventType
  step_started step_error step_verified step_completed : EventType
  step_skipped_completed step_reconciled : EventType

pub record Event : Type 0 where
  pub task_id : String
  pub step_id : Option String
  pub event_type : EventType

pub record Disk : Type 0 where
  pub states : Dict String TaskState
  pub events : List Event

-- `[A-Za-z0-9._-]`
unfoldable pub id_character : ℕ → Bool
unfolding is_alphanumeric
id_character c = is_alphanumeric c || c == b'.' || c == b'_' || c == b'-'

-- `_SAFE_ID.fullmatch`
unfoldable pub is_safe_id : String → Bool
unfolding starts_then id_character
is_safe_id s = starts_then is_alphanumeric id_character 127 s

-- `_safe_task_id`
unfoldable pub safe_task_id : String → Result String
safe_task_id s = if is_safe_id s then ok s else err (value_error "unsafe_task_id")

-- `task_lock`, for a task that another process may hold (`locked`); it is let go at the end of the block.
unfoldable pub task_lock : Bool → String → Result (Unit {0})
unfolding safe_task_id
task_lock locked task_id = do
  safe_task_id task_id
  raise_if locked (runtime_error "task_already_running")

-- `load_events`, oldest first; `None` asks for the events of all tasks.
unfoldable pub load_events : Option String → List Event → List Event
load_events wanted [] = []
load_events none (event ∷ l) = load_events none l ++ event ∷ []
load_events (some task_id) (event ∷ l) =
    let rest = load_events (some task_id) l in
    if event.task_id == task_id then rest ++ event ∷ [] else rest

-- `TaskState.from_dict`, whose schema test is the one that reads the value, and the test of the id.
unfoldable pub check_loaded : String → Option TaskState → Result TaskState
check_loaded task_id none = ok (initial_state task_id)
check_loaded task_id (some state) = do
  raise_if (not (state.schema_version == "agent-task-state-v1"))
      (value_error "state_schema_mismatch")
  raise_if (not (state.task_id == task_id)) (value_error "task_state_id_mismatch")
  ok state

-- `load_state`
unfoldable pub load_state : String → Disk → Result TaskState
unfolding check_loaded safe_task_id
load_state task_id disk = do safe_task_id task_id; check_loaded task_id (lookup task_id disk.states)

-- `save_state`, for a task id that `_safe_task_id` admits.
abbrev pub save_state : TaskState → Disk → Disk
save_state state disk = record disk { states = insert state.task_id state disk.states }

-- `append_event`
abbrev pub append_event : String → Option String → EventType → Disk → Disk
append_event task_id step_id event_type disk = record disk {
  events = (record { task_id = task_id; step_id = step_id; event_type = event_type }) ∷ disk.events;
}

abbrev pub add_completed : String → List String → List String
add_completed step_id steps = if contains step_id steps then steps else steps ++ step_id ∷ []

-- The change of the state for each resolution.
unfoldable pub resolve : Resolution → String → TaskState → TaskState
resolve not_applied step_id state = record state {
  status = pending;
  blocked_reason = none;
  last_error = none;
  attempts = remove step_id state.attempts;
}
resolve applied_and_verified step_id state = record state {
  status = pending;
  completed_steps = add_completed step_id state.completed_steps;
  blocked_reason = none;
  last_error = none;
}
resolve needs_manual_action step_id state = record state { status = blocked }

abbrev pub reconciliation_record : String → Resolution → String → TaskState → Reconciliation
reconciliation_record step_id resolution note state = record {
  step_id = step_id;
  resolution = resolution;
  note = note;
  previous_blocked_reason = state.blocked_reason;
  previous_last_error = state.last_error;
}

-- `_reconcile_blocked_step_locked` up to its writes: the state that it saves.
unfoldable pub reconciled_state :
    String → String → Resolution → String → List ArtifactUpdate → Disk → Result TaskState
unfolding load_state resolve
reconciled_state task_id step_id resolution note updates disk = do
  raise_if (is_blank step_id) (value_error "step_id_required")
  raise_if (is_blank note) (value_error "reconciliation_note_required")
  state ← load_state task_id disk
  raise_if (not (is_blocked state.status)) (value_error "task_not_blocked")
  artifacts ← apply_artifact_updates state.artifacts updates
  ok (
      resolve resolution step_id (record state {
        artifacts = artifacts;
        reconciliations =
            state.reconciliations ++ reconciliation_record step_id resolution note state ∷ [];
      }))

abbrev pub write_reconciled : String → String → Result TaskState → Exec Disk TaskState
write_reconciled task_id step_id (err e) disk = (err e, disk)
write_reconciled task_id step_id (ok state) disk =
    (ok state, append_event task_id (some step_id) step_reconciled (save_state state disk))

-- `reconcile_blocked_step`, whose lock makes it one step.
unfoldable pub reconcile_blocked_step :
    Bool → String → String → Resolution → String → List ArtifactUpdate → Exec Disk TaskState
unfolding reconciled_state task_lock
reconcile_blocked_step locked task_id step_id resolution note updates disk =
    write_reconciled task_id step_id
      (do task_lock locked task_id; reconciled_state task_id step_id resolution note updates disk)
      disk
