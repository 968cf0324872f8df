-- ===== src/Tasks/Tests.antt =====
-- Runs of small tasks, and the theorems at them.
use keirin_ai_web.Prelude.{
  ◌≡◌, ◌⊎◌, refl, ℕ, String, true, false, Option, none, some, List, [], ◌∷◌, ◌==◌, string_eq,
  contains, arith, eq_iff, if◌then◌else◌,
}
use keirin_ai_web.Prelude.Dict.{lookup}
use keirin_ai_web.Prelude.Text.{is_space, is_blank, is_alphanumeric, each_upto, starts_then}
use keirin_ai_web.Outcome.{Raised, ok, err, keyboard_interrupt}
use keirin_ai_web.Credentials.{null}
use keirin_ai_web.Tasks.Model.{
  StepSpec, TaskSpec, TaskState, initial_state, running, completed, blocked, pending, validate_step,
  validate_steps, validate_task, no_repeats, applied_and_verified,
}
use keirin_ai_web.Tasks.Artifacts.{apply_artifact_updates}
use keirin_ai_web.Tasks.Store.{
  task_lock, Disk, Event, EventType, terminal_resume_skipped, task_started, task_completed,
  step_started, step_completed, step_reconciled, id_character, is_safe_id, safe_task_id,
  check_loaded, load_state, resolve, reconciled_state, reconcile_blocked_step,
}
use keirin_ai_web.Tasks.Runner.Session.{
  ActionResult, Action, Session, returned, other_exception, action_result, interrupt,
  normalise_action_result, block, begin_attempt, complete_step, skip_step, finish, start,
}
use keirin_ai_web.Tasks.Runner.Attempts.{
  normalised, action_outcome, after_error, after_action, attempt_loop,
}
use keirin_ai_web.Tasks.Runner.Steps.{
  verify_step, keep_artifacts, after_attempts, perform, run_step, run_steps,
}
use keirin_ai_web.Tasks.Runner.Entry.{
  RunOutcome, unresolved, check_fingerprint, resume, run_loaded, checked_state, run,
}
use keirin_ai_web.Tasks.Runner.Completion.{Grows, step_ids}
use keirin_ai_web.Tasks.Runner.Recovery.{AsksForReconciliation, raising_run_leaves_a_trace}
use keirin_ai_web.Tasks.Runner.Outcomes.{
  completed_run_has_every_step, ended_run_is_idle, changed_task_is_refused,
}
use keirin_ai_web.Tasks.Reconciling.{reconciliation_settles_step}
use keirin_ai_web.Tasks.Runner.Bounds.{EndsWithin, attempt_loop-EndsWithin}

-- The world outside is the list of the calls that reached it.
abbrev nothing_found : ActionResult ℕ
nothing_found = record { message = ""; artifacts = []; contents = 0; verified = null }

abbrev read_page : Action ℕ (List String)
read_page arguments context calls =
    (returned (action_result nothing_found), context.step_id ∷ calls)

abbrev killed : Action ℕ (List String)
killed arguments context calls = (interrupt, context.step_id ∷ calls)

abbrev actions : String → Option (Action ℕ (List String))
actions name =
    if name == "read" then some read_page else if name == "kill" then some killed else none

abbrev digest : TaskSpec ℕ → String
digest spec = spec.title

abbrev read_step : StepSpec ℕ
read_step = record {
  step_id = "first";
  action = "read";
  args = 0;
  verify_action = none;
  retry_safe = false;
  max_attempts = 1;
}

abbrev kill_step : StepSpec ℕ
kill_step = record read_step { step_id = "second"; action = "kill" }

abbrev reading : TaskSpec ℕ
reading = record {
  task_id = "t1";
  title = "reading";
  goal = "read";
  allowed_actions = "read" ∷ "kill" ∷ [];
  steps = read_step ∷ [];
  inputs = 0;
  completion_conditions = [];
  schema_version = "agent-task-v1";
}

abbrev killing : TaskSpec ℕ
killing = record reading { title = "killing"; steps = read_step ∷ kill_step ∷ [] }

abbrev empty_disk : Disk
empty_disk = record { states = []; events = [] }

abbrev calls_made : List String
calls_made = "second" ∷ "first" ∷ []

abbrev no_calls : List String
no_calls = []

abbrev event : Option String → EventType → Event
event step_id event_type = record { task_id = "t1"; step_id = step_id; event_type = event_type }

abbrev killed_state : TaskState
killed_state = record (initial_state "t1") {
  status = running;
  completed_steps = "first" ∷ [];
  attempts = ("first", 1) ∷ ("second", 1) ∷ [];
  spec_fingerprint = some "killing";
}

abbrev killed_disk : Disk
killed_disk = record {
  states = ("t1", killed_state) ∷ [];
  events =
      event (some "second") step_started
      ∷ event (some "first") step_completed
      ∷ event (some "first") step_started
      ∷ event none task_started
      ∷ [];
}

run-killing :
    run actions nothing_found digest false killing empty_disk []
    ≡ (err (keyboard_interrupt "interrupted"), killed_disk, "second" ∷ "first" ∷ [])
unfolding run task_lock checked_state run_loaded validate_task validate_steps validate_step
    no_repeats safe_task_id is_safe_id starts_then each_upto id_character is_alphanumeric is_blank
    is_space load_state check_loaded check_fingerprint unresolved resume start finish run_steps
    run_step skip_step perform attempt_loop begin_attempt action_outcome normalised
    normalise_action_result after_action after_error after_attempts keep_artifacts
    apply_artifact_updates verify_step complete_step block
run-killing = refl

raising_run_leaves_a_trace_example :
    ((killed_disk ≡ empty_disk) × (calls_made ≡ []))
    ⊎ AsksForReconciliation actions nothing_found digest killing ("later" ∷ []) killed_disk
raising_run_leaves_a_trace_example =
    raising_run_leaves_a_trace actions nothing_found digest killing false empty_disk killed_disk []
      ("second" ∷ "first" ∷ []) ("later" ∷ []) (keyboard_interrupt "interrupted") run-killing

abbrev read_state : TaskState
read_state = record (initial_state "t1") {
  status = completed;
  completed_steps = "first" ∷ [];
  attempts = ("first", 1) ∷ [];
  spec_fingerprint = some "reading";
}

abbrev read_events : List Event
read_events =
    event none task_completed
    ∷ event (some "first") step_completed
    ∷ event (some "first") step_started
    ∷ event none task_started
    ∷ []

abbrev read_disk : Disk
read_disk = record { states = ("t1", read_state) ∷ []; events = read_events }

abbrev read_outcome : RunOutcome
read_outcome = record {
  task_id = "t1";
  status = completed;
  completed_steps = "first" ∷ [];
  blocked_reason = none;
  last_error = none;
  executed_steps = "first" ∷ [];
  skipped_steps = [];
}

run-reading :
    run actions nothing_found digest false reading empty_disk []
    ≡ (ok read_outcome, read_disk, "first" ∷ [])
unfolding run task_lock checked_state run_loaded validate_task validate_steps validate_step
    no_repeats safe_task_id is_safe_id starts_then each_upto id_character is_alphanumeric is_blank
    is_space load_state check_loaded check_fingerprint unresolved resume start finish run_steps
    run_step skip_step perform attempt_loop begin_attempt action_outcome normalised
    normalise_action_result after_action after_error after_attempts keep_artifacts
    apply_artifact_updates verify_step complete_step block
run-reading = refl

completed_run_has_every_step_example :
    ((state : TaskState) × (lookup "t1" empty_disk.states ≡ some state)
      × (state.status ≡ completed))
    ⊎ Grows (step_ids reading.steps) read_outcome.completed_steps
completed_run_has_every_step_example =
    completed_run_has_every_step actions nothing_found digest reading false empty_disk read_disk []
      ("first" ∷ []) read_outcome run-reading refl

abbrev reread_disk : Disk
reread_disk = record read_disk { events = event none terminal_resume_skipped ∷ read_events }

abbrev reread_outcome : RunOutcome
reread_outcome = record read_outcome { executed_steps = [] }

rerun-reading :
    run actions nothing_found digest false reading read_disk []
    ≡ (ok reread_outcome, reread_disk, [])
unfolding run task_lock checked_state run_loaded validate_task validate_steps validate_step
    no_repeats safe_task_id is_safe_id starts_then each_upto id_character is_alphanumeric is_blank
    is_space load_state check_loaded check_fingerprint unresolved resume start finish run_steps
    run_step skip_step perform attempt_loop begin_attempt action_outcome normalised
    normalise_action_result after_action after_error after_attempts keep_artifacts
    apply_artifact_updates verify_step complete_step block
rerun-reading = refl

ended_run_is_idle_example : (no_calls ≡ no_calls) × (reread_disk.states ≡ read_disk.states)
ended_run_is_idle_example =
    ended_run_is_idle actions nothing_found digest reading false read_disk reread_disk [] []
      read_state (ok reread_outcome) refl refl rerun-reading

changed_task_is_refused_example :
    (e : Raised) × (run actions nothing_found digest false killing read_disk []
      ≡ (err e, read_disk, []))
changed_task_is_refused_example =
    changed_task_is_refused actions nothing_found digest killing false read_disk [] read_state refl
      (ground (arith, eq_iff "reading" "killing"))

-- A task whose second step was blocked.
abbrev blocked_state : TaskState
blocked_state = record killed_state { status = blocked }

abbrev blocked_disk : Disk
blocked_disk = record { states = ("t1", blocked_state) ∷ []; events = [] }

abbrev settled_state : TaskState
settled_state = record killed_state {
  status = pending;
  completed_steps = "first" ∷ "second" ∷ [];
  reconciliations =
      (record {
        step_id = "second";
        resolution = applied_and_verified;
        note = "seen";
        previous_blocked_reason = none;
        previous_last_error = none;
      })
      ∷ [];
}

abbrev settled_disk : Disk
settled_disk = record {
  states = ("t1", settled_state) ∷ [];
  events = event (some "second") step_reconciled ∷ [];
}

reconcile-blocked :
    reconcile_blocked_step false "t1" "second" applied_and_verified "seen" [] blocked_disk
    ≡ (ok settled_state, settled_disk)
unfolding reconcile_blocked_step task_lock reconciled_state load_state check_loaded safe_task_id
    is_safe_id starts_then each_upto id_character is_alphanumeric is_blank is_space
    apply_artifact_updates resolve
reconcile-blocked = refl

reconciliation_settles_step_example :
    (blocked_state.status ≡ blocked)
    × (lookup "t1" settled_disk.states ≡ some settled_state)
    × (settled_state.status ≡ pending)
    × (contains "second" (unresolved settled_state.completed_steps settled_state.attempts) ≡ false)
unfolding no_repeats
reconciliation_settles_step_example =
    reconciliation_settles_step false "t1" "second" applied_and_verified "seen" [] blocked_disk
      settled_disk blocked_state settled_state refl refl (ground arith) reconcile-blocked

abbrev flaky : Action ℕ (List String)
flaky arguments context calls = (other_exception, context.step_id ∷ calls)

abbrev flaky_step : StepSpec ℕ
flaky_step = record read_step { retry_safe = true; max_attempts = 3 }

abbrev started : Session (List String)
started = record {
  state = record killed_state { attempts = [] };
  disk = empty_disk;
  outside = [];
  executed = [];
  skipped = [];
}

attempt_loop-EndsWithin_example :
    EndsWithin "first" 3
      (attempt_loop actions nothing_found digest 3 flaky reading flaky_step started)
attempt_loop-EndsWithin_example =
    attempt_loop-EndsWithin actions nothing_found digest 3 3 flaky reading flaky_step started
      (ground arith) (ground arith) (ground arith) (ground arith)
