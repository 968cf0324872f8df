-- ===== src/Tasks/Runner/Entry.antt =====
-- `run` of agent_core/runner.py: the tests on the task and its saved state, and where a run goes on.
use keirin_ai_web.Prelude.{
  ℕ, String, Bool, true, false, not, ◌&&◌, Option, none, some, List, [], ◌∷◌, ltb, ◌==◌, nat_eq,
  string_eq, contains, if◌then◌else◌,
}
use keirin_ai_web.Prelude.Dict.{Dict, lookup}
use keirin_ai_web.Outcome.{Result, ok, err, value_error}
use keirin_ai_web.Outcome.Pure.{◌>>=◌, ◌>>◌, raise_if}
use keirin_ai_web.Credentials.{sorted_set}
use keirin_ai_web.Tasks.Model.{
  TaskSpec, TaskState, TaskStatus, is_terminal, BlockReason,
  interrupted_step_requires_reconciliation, PersistentError, validate_task,
}
use keirin_ai_web.Tasks.Store.{Disk, terminal_resume_skipped, task_lock, load_state}
use keirin_ai_web.Tasks.Runner.Session.{
  ActionResult, Action, Session, Flow, save, log, block, finish, start, next, done, crash,
}
use keirin_ai_web.Tasks.Runner.Steps.{run_steps}

-- The steps that were attempted and not completed: `unresolved`, before it is sorted.
unfoldable pub unresolved : List String → Dict String ℕ → List String
unresolved completed_steps [] = []
unresolved completed_steps ((step_id, count) ∷ l) =
    let rest = unresolved completed_steps l in
    if ltb 0 count && not (contains step_id completed_steps) then step_id ∷ rest else rest

-- The tests on the fingerprint: a saved state without one, and one of another task.
unfoldable pub check_fingerprint : Bool → Option String → String → Result (Unit {0})
check_fingerprint true none fp = err (value_error "legacy_task_spec_requires_review")
check_fingerprint false none fp = ok tt
check_fingerprint existed (some f) fp = raise_if (not (f == fp)) (value_error "task_spec_changed")

abbrev pub is_some {ℓ} : {A : Type ℓ} → Option A → Bool
is_some none = false
is_some (some a) = true

pub record RunOutcome : Type 0 where
  pub task_id : String
  pub status : TaskStatus
  pub completed_steps : List String
  pub blocked_reason : Option BlockReason
  pub last_error : Option PersistentError
  pub executed_steps : List String
  pub skipped_steps : List String

-- `_outcome`
abbrev pub outcome : {E : Type 0} → Session E → RunOutcome
outcome s = record {
  task_id = s.state.task_id;
  status = s.state.status;
  completed_steps = s.state.completed_steps;
  blocked_reason = s.state.blocked_reason;
  last_error = s.state.last_error;
  executed_steps = s.executed;
  skipped_steps = s.skipped;
}

-- What a caller of `run` gets, with the disk and the world as they are then.
abbrev pub report : {E : Type 0} → Flow (Session E) → Result RunOutcome × Disk × E
report (next s) = (ok (outcome s), s.disk, s.outside)
report (done s) = (ok (outcome s), s.disk, s.outside)
report (crash e s) = (err e, s.disk, s.outside)

module _ {J E : Type 0} (actions : String → Option (Action J E)) (empty : ActionResult J)
    (fingerprint : TaskSpec J → String) where
  -- The part of `_run_locked` behind the fingerprint, by whether the task is at its end, and by the
  -- steps that an interrupted run left.
  unfoldable pub resume : Bool → List String → TaskSpec J → Session E → Flow (Session E)
  unfolding run_steps finish start
  resume true open_steps spec s = done (log none terminal_resume_skipped s)
  resume false [] spec s = finish (run_steps actions empty fingerprint spec spec.steps (start s))
  resume false (a ∷ l) spec s =
      done (block (interrupted_step_requires_reconciliation (sorted_set (a ∷ l))) none none s)

  abbrev pub fresh_session : TaskState → Disk → E → Session E
  fresh_session state disk outside = record {
    state = state;
    disk = disk;
    outside = outside;
    executed = [];
    skipped = [];
  }

  -- A state that was not there before is saved with the fingerprint.
  abbrev pub adopt : Bool → String → Session E → Session E
  adopt true fp s = s
  adopt false fp s = save (record s { state = record s.state { spec_fingerprint = some fp } })

  unfoldable pub run_loaded : Bool → TaskSpec J → Session E → Flow (Session E)
  unfolding resume unresolved
  run_loaded existed spec s =
      resume (is_terminal (adopt existed (fingerprint spec) s).state.status)
        (unresolved (adopt existed (fingerprint spec) s).state.completed_steps
          (adopt existed (fingerprint spec) s).state.attempts)
        spec (adopt existed (fingerprint spec) s)

  abbrev pub run_checked :
      Bool → TaskSpec J → Result TaskState → Disk → E → Result RunOutcome × Disk × E
  run_checked existed spec (err e) disk outside = (err e, disk, outside)
  run_checked existed spec (ok state) disk outside =
      report (run_loaded existed spec (fresh_session state disk outside))

  -- What `run` and `_run_locked` read and test before they change anything.
  unfoldable pub checked_state : Bool → TaskSpec J → Disk → Result TaskState
  unfolding validate_task task_lock load_state check_fingerprint
  checked_state locked spec disk = do
    validate_task spec
    task_lock locked spec.task_id
    state ← load_state spec.task_id disk
    check_fingerprint (is_some (lookup spec.task_id disk.states)) state.spec_fingerprint
        (fingerprint spec)
    ok state

  -- `run`; `locked` is whether another process holds the task's lock.
  unfoldable pub run : Bool → TaskSpec J → Disk → E → Result RunOutcome × Disk × E
  unfolding checked_state run_loaded
  run locked spec disk outside =
      run_checked (is_some (lookup spec.task_id disk.states)) spec (checked_state locked spec disk)
        disk outside
