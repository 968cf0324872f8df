-- ===== src/Tasks/Runner/Checks.antt =====
-- What the tests of `run` in agent_core/runner.py establish before anything changes.
use keirin_ai_web.Prelude.{
  ap, ◌∙◌, ℕ, ◌<◌, String, ◌≡◌, ◌≢◌, refl, Bool, true, false, Option, none, some, List, [], ◌∷◌,
  contains, string_eq, nat_eq, arith, eq_iff,
}
use keirin_ai_web.Prelude.Dict.{Dict, lookup}
use keirin_ai_web.Outcome.{Raised, ok, err}
use keirin_ai_web.Tasks.Model.{
  StepSpec, TaskSpec, TaskState, is_terminal, validate_step, validate_steps, validate_task,
}
use keirin_ai_web.Tasks.Store.{Disk, task_lock, safe_task_id, check_loaded, load_state}
use keirin_ai_web.Tasks.Runner.Session.{ActionResult, Action}
use keirin_ai_web.Tasks.Runner.Entry.{
  checked_state, check_fingerprint, is_some, unresolved, run, run_checked, run_loaded, resume,
  report, fresh_session,
}
use keirin_ai_web.Tasks.Runner.Flows.{Attemptable}

validate_step-positive :
    {J : Type 0} (step : StepSpec J) → validate_step step ≡ ok tt → 0 < step.max_attempts
unfolding validate_step
validate_step-positive step h = ground arith

validate_steps-Attemptable :
    {J : Type 0} (allowed seen : List String) (l : List (StepSpec J))
    → validate_steps allowed seen l ≡ ok tt
    → Attemptable l
unfolding validate_steps
validate_steps-Attemptable allowed seen [] h = tt
validate_steps-Attemptable allowed seen (step ∷ l) h = (
  validate_step-positive step (ground arith),
  validate_steps-Attemptable allowed (step.step_id ∷ seen) l (ground arith),
)

pub validate_task-Attemptable :
    {J : Type 0} (spec : TaskSpec J) → validate_task spec ≡ ok tt → Attemptable spec.steps
unfolding validate_task
validate_task-Attemptable spec h =
    validate_steps-Attemptable spec.allowed_actions [] spec.steps (ground arith)

check_loaded-fields :
    (task_id : String) (o : Option TaskState) (state : TaskState)
    → check_loaded task_id o ≡ ok state
    → (state.task_id ≡ task_id) × (state.schema_version ≡ "agent-task-state-v1")
unfolding check_loaded
check_loaded-fields task_id none state h = ground arith
check_loaded-fields task_id (some st) state h =
    ground (arith, eq_iff st.schema_version "agent-task-state-v1", eq_iff st.task_id task_id)

known_fingerprint :
    (existed : Bool) (o : Option String) (fp : String)
    → existed ≡ true
    → check_fingerprint existed o fp ≡ ok tt
    → o ≡ some fp
unfolding check_fingerprint
known_fingerprint true none fp e h = ground arith
known_fingerprint false none fp e h = ground arith
known_fingerprint existed (some f) fp e h = ground (arith, eq_iff f fp)

pub unresolved-nonempty :
    (step_id : String) (completed_steps : List String) (attempts : Dict String ℕ) (n : ℕ)
    → contains step_id completed_steps ≡ false
    → lookup step_id attempts ≡ some n
    → 0 < n
    → unresolved completed_steps attempts ≢ []
unfolding unresolved
unresolved-nonempty step_id completed_steps [] n o h p = ground arith
unresolved-nonempty step_id completed_steps ((j, m) ∷ d) n o h p =
    ground (arith, eq_iff step_id j, unresolved-nonempty step_id completed_steps d n)

module _ {J E : Type 0} (actions : String → Option (Action J E)) (empty : ActionResult J)
    (fingerprint : TaskSpec J → String) (spec : TaskSpec J) where
  -- The tests that a run of the task passes at a disk, and the state that it reads there.
  pub record Checked (disk : Disk) (state : TaskState) : Type 0 where
    pub valid : validate_task spec ≡ ok tt
    pub safe : safe_task_id spec.task_id ≡ ok spec.task_id
    pub read : check_loaded spec.task_id (lookup spec.task_id disk.states) ≡ ok state
    pub known :
        check_fingerprint
          (is_some (lookup spec.task_id disk.states))
          state.spec_fingerprint
          (fingerprint spec)
        ≡ ok tt

  pub checked_state-Checked :
      (locked : Bool) (disk : Disk) (state : TaskState)
      → checked_state actions empty fingerprint locked spec disk ≡ ok state
      → Checked disk state
  unfolding checked_state load_state safe_task_id task_lock
  checked_state-Checked locked disk state h = record {
    valid = ground arith;
    safe = ground arith;
    read = ground arith;
    known = ground arith;
  }

  pub checked_state-ok :
      (disk : Disk) (state : TaskState)
      → Checked disk state
      → checked_state actions empty fingerprint false spec disk ≡ ok state
  unfolding checked_state load_state task_lock
  checked_state-ok disk state h = ground (arith, h.valid, h.safe, h.read, h.known)

  pub Checked-fields :
      (disk : Disk) (state : TaskState)
      → Checked disk state
      → (state.task_id ≡ spec.task_id) × (state.schema_version ≡ "agent-task-state-v1")
  Checked-fields disk state h = check_loaded-fields spec.task_id _ state h.read

  -- A saved state that passes has the fingerprint of the task.
  pub Checked-fingerprint :
      (disk : Disk) (state : TaskState)
      → Checked disk state
      → is_some (lookup spec.task_id disk.states) ≡ true
      → state.spec_fingerprint ≡ some (fingerprint spec)
  Checked-fingerprint disk state h e = known_fingerprint _ _ _ e h.known

  run-as_checked :
      (locked : Bool) (disk : Disk) (outside : E)
      → run actions empty fingerprint locked spec disk outside
        ≡ run_checked actions empty fingerprint
            (is_some (lookup spec.task_id disk.states))
            spec
            (checked_state actions empty fingerprint locked spec disk)
            disk
            outside
  unfolding run
  run-as_checked locked disk outside = refl

  -- A run whose tests raise changes nothing.
  pub run-err :
      (locked : Bool) (disk : Disk) (outside : E) (e : Raised)
      → checked_state actions empty fingerprint locked spec disk ≡ err e
      → run actions empty fingerprint locked spec disk outside ≡ (err e, disk, outside)
  run-err locked disk outside e h =
      run-as_checked locked disk outside
      ∙ ap
          (λ c.
            run_checked actions empty fingerprint (is_some (lookup spec.task_id disk.states)) spec c
              disk outside)
          h

  pub run-ok :
      (locked : Bool) (disk : Disk) (outside : E) (state : TaskState)
      → checked_state actions empty fingerprint locked spec disk ≡ ok state
      → run actions empty fingerprint locked spec disk outside
        ≡ report (
            run_loaded actions empty fingerprint
              (is_some (lookup spec.task_id disk.states))
              spec
              (fresh_session actions empty fingerprint state disk outside))
  run-ok locked disk outside state h =
      run-as_checked locked disk outside
      ∙ ap
          (λ c.
            run_checked actions empty fingerprint (is_some (lookup spec.task_id disk.states)) spec c
              disk outside)
          h

  -- A state that was saved before is resumed as it is.
  pub run-resumes :
      (locked : Bool) (disk : Disk) (outside : E) (state : TaskState)
      → checked_state actions empty fingerprint locked spec disk ≡ ok state
      → lookup spec.task_id disk.states ≡ some state
      → run actions empty fingerprint locked spec disk outside
        ≡ report (
            resume actions empty fingerprint
              (is_terminal state.status)
              (unresolved state.completed_steps state.attempts)
              spec
              (fresh_session actions empty fingerprint state disk outside))
  unfolding run_loaded
  run-resumes locked disk outside state h k =
      run-ok locked disk outside state h
      ∙ ap
          (λ o. report (
            run_loaded actions empty fingerprint (is_some o) spec
              (fresh_session actions empty fingerprint state disk outside)))
          k
