-- ===== src/Tasks/Runner/Armed.antt =====
-- While a step of agent_core/runner.py is attempted, the saved state shows it as attempted and not
-- completed; and the fuel of the attempt loop is enough.
use keirin_ai_web.Prelude.{
  sym, ap, ◌∙◌, ℕ, zero, suc, ◌+◌, ◌≤◌, ◌<◌, String, ◌≡◌, refl, Bool, true, false, Option, some,
  leb, contains, string_eq, arith,
}
use keirin_ai_web.Prelude.Dict.{lookup, lookup-insert_self}
use keirin_ai_web.Tasks.Model.{StepSpec, TaskSpec, running, PersistentError}
use keirin_ai_web.Tasks.Runner.Session.{
  ActionResult, Action, Session, attempts_of, begin_attempt, note_error,
}
use keirin_ai_web.Tasks.Runner.Attempts.{
  Attempted, result, stopped, escaped, out_of_fuel, ActionOutcome, got, blocked_by, erred,
  interrupted, after_error, after_action, attempt_loop,
}

module _ {E : Type 0} where
  -- The session runs a task of this id and fingerprint.
  pub record Running (task_id fp : String) (s : Session E) : Type 0 where
    pub status_running : s.state.status ≡ running
    pub same_fingerprint : s.state.spec_fingerprint ≡ some fp
    pub same_task : s.state.task_id ≡ task_id
    pub same_schema : s.state.schema_version ≡ "agent-task-state-v1"

  -- The state is saved, and shows the step as attempted and not completed.
  pub record Armed (task_id fp step_id : String) (s : Session E) : Type 0 where
    pub runs : Running task_id fp s
    pub saved : lookup s.state.task_id s.disk.states ≡ some s.state
    pub still_open : contains step_id s.state.completed_steps ≡ false
    pub count : ℕ
    pub counted : lookup step_id s.state.attempts ≡ some count
    pub positive : 0 < count

  pub begin_attempt-Armed :
      (task_id fp step_id : String) (s : Session E)
      → Running task_id fp s
      → contains step_id s.state.completed_steps ≡ false
      → Armed task_id fp step_id (begin_attempt step_id s)
  unfolding begin_attempt
  begin_attempt-Armed task_id fp step_id s h o = record {
    runs = record {
      status_running = h.status_running;
      same_fingerprint = h.same_fingerprint;
      same_task = h.same_task;
      same_schema = h.same_schema;
    };
    saved = lookup-insert_self s.state.task_id _ s.disk.states;
    still_open = o;
    count = attempts_of (lookup step_id s.state.attempts) + 1;
    counted = lookup-insert_self step_id _ s.state.attempts;
    positive = omega arith;
  }

  pub outside-Armed :
      (task_id fp step_id : String) (s : Session E) {outside' : E}
      → Armed task_id fp step_id s
      → Armed task_id fp step_id (record s { outside = outside' })
  outside-Armed task_id fp step_id s h = record {
    runs = record {
      status_running = h.runs.status_running;
      same_fingerprint = h.runs.same_fingerprint;
      same_task = h.runs.same_task;
      same_schema = h.runs.same_schema;
    };
    saved = h.saved;
    still_open = h.still_open;
    count = h.count;
    counted = h.counted;
    positive = h.positive;
  }

module _ {J E : Type 0} (task_id fp step_id : String) where
  -- The attempts end, and by a result or an interrupt the step is armed.
  abbrev pub AttemptedOk : Attempted J E → Type 0
  AttemptedOk (result r s) = Armed task_id fp step_id s
  AttemptedOk (stopped s) = Unit
  AttemptedOk (escaped e s) = Armed task_id fp step_id s
  AttemptedOk (out_of_fuel s) = ⊥

  after_error-Ok :
      (again : Session E → Attempted J E) (retry_safe exhausted : Bool) (e : PersistentError)
      (s : Session E)
      → (exhausted ≡ false → AttemptedOk (again s))
      → AttemptedOk (after_error again retry_safe exhausted step_id e s)
  unfolding after_error
  after_error-Ok again false exhausted e s k = tt
  after_error-Ok again true true e s k = tt
  after_error-Ok again true false e s k = k refl

counted_enough :
    (max fuel a : ℕ) (o : Option ℕ) → o ≡ some a → max ≤ a + fuel → max ≤ attempts_of o + fuel
counted_enough max fuel a o h m = grind arith

room_left :
    (fuel a max : ℕ)
    → max ≤ a + suc fuel
    → leb max (a + 1) ≡ false
    → (0 < fuel) × (max ≤ (a + 1) + fuel)
room_left fuel a max h k = ground arith

module _ {J E : Type 0} (task_id fp : String) (step : StepSpec J) where
  after_action-Ok :
      (again : Session E → Attempted J E) (o : ActionOutcome J) (s : Session E)
      → Armed task_id fp step.step_id s
      → ((e : PersistentError)
          → leb step.max_attempts (attempts_of (lookup step.step_id s.state.attempts)) ≡ false
          → AttemptedOk task_id fp step.step_id (again (note_error step.step_id e s)))
      → AttemptedOk task_id fp step.step_id (after_action again step o s)
  unfolding after_action
  after_action-Ok again (got r) s h k = h
  after_action-Ok again (blocked_by m) s h k = tt
  after_action-Ok again (erred e) s h k =
      after_error-Ok task_id fp step.step_id again step.retry_safe _ e _ (k e)
  after_action-Ok again interrupted s h k = h

module _ {J E : Type 0} (actions : String → Option (Action J E)) (empty : ActionResult J)
    (fingerprint : TaskSpec J → String) (task_id fp : String) where
  -- With fuel for the attempts that are left, the loop ends, and a result or an interrupt leaves the
  -- step armed.
  pub attempt_loop-Ok :
      (fuel : ℕ) (action : Action J E) (spec : TaskSpec J) (step : StepSpec J) (s : Session E)
      → Running task_id fp s
      → contains step.step_id s.state.completed_steps ≡ false
      → 0 < fuel
      → step.max_attempts ≤ attempts_of (lookup step.step_id s.state.attempts) + fuel
      → AttemptedOk task_id fp step.step_id
          (attempt_loop actions empty fingerprint fuel action spec step s)
  unfolding attempt_loop note_error begin_attempt
  attempt_loop-Ok zero action spec step s h o p m = absurd (omega arith)
  attempt_loop-Ok (suc fuel) action spec step s h o p m =
      after_action-Ok task_id fp step (attempt_loop actions empty fingerprint fuel action spec step)
        _ _
        (outside-Armed task_id fp step.step_id _
          (begin_attempt-Armed task_id fp step.step_id s h o))
        (λ e left.
          let (room, enough) =
            room_left fuel (attempts_of (lookup step.step_id s.state.attempts)) step.max_attempts m
              (ap (λ n. leb step.max_attempts (attempts_of n))
                  (sym (lookup-insert_self step.step_id _ s.state.attempts))
                ∙ left) in
          attempt_loop-Ok fuel action spec step _
            (record {
              status_running = h.status_running;
              same_fingerprint = h.same_fingerprint;
              same_task = h.same_task;
              same_schema = h.same_schema;
            })
            o room
            (counted_enough _ _ _ _ (lookup-insert_self step.step_id _ s.state.attempts) enough))
