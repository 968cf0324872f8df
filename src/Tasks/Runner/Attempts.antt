-- ===== src/Tasks/Runner/Attempts.antt =====
-- The `while True` loop of `_run_locked` in agent_core/runner.py: the attempts at one step.
use keirin_ai_web.Prelude.{
  ℕ, zero, suc, String, Bool, true, false, Option, none, some, leb, nat_eq, string_eq,
}
use keirin_ai_web.Prelude.Dict.{lookup}
use keirin_ai_web.Outcome.{Raised, keyboard_interrupt}
use keirin_ai_web.Tasks.Model.{
  StepSpec, TaskSpec, action_blocked, action_error_requires_reconciliation, PersistentError,
  safe_action_error, action_exception_redacted,
}
use keirin_ai_web.Tasks.Runner.Session.{
  ActionResult, Reply, StepContext, Action, Session, normalise_action_result, attempts_of, block,
  begin_attempt, fail_task, note_error, returned, blocked_action, safe_error, other_exception,
  interrupt, plain,
}

-- How the attempts at a step end.
pub data Attempted (J E : Type 0) : Type 0 where
  result : ActionResult J → Session E → Attempted J E
  stopped : Session E → Attempted J E
  escaped : Raised → Session E → Attempted J E
  out_of_fuel : Session E → Attempted J E

-- What the handlers around the call of an action tell apart.
pub data ActionOutcome (J : Type 0) : Type 0 where
  got : ActionResult J → ActionOutcome J
  blocked_by : String → ActionOutcome J
  erred : PersistentError → ActionOutcome J
  interrupted : ActionOutcome J

unfoldable pub normalised : {J : Type 0} → Option (ActionResult J) → ActionOutcome J
normalised none = erred action_exception_redacted
normalised (some r) = got r

-- The `try` around the action, with `_persistent_error`.
unfoldable pub action_outcome : {J : Type 0} → ActionResult J → Reply J → ActionOutcome J
unfolding normalised normalise_action_result
action_outcome empty (returned v) = normalised (normalise_action_result empty v)
action_outcome empty (blocked_action reason) = blocked_by reason
action_outcome empty (safe_error code) = erred (safe_action_error code)
action_outcome empty other_exception = erred action_exception_redacted
action_outcome empty interrupt = interrupted

-- The two tests after an error: whether the step may be retried, and whether attempts are left.
unfoldable pub after_error :
    {J E : Type 0}
    → (Session E → Attempted J E)
    → (retry_safe exhausted : Bool) → String
    → PersistentError
    → Session E
    → Attempted J E
after_error again false exhausted step_id e s =
    stopped (block action_error_requires_reconciliation (some step_id) (some e) s)
after_error again true true step_id e s = stopped (fail_task step_id s)
after_error again true false step_id e s = again s

-- One turn of the `while` loop after the call, with the rest of the loop.
unfoldable pub after_action :
    {J E : Type 0}
    → (Session E → Attempted J E)
    → StepSpec J
    → ActionOutcome J
    → Session E
    → Attempted J E
unfolding after_error
after_action again step (got r) s = result r s
after_action again step (blocked_by reason) s =
    stopped (block (action_blocked reason) (some step.step_id) none s)
after_action again step (erred e) s =
    after_error again step.retry_safe
      (leb step.max_attempts (attempts_of (lookup step.step_id s.state.attempts))) step.step_id e
      (note_error step.step_id e s)
after_action again step interrupted s = escaped (keyboard_interrupt "interrupted") s

-- The runner with its actions; `empty` is `ActionResult()`, and `fingerprint` the digest of a task.
module _ {J E : Type 0} (actions : String → Option (Action J E)) (empty : ActionResult J)
    (fingerprint : TaskSpec J → String) where
  abbrev pub context_of : TaskSpec J → StepSpec J → StepContext J
  context_of spec step = record {
    task_id = spec.task_id;
    step_id = step.step_id;
    task_inputs = spec.inputs;
  }

  -- The `while True` loop, on fuel.
  unfoldable pub attempt_loop : ℕ → Action J E → TaskSpec J → StepSpec J → Session E → Attempted J E
  unfolding after_action action_outcome
  attempt_loop zero action spec step s = out_of_fuel s
  attempt_loop (suc fuel) action spec step s =
      let begun = begin_attempt step.step_id s in
      let (reply, outside') = action (plain step.args) (context_of spec step) begun.outside in
      after_action (attempt_loop fuel action spec step) step (action_outcome empty reply)
        (record begun { outside = outside' })
