-- ===== src/Tasks/Runner/Bounds.antt =====
-- The attempt loop of agent_core/runner.py ends, and counts no more attempts than a step has.
use keirin_ai_web.Prelude.{
  sym, ap, ℕ, zero, suc, ◌+◌, ◌≤◌, ◌<◌, String, ◌≡◌, refl, Bool, true, false, Option, leb,
  string_eq, arith,
}
use mathlib.Core.Path.{subst}
use keirin_ai_web.Prelude.Dict.{lookup, lookup-insert_self}
use keirin_ai_web.Tasks.Model.{StepSpec, TaskSpec, PersistentError}
use keirin_ai_web.Tasks.Runner.Session.{
  ActionResult, Action, Session, attempts_of, begin_attempt, note_error, block, fail_task,
}
use keirin_ai_web.Tasks.Runner.Attempts.{
  Attempted, result, stopped, escaped, out_of_fuel, ActionOutcome, got, blocked_by, erred,
  interrupted, after_error, after_action, attempt_loop,
}

-- The attempts of the step are at most so many.
abbrev Within : {E : Type 0} → String → ℕ → Session E → Type 0
Within step_id n s = attempts_of (lookup step_id s.state.attempts) ≤ n

module _ {J E : Type 0} (step_id : String) (n : ℕ) where
  -- The loop has ended, and has counted at most so many attempts of the step.
  abbrev pub EndsWithin : Attempted J E → Type 0
  EndsWithin (result r s) = Within step_id n s
  EndsWithin (stopped s) = Within step_id n s
  EndsWithin (escaped e s) = Within step_id n s
  EndsWithin (out_of_fuel s) = ⊥

  after_error-EndsWithin :
      (again : Session E → Attempted J E) (retry_safe exhausted : Bool) (e : PersistentError)
      (s : Session E)
      → Within step_id n s
      → (exhausted ≡ false → EndsWithin (again s))
      → EndsWithin (after_error again retry_safe exhausted step_id e s)
  unfolding after_error block fail_task
  after_error-EndsWithin again false exhausted e s h k = h
  after_error-EndsWithin again true true e s h k = h
  after_error-EndsWithin again true false e s h k = k refl

module _ {J E : Type 0} (n : ℕ) (step : StepSpec J) where
  after_action-EndsWithin :
      (again : Session E → Attempted J E) (o : ActionOutcome J) (s : Session E)
      → attempts_of (lookup step.step_id s.state.attempts) ≤ n
      → ((e : PersistentError)
          → leb step.max_attempts (attempts_of (lookup step.step_id s.state.attempts)) ≡ false
          → EndsWithin step.step_id n (again (note_error step.step_id e s)))
      → EndsWithin step.step_id n (after_action again step o s)
  unfolding after_action block note_error
  after_action-EndsWithin again (got r) s h k = h
  after_action-EndsWithin again (blocked_by m) s h k = h
  after_action-EndsWithin again (erred e) s h k =
      after_error-EndsWithin step.step_id n again step.retry_safe _ e _ h (k e)
  after_action-EndsWithin again interrupted s h k = h

begun :
    {E : Type 0} (step_id : String) (s : Session E)
    → attempts_of (lookup step_id (begin_attempt step_id s).state.attempts)
      ≡ attempts_of (lookup step_id s.state.attempts) + 1
unfolding begin_attempt
begun step_id s = ap attempts_of (lookup-insert_self step_id _ s.state.attempts)

more_room :
    (fuel a b max n : ℕ)
    → b ≡ a + 1
    → max ≤ a + suc fuel
    → leb max b ≡ false
    → max ≤ n
    → (0 < fuel) × (max ≤ b + fuel) × (b + 1 ≤ n)
more_room fuel a b max n e h k m = ground arith

module _ {J E : Type 0} (actions : String → Option (Action J E)) (empty : ActionResult J)
    (fingerprint : TaskSpec J → String) where
  -- With fuel for at least one attempt, and for those that are left of the step, the attempt loop ends, and counts
  -- at most `n` attempts of the step, for each `n` that is at least the step's number of attempts and more than
  -- the attempts counted before.
  pub attempt_loop-EndsWithin :
      (fuel n : ℕ) (action : Action J E) (spec : TaskSpec J) (step : StepSpec J) (s : Session E)
      → 0 < fuel
      → step.max_attempts ≤ attempts_of (lookup step.step_id s.state.attempts) + fuel
      → step.max_attempts ≤ n
      → attempts_of (lookup step.step_id s.state.attempts) + 1 ≤ n
      → EndsWithin step.step_id n (attempt_loop actions empty fingerprint fuel action spec step s)
  unfolding attempt_loop note_error
  attempt_loop-EndsWithin zero n action spec step s p m h k = absurd (omega arith)
  attempt_loop-EndsWithin (suc fuel) n action spec step s p m h k =
      after_action-EndsWithin n step (attempt_loop actions empty fingerprint fuel action spec step)
        _ _ (subst (λ c. c ≤ n) (sym (begun step.step_id s)) k)
        (λ e left.
          let (room, enough, within) =
            more_room fuel (attempts_of (lookup step.step_id s.state.attempts)) _ step.max_attempts
              n (begun step.step_id s) m left h in
          attempt_loop-EndsWithin fuel n action spec step _ room enough h within)
