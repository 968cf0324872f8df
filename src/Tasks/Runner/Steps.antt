-- ===== src/Tasks/Runner/Steps.antt =====
-- The loop over the steps in `_run_locked` of agent_core/runner.py: verification, artifacts, completion.
use keirin_ai_web.Prelude.{
  String, Option, none, some, List, [], ◌∷◌, nat_eq, string_eq, contains, if◌then◌else◌,
}
use keirin_ai_web.Prelude.Dict.{Dict}
use keirin_ai_web.Outcome.{Result, ok, err, keyboard_interrupt, assertion_error}
use keirin_ai_web.Tasks.Model.{
  StepSpec, TaskSpec, ArtifactState, action_unavailable, verification_action_unavailable,
  verification_error_requires_reconciliation, verification_failed, safe_action_error,
  verification_exception_redacted, verify_name,
}
use keirin_ai_web.Tasks.Artifacts.{apply_artifact_updates}
use keirin_ai_web.Tasks.Store.{step_verified}
use keirin_ai_web.Tasks.Runner.Session.{
  ActionResult, Reply, Action, Session, Flow, and_then, verification_passed, save, log, block,
  complete_step, skip_step, returned, blocked_action, safe_error, other_exception, interrupt,
  to_verify, next, done, crash,
}
use keirin_ai_web.Tasks.Runner.Attempts.{
  Attempted, context_of, attempt_loop, result, stopped, escaped, out_of_fuel,
}

-- What the verifier's reply does; `BlockedAction` is an exception like others here.
unfoldable pub after_verifier :
    {J E : Type 0} → StepSpec J → String → Reply J → Session E → Flow (Session E)
unfolding verification_passed
after_verifier step name (returned v) s =
    if verification_passed v
    then next (complete_step step.step_id (log (some step.step_id) step_verified s))
    else done (block (verification_failed name) (some step.step_id) none s)
after_verifier step name (safe_error code) s = done (
    block verification_error_requires_reconciliation (some step.step_id)
      (some (safe_action_error code)) s)
after_verifier step name (blocked_action reason) s = done (
    block verification_error_requires_reconciliation (some step.step_id)
      (some verification_exception_redacted) s)
after_verifier step name other_exception s = done (
    block verification_error_requires_reconciliation (some step.step_id)
      (some verification_exception_redacted) s)
after_verifier step name interrupt s = crash (keyboard_interrupt "interrupted") s

-- The runner with its actions; `empty` is `ActionResult()`, and `fingerprint` the digest of a task.
module _ {J E : Type 0} (actions : String → Option (Action J E)) (empty : ActionResult J)
    (fingerprint : TaskSpec J → String) where
  unfoldable pub call_verifier :
      Option (Action J E)
      → TaskSpec J
      → StepSpec J
      → String
      → ActionResult J
      → Session E
      → Flow (Session E)
  unfolding after_verifier
  call_verifier none spec step name r s =
      done (block (verification_action_unavailable name) (some step.step_id) none s)
  call_verifier (some verifier) spec step name r s =
      let (reply, outside') =
        verifier (to_verify step.action step.args r)
          (context_of actions empty fingerprint spec step) s.outside in
      after_verifier step name reply (record s { outside = outside' })

  unfoldable pub verify_step :
      Option String → TaskSpec J → StepSpec J → ActionResult J → Session E → Flow (Session E)
  unfolding call_verifier
  verify_step none spec step r s = next (complete_step step.step_id s)
  verify_step (some name) spec step r s = call_verifier (actions name) spec step name r s

  -- The artifacts of the result are merged and saved before the verification.
  unfoldable pub keep_artifacts :
      Result (Dict String ArtifactState)
      → TaskSpec J
      → StepSpec J
      → ActionResult J
      → Session E
      → Flow (Session E)
  unfolding verify_step
  keep_artifacts (err e) spec step r s = crash e s
  keep_artifacts (ok artifacts) spec step r s =
      verify_step (verify_name step.verify_action) spec step r
        (save (record s { state = record s.state { artifacts = artifacts } }))

  unfoldable pub after_attempts : TaskSpec J → StepSpec J → Attempted J E → Flow (Session E)
  unfolding keep_artifacts
  after_attempts spec step (result r s) =
      keep_artifacts (apply_artifact_updates s.state.artifacts r.artifacts) spec step r s
  after_attempts spec step (stopped s) = done s
  after_attempts spec step (escaped e s) = crash e s
  after_attempts spec step (out_of_fuel s) = crash assertion_error s

  unfoldable pub perform :
      Option (Action J E) → TaskSpec J → StepSpec J → Session E → Flow (Session E)
  unfolding after_attempts attempt_loop
  perform none spec step s =
      done (block (action_unavailable step.action) (some step.step_id) none s)
  perform (some action) spec step s =
      after_attempts spec step
        (attempt_loop actions empty fingerprint step.max_attempts action spec step s)

  -- One turn of `for step in spec.steps`.
  unfoldable pub run_step : TaskSpec J → StepSpec J → Session E → Flow (Session E)
  unfolding perform
  run_step spec step s =
      if contains step.step_id s.state.completed_steps
      then next (skip_step step.step_id s)
      else perform (actions step.action) spec step s

  unfoldable pub run_steps : TaskSpec J → List (StepSpec J) → Session E → Flow (Session E)
  unfolding run_step
  run_steps spec [] s = next s
  run_steps spec (step ∷ l) s = and_then (run_step spec step s) (run_steps spec l)
