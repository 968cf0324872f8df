-- ===== src/Tasks/Runner/Flows.antt =====
-- What the steps of agent_core/runner.py keep: the session runs its task, and an exception that leaves
-- the run leaves a step armed.
use keirin_ai_web.Prelude.{
  ◌<◌, String, ◌≡◌, refl, Bool, true, false, Option, none, some, List, [], ◌∷◌, if◌then◌else◌,
  contains, string_eq, nat_eq, arith,
}
use keirin_ai_web.Prelude.Dict.{Dict, lookup-insert_self}
use keirin_ai_web.Outcome.{Result, ok, err}
use keirin_ai_web.Tasks.Model.{StepSpec, TaskSpec, ArtifactState, verify_name}
use keirin_ai_web.Tasks.Artifacts.{apply_artifact_updates}
use keirin_ai_web.Tasks.Runner.Session.{
  ActionResult, Action, Reply, Session, Flow, next, done, crash, and_then, complete_step, skip_step,
  save, log, returned, blocked_action, safe_error, other_exception, interrupt, verification_passed,
}
use keirin_ai_web.Tasks.Runner.Attempts.{Attempted, result, stopped, escaped, out_of_fuel}
use keirin_ai_web.Tasks.Runner.Steps.{
  after_verifier, call_verifier, verify_step, keep_artifacts, after_attempts, perform, run_step,
  run_steps,
}
use keirin_ai_web.Tasks.Runner.Armed.{Running, Armed, AttemptedOk, outside-Armed, attempt_loop-Ok}

module _ {E : Type 0} (task_id fp : String) where
  -- The task runs on, is over, or an exception leaves it with an armed step.
  abbrev pub FlowOk : Flow (Session E) → Type 0
  FlowOk (next s) = Running task_id fp s
  FlowOk (done s) = Unit
  FlowOk (crash e s) = (step_id : String) × Armed task_id fp step_id s

  pub complete_step-Running :
      (step_id : String) (s : Session E)
      → Running task_id fp s
      → Running task_id fp (complete_step step_id s)
  unfolding complete_step
  complete_step-Running step_id s h = record {
    status_running = h.status_running;
    same_fingerprint = h.same_fingerprint;
    same_task = h.same_task;
    same_schema = h.same_schema;
  }

  pub skip_step-Running :
      (step_id : String) (s : Session E)
      → Running task_id fp s
      → Running task_id fp (skip_step step_id s)
  unfolding skip_step
  skip_step-Running step_id s h = record {
    status_running = h.status_running;
    same_fingerprint = h.same_fingerprint;
    same_task = h.same_task;
    same_schema = h.same_schema;
  }

  logged-Running :
      {o : _} {e : _} (s : Session E) → Running task_id fp s → Running task_id fp (log o e s)
  logged-Running s h = record {
    status_running = h.status_running;
    same_fingerprint = h.same_fingerprint;
    same_task = h.same_task;
    same_schema = h.same_schema;
  }

  kept-Armed :
      (step_id : String) (s : Session E) (artifacts : Dict String ArtifactState)
      → Armed task_id fp step_id s
      → Armed task_id fp step_id
          (save (record s { state = record s.state { artifacts = artifacts } }))
  kept-Armed step_id s artifacts h = record {
    runs = record {
      status_running = h.runs.status_running;
      same_fingerprint = h.runs.same_fingerprint;
      same_task = h.runs.same_task;
      same_schema = h.runs.same_schema;
    };
    saved = lookup-insert_self s.state.task_id _ s.disk.states;
    still_open = h.still_open;
    count = h.count;
    counted = h.counted;
    positive = h.positive;
  }

  if-FlowOk :
      (b : Bool) (x y : Flow (Session E))
      → (b ≡ true → FlowOk x)
      → (b ≡ false → FlowOk y)
      → FlowOk (if b then x else y)
  if-FlowOk true x y h k = h refl
  if-FlowOk false x y h k = k refl

  and_then-Ok :
      (x : Flow (Session E)) (f : Session E → Flow (Session E))
      → FlowOk x
      → ((s : Session E) → Running task_id fp s → FlowOk (f s))
      → FlowOk (and_then x f)
  and_then-Ok (next s) f h k = k s h
  and_then-Ok (done s) f h k = tt
  and_then-Ok (crash e s) f h k = h

module _ {J E : Type 0} (task_id fp : String) (step : StepSpec J) where
  pub after_verifier-Ok :
      (name : String) (reply : Reply J) (s : Session E)
      → Armed task_id fp step.step_id s
      → FlowOk task_id fp (after_verifier step name reply s)
  unfolding after_verifier
  after_verifier-Ok name (returned v) s h =
      if-FlowOk task_id fp (verification_passed v) _ _
        (λ p. complete_step-Running task_id fp step.step_id _ (logged-Running task_id fp s h.runs))
        (λ p. tt)
  after_verifier-Ok name (safe_error code) s h = tt
  after_verifier-Ok name (blocked_action reason) s h = tt
  after_verifier-Ok name other_exception s h = tt
  after_verifier-Ok name interrupt s h = (step.step_id, h)

-- Each step allows an attempt.
abbrev pub Attemptable : {J : Type 0} → List (StepSpec J) → Type 0
Attemptable [] = Unit
Attemptable (step ∷ l) = (0 < step.max_attempts) × Attemptable l

module _ {J E : Type 0} (actions : String → Option (Action J E)) (empty : ActionResult J)
    (fingerprint : TaskSpec J → String) (task_id fp : String) (spec : TaskSpec J) where
  call_verifier-Ok :
      (v : Option (Action J E)) (step : StepSpec J) (name : String) (r : ActionResult J)
      (s : Session E)
      → Armed task_id fp step.step_id s
      → FlowOk task_id fp (call_verifier actions empty fingerprint v spec step name r s)
  unfolding call_verifier
  call_verifier-Ok none step name r s h = tt
  call_verifier-Ok (some verifier) step name r s h =
      after_verifier-Ok task_id fp step name _ _ (outside-Armed task_id fp step.step_id s h)

  verify_step-Ok :
      (name : Option String) (step : StepSpec J) (r : ActionResult J) (s : Session E)
      → Armed task_id fp step.step_id s
      → FlowOk task_id fp (verify_step actions empty fingerprint name spec step r s)
  unfolding verify_step
  verify_step-Ok none step r s h = complete_step-Running task_id fp step.step_id s h.runs
  verify_step-Ok (some name) step r s h = call_verifier-Ok (actions name) step name r s h

  keep_artifacts-Ok :
      (a : Result (Dict String ArtifactState)) (step : StepSpec J) (r : ActionResult J)
      (s : Session E)
      → Armed task_id fp step.step_id s
      → FlowOk task_id fp (keep_artifacts actions empty fingerprint a spec step r s)
  unfolding keep_artifacts
  keep_artifacts-Ok (err e) step r s h = (step.step_id, h)
  keep_artifacts-Ok (ok artifacts) step r s h =
      verify_step-Ok (verify_name step.verify_action) step r _
        (kept-Armed task_id fp step.step_id s artifacts h)

  after_attempts-Ok :
      (step : StepSpec J) (a : Attempted J E)
      → AttemptedOk task_id fp step.step_id a
      → FlowOk task_id fp (after_attempts actions empty fingerprint spec step a)
  unfolding after_attempts
  after_attempts-Ok step (result r s) h =
      keep_artifacts-Ok (apply_artifact_updates s.state.artifacts r.artifacts) step r s h
  after_attempts-Ok step (stopped s) h = tt
  after_attempts-Ok step (escaped e s) h = (step.step_id, h)
  after_attempts-Ok step (out_of_fuel s) h = absurd h

  perform-Ok :
      (a : Option (Action J E)) (step : StepSpec J) (s : Session E)
      → Running task_id fp s
      → contains step.step_id s.state.completed_steps ≡ false
      → 0 < step.max_attempts
      → FlowOk task_id fp (perform actions empty fingerprint a spec step s)
  unfolding perform
  perform-Ok none step s h o p = tt
  perform-Ok (some action) step s h o p = after_attempts-Ok step _ (
      attempt_loop-Ok actions empty fingerprint task_id fp step.max_attempts action spec step s h o
        p (omega arith))

  run_step-Ok :
      (step : StepSpec J) (s : Session E)
      → Running task_id fp s
      → 0 < step.max_attempts
      → FlowOk task_id fp (run_step actions empty fingerprint spec step s)
  unfolding run_step
  run_step-Ok step s h p =
      if-FlowOk task_id fp (contains step.step_id s.state.completed_steps) _ _
        (λ e. skip_step-Running task_id fp step.step_id s h)
        (λ e. perform-Ok (actions step.action) step s h e p)

  pub run_steps-Ok :
      (l : List (StepSpec J)) (s : Session E)
      → Running task_id fp s
      → Attemptable l
      → FlowOk task_id fp (run_steps actions empty fingerprint spec l s)
  unfolding run_steps
  run_steps-Ok [] s h p = h
  run_steps-Ok (step ∷ l) s h (p, q) =
      and_then-Ok task_id fp (run_step actions empty fingerprint spec step s) _
        (run_step-Ok step s h p) (λ s' h'. run_steps-Ok l s' h' q)
