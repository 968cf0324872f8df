-- ===== src/Tasks/Runner/Completion.antt =====
-- The loop over the steps in agent_core/runner.py goes on past a step only once it is completed, and where
-- it stops, the task is blocked or failed.
use keirin_ai_web.Prelude.{
  String, ◌≡◌, ◌⊎◌, inl, inr, refl, Bool, true, false, Option, none, some, List, [], ◌∷◌, ◌++◌, ℕ,
  zero, suc, string_eq, arith, eq_iff, contains, contains-append_last, if◌then◌else◌, nat_eq,
}
use keirin_ai_web.Prelude.Dict.{Dict}
use keirin_ai_web.Outcome.{Result, ok, err}
use keirin_ai_web.Tasks.Model.{
  StepSpec, TaskSpec, ArtifactState, blocked, failed, PersistentError, verify_name,
}
use keirin_ai_web.Tasks.Artifacts.{apply_artifact_updates}
use keirin_ai_web.Tasks.Runner.Session.{
  ActionResult, Action, Reply, Session, Flow, next, done, crash, and_then, block, begin_attempt,
  note_error, fail_task, complete_step, skip_step, returned, blocked_action, safe_error,
  other_exception, interrupt, verification_passed,
}
use keirin_ai_web.Tasks.Runner.Attempts.{
  Attempted, result, stopped, escaped, out_of_fuel, ActionOutcome, got, blocked_by, erred,
  interrupted, after_error, after_action, attempt_loop,
}
use keirin_ai_web.Tasks.Runner.Steps.{
  after_verifier, call_verifier, verify_step, keep_artifacts, after_attempts, perform, run_step,
  run_steps,
}

contains-append_left :
    (a : String) (l r : List String) → contains a l ≡ true → contains a (l ++ r) ≡ true
contains-append_left a [] r h = ground arith
contains-append_left a (b ∷ l) r h = ground (arith, contains-append_left a l r)

contains-only :
    (a b : String) (l : List String) → contains a (b ∷ []) ≡ true → contains a (l ++ b ∷ []) ≡ true
contains-only a b l h = grind (arith, contains-append_last a l, eq_iff a b)

-- The second list has what the first has.
abbrev pub Grows : List String → List String → Type 0
Grows c d = (a : String) → contains a c ≡ true → contains a d ≡ true

abbrev pub step_ids : {J : Type 0} → List (StepSpec J) → List String
step_ids [] = []
step_ids (step ∷ l) = step.step_id ∷ step_ids l

module _ {E : Type 0} where
  abbrev pub Halted : Session E → Type 0
  Halted s = (s.state.status ≡ blocked) ⊎ (s.state.status ≡ failed)

  -- The part of a run completes the steps of a list, or leaves the task blocked or failed.
  abbrev pub Completes : List String → List String → Flow (Session E) → Type 0
  Completes c l (next s) = Grows c s.state.completed_steps × Grows l s.state.completed_steps
  Completes c l (done s) = Halted s
  Completes c l (crash e s) = Unit

  block-Halted :
      (reason : _) (step_id : Option String) (error : Option PersistentError) (s : Session E)
      → Halted (block reason step_id error s)
  unfolding block
  block-Halted reason step_id error s = inl refl

  complete_step-Completes :
      (step_id : String) (s : Session E)
      → Completes s.state.completed_steps (step_id ∷ []) (next (complete_step step_id s))
  unfolding complete_step
  complete_step-Completes step_id s = (
    (λ a h. contains-append_left a s.state.completed_steps (step_id ∷ []) h),
    (λ a h. contains-only a step_id s.state.completed_steps h),
  )

  if-Completes :
      (c l : List String) (b : Bool) (x y : Flow (Session E))
      → (b ≡ true → Completes c l x)
      → Completes c l y
      → Completes c l (if b then x else y)
  if-Completes c l true x y h k = h refl
  if-Completes c l false x y h k = k

  -- Steps that grow from the same list do what they did from it.
  from-Completes :
      (c d l : List String) (x : Flow (Session E)) → d ≡ c → Completes d l x → Completes c l x
  from-Completes c d l (next s) h (k, m) = (λ a i. k a (grind arith), m)
  from-Completes c d l (done s) h k = k
  from-Completes c d l (crash e s) h k = tt

  after_step :
      (c : List String) (a : String) (l : List String) (s : Session E) (x : Flow (Session E))
      → Grows c s.state.completed_steps
      → Grows (a ∷ []) s.state.completed_steps
      → Completes s.state.completed_steps l x
      → Completes c (a ∷ l) x
  after_step c a l s (next s') h i (j, k) =
      (λ b m. j b (h b m), λ b m. ground (arith, j b, k b, i b))
  after_step c a l s (done s') h i j = j
  after_step c a l s (crash e s') h i j = tt

  and_then-Completes :
      (c : List String) (a : String) (l : List String) (x : Flow (Session E))
      (f : Session E → Flow (Session E))
      → Completes c (a ∷ []) x
      → ((s : Session E) → Completes s.state.completed_steps l (f s))
      → Completes c (a ∷ l) (and_then x f)
  and_then-Completes c a l (next s) f (h, i) k = after_step c a l s (f s) h i (k s)
  and_then-Completes c a l (done s) f h k = h
  and_then-Completes c a l (crash e s) f h k = tt

module _ {J E : Type 0} where
  -- The attempts keep the list of the completed steps, or leave the task blocked or failed.
  abbrev Keeps : List String → Attempted J E → Type 0
  Keeps c (result r s) = s.state.completed_steps ≡ c
  Keeps c (stopped s) = Halted s
  Keeps c (escaped e s) = Unit
  Keeps c (out_of_fuel s) = Unit

  after_error-Keeps :
      (c : List String) (again : Session E → Attempted J E) (retry_safe exhausted : Bool)
      (step_id : String) (e : PersistentError) (s : Session E)
      → Keeps c (again s)
      → Keeps c (after_error again retry_safe exhausted step_id e s)
  unfolding after_error fail_task
  after_error-Keeps c again false exhausted step_id e s h = block-Halted _ _ _ s
  after_error-Keeps c again true true step_id e s h = inr refl
  after_error-Keeps c again true false step_id e s h = h

  after_action-Keeps :
      (c : List String) (again : Session E → Attempted J E) (step : StepSpec J)
      (o : ActionOutcome J) (s : Session E)
      → s.state.completed_steps ≡ c
      → ((e : PersistentError) → Keeps c (again (note_error step.step_id e s)))
      → Keeps c (after_action again step o s)
  unfolding after_action
  after_action-Keeps c again step (got r) s h k = h
  after_action-Keeps c again step (blocked_by m) s h k = block-Halted _ _ _ s
  after_action-Keeps c again step (erred e) s h k =
      after_error-Keeps c again step.retry_safe _ step.step_id e _ (k e)
  after_action-Keeps c again step interrupted s h k = tt

  after_verifier-Completes :
      (step : StepSpec J) (name : String) (reply : Reply J) (s : Session E)
      → Completes s.state.completed_steps (step.step_id ∷ []) (after_verifier step name reply s)
  unfolding after_verifier
  after_verifier-Completes step name (returned v) s =
      if-Completes s.state.completed_steps (step.step_id ∷ []) (verification_passed v) _ _
        (λ p. complete_step-Completes step.step_id _) (block-Halted _ _ _ s)
  after_verifier-Completes step name (safe_error code) s = block-Halted _ _ _ s
  after_verifier-Completes step name (blocked_action reason) s = block-Halted _ _ _ s
  after_verifier-Completes step name other_exception s = block-Halted _ _ _ s
  after_verifier-Completes step name interrupt s = tt

module _ {J E : Type 0} (actions : String → Option (Action J E)) (empty : ActionResult J)
    (fingerprint : TaskSpec J → String) (spec : TaskSpec J) where
  attempt_loop-Keeps :
      (fuel : ℕ) (action : Action J E) (step : StepSpec J) (s : Session E) (c : List String)
      → s.state.completed_steps ≡ c
      → Keeps c (attempt_loop actions empty fingerprint fuel action spec step s)
  unfolding attempt_loop begin_attempt note_error
  attempt_loop-Keeps zero action step s c h = tt
  attempt_loop-Keeps (suc fuel) action step s c h =
      after_action-Keeps c (attempt_loop actions empty fingerprint fuel action spec step) step _ _ h
        (λ e. attempt_loop-Keeps fuel action step _ c h)

  call_verifier-Completes :
      (v : Option (Action J E)) (step : StepSpec J) (name : String) (r : ActionResult J)
      (s : Session E)
      → Completes s.state.completed_steps
          (step.step_id ∷ [])
          (call_verifier actions empty fingerprint v spec step name r s)
  unfolding call_verifier
  call_verifier-Completes none step name r s = block-Halted _ _ _ s
  call_verifier-Completes (some verifier) step name r s = after_verifier-Completes step name _ _

  verify_step-Completes :
      (name : Option String) (step : StepSpec J) (r : ActionResult J) (s : Session E)
      → Completes s.state.completed_steps
          (step.step_id ∷ [])
          (verify_step actions empty fingerprint name spec step r s)
  unfolding verify_step
  verify_step-Completes none step r s = complete_step-Completes step.step_id s
  verify_step-Completes (some name) step r s = call_verifier-Completes (actions name) step name r s

  keep_artifacts-Completes :
      (a : Result (Dict String ArtifactState)) (step : StepSpec J) (r : ActionResult J)
      (s : Session E)
      → Completes s.state.completed_steps
          (step.step_id ∷ [])
          (keep_artifacts actions empty fingerprint a spec step r s)
  unfolding keep_artifacts
  keep_artifacts-Completes (err e) step r s = tt
  keep_artifacts-Completes (ok artifacts) step r s =
      verify_step-Completes (verify_name step.verify_action) step r _

  after_attempts-Completes :
      (c : List String) (step : StepSpec J) (a : Attempted J E)
      → Keeps c a
      → Completes c (step.step_id ∷ []) (after_attempts actions empty fingerprint spec step a)
  unfolding after_attempts
  after_attempts-Completes c step (result r s) h =
      from-Completes c s.state.completed_steps (step.step_id ∷ []) _ h
        (keep_artifacts-Completes (apply_artifact_updates s.state.artifacts r.artifacts) step r s)
  after_attempts-Completes c step (stopped s) h = h
  after_attempts-Completes c step (escaped e s) h = tt
  after_attempts-Completes c step (out_of_fuel s) h = tt

  perform-Completes :
      (a : Option (Action J E)) (step : StepSpec J) (s : Session E)
      → Completes s.state.completed_steps
          (step.step_id ∷ [])
          (perform actions empty fingerprint a spec step s)
  unfolding perform
  perform-Completes none step s = block-Halted _ _ _ s
  perform-Completes (some action) step s =
      after_attempts-Completes s.state.completed_steps step _
        (attempt_loop-Keeps step.max_attempts action step s s.state.completed_steps refl)

  skip_step-Completes :
      (step_id : String) (s : Session E)
      → contains step_id s.state.completed_steps ≡ true
      → Completes s.state.completed_steps (step_id ∷ []) (next (skip_step step_id s))
  unfolding skip_step
  skip_step-Completes step_id s h = (λ a i. i, λ a i. grind (arith, eq_iff a step_id))

  run_step-Completes :
      (step : StepSpec J) (s : Session E)
      → Completes s.state.completed_steps
          (step.step_id ∷ [])
          (run_step actions empty fingerprint spec step s)
  unfolding run_step
  run_step-Completes step s =
      if-Completes s.state.completed_steps (step.step_id ∷ [])
        (contains step.step_id s.state.completed_steps) _ _
        (λ h. skip_step-Completes step.step_id s h) (perform-Completes (actions step.action) step s)

  pub run_steps-Completes :
      (l : List (StepSpec J)) (s : Session E)
      → Completes s.state.completed_steps
          (step_ids l)
          (run_steps actions empty fingerprint spec l s)
  unfolding run_steps
  run_steps-Completes [] s = (λ a i. i, λ a i. ground arith)
  run_steps-Completes (step ∷ l) s =
      and_then-Completes s.state.completed_steps step.step_id (step_ids l) _ _
        (run_step-Completes step s) (λ s'. run_steps-Completes l s')
