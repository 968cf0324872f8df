-- ===== src/Tasks/Runner/Outcomes.antt =====
-- What the outcomes of `run` of agent_core/runner.py mean: completed tasks, tasks at their end, and tasks
-- that have changed.
use mathlib.Core.Path.{subst}
use keirin_ai_web.Prelude.{
  contains, sym, ap, ◌∙◌, String, ◌≡◌, ◌≢◌, ◌⊎◌, inl, inr, refl, Bool, true, false, Option, none,
  some, List, [], ◌∷◌, string_eq, arith,
}
use keirin_ai_web.Prelude.Dict.{lookup}
use keirin_ai_web.Outcome.{Raised, Result, ok, err}
use keirin_ai_web.Tasks.Model.{
  TaskSpec, TaskState, TaskStatus, is_terminal, blocked, completed, failed,
}
use keirin_ai_web.Tasks.Store.{Disk, check_loaded}
use keirin_ai_web.Tasks.Runner.Session.{
  ActionResult, Action, Session, Flow, next, done, crash, finish, start, block,
}
use keirin_ai_web.Tasks.Runner.Entry.{
  RunOutcome, report, resume, fresh_session, adopt, run_loaded, checked_state, run, unresolved,
  is_some,
}
use keirin_ai_web.Tasks.Runner.Checks.{
  checked_state-Checked, Checked-fingerprint, run-err, run-ok, run-resumes,
}
use keirin_ai_web.Outcome.Pure.{Result-cases}
use keirin_ai_web.Tasks.Runner.Completion.{Grows, step_ids, Completes, run_steps-Completes}

reported :
    {E : Type 0} {a o : RunOutcome} {disk disk' : Disk} {outside outside' : E}
    → ◌≡◌ {A = Result RunOutcome × Disk × E} (ok a, disk, outside) (ok o, disk', outside')
    → a ≡ o
reported h = ground arith

raised_not_reported :
    {E : Type 0} {e : Raised} {o : RunOutcome} {disk disk' : Disk} {outside outside' : E}
    → ◌≡◌ {A = Result RunOutcome × Disk × E} (err e, disk, outside) (ok o, disk', outside')
    → ⊥
raised_not_reported h = ground arith

unchanged_states :
    {E : Type 0} {r q : Result RunOutcome} {disk disk' : Disk} {outside outside' : E}
    → ◌≡◌ {A = Result RunOutcome × Disk × E} (r, disk, outside) (q, disk', outside')
    → (outside' ≡ outside) × (disk'.states ≡ disk.states)
unchanged_states h = (ground arith, ground arith)

halted_not_completed : (t u : TaskStatus) → (t ≡ blocked) ⊎ (t ≡ failed) → t ≡ u → u ≡ completed → ⊥
halted_not_completed t u h p q = ground arith

module _ {E : Type 0} where
  -- What the report of a part of a run says when it says completed.
  finished_report :
      (c l : List String) (x : Flow (Session E)) (o : RunOutcome) (disk : Disk) (outside : E)
      → Completes c l x
      → report (finish x) ≡ (ok o, disk, outside)
      → o.status ≡ completed
      → Grows l o.completed_steps
  unfolding finish
  finished_report c l (next s) o disk outside (h, k) p q =
      λ a i. subst (λ r. contains a r.completed_steps ≡ true) (reported p) (k a i)
  finished_report c l (done s) o disk outside h p q =
      absurd (halted_not_completed s.state.status o.status h (ap (λ r. r.status) (reported p)) q)
  finished_report c l (crash e s) o disk outside h p q = ground arith

check_loaded-found :
    (task_id : String) (o : Option TaskState) (state : TaskState)
    → check_loaded task_id o ≡ ok state
    → is_terminal state.status ≡ true
    → o ≡ some state
unfolding check_loaded
check_loaded-found task_id none state h k = ground arith
check_loaded-found task_id (some st) state h k = ground arith

check_loaded-same :
    (task_id : String) (o : Option TaskState) (state read_state : TaskState)
    → check_loaded task_id o ≡ ok read_state
    → o ≡ some state
    → read_state ≡ state
unfolding check_loaded
check_loaded-same task_id none state read_state h k = ground arith
check_loaded-same task_id (some st) state read_state h k = ground arith

module _ {J E : Type 0} (actions : String → Option (Action J E)) (empty : ActionResult J)
    (fingerprint : TaskSpec J → String) (spec : TaskSpec J) where
  resume-completed :
      (at_end : Bool) (open_steps : List String) (s : Session E) (o : RunOutcome) (disk : Disk)
      (outside : E)
      → report (resume actions empty fingerprint at_end open_steps spec s) ≡ (ok o, disk, outside)
      → o.status ≡ completed
      → (s.state.status ≡ completed) ⊎ Grows (step_ids spec.steps) o.completed_steps
  unfolding resume block
  resume-completed true open_steps s o disk outside h k = inl (ap (λ r. r.status) (reported h) ∙ k)
  resume-completed false [] s o disk outside h k = inr (
      finished_report _ _ _ o disk outside
        (run_steps-Completes actions empty fingerprint spec spec.steps (start s)) h k)
  resume-completed false (a ∷ l) s o disk outside h k =
      absurd (halted_not_completed blocked o.status (inl refl) (ap (λ r. r.status) (reported h)) k)

  same_status :
      (existed : Bool) (fp : String) (s : Session E)
      → (adopt actions empty fingerprint existed fp s).state.status ≡ s.state.status
  same_status true fp s = refl
  same_status false fp s = refl

  -- Where a run returns an outcome that says completed, every step of the task is among the completed
  -- steps that it lists, or the task was saved as completed before the run.
  pub completed_run_has_every_step :
      (locked : Bool) (disk disk' : Disk) (outside outside' : E) (o : RunOutcome)
      → run actions empty fingerprint locked spec disk outside ≡ (ok o, disk', outside')
      → o.status ≡ completed
      → ((state : TaskState) × (lookup spec.task_id disk.states ≡ some state)
          × (state.status ≡ completed))
        ⊎ Grows (step_ids spec.steps) o.completed_steps
  unfolding run_loaded
  completed_run_has_every_step locked disk disk' outside outside' o h k =
      elim (Result-cases (checked_state actions empty fingerprint locked spec disk)) [
        | inl (state, r) ↦
            elim (resume-completed _ _ _ o disk' outside'
              (sym (run-ok actions empty fingerprint spec locked disk outside state r) ∙ h) k) [
                | inl p ↦
                    let done_before =
                      sym (
                        same_status (is_some (lookup spec.task_id disk.states)) (fingerprint spec)
                          (fresh_session actions empty fingerprint state disk outside))
                      ∙ p in
                    inl (
                      state,
                      check_loaded-found spec.task_id _ state
                          ((checked_state-Checked actions empty fingerprint spec locked disk state
                            r).read)
                          (ap is_terminal done_before),
                      done_before,
                    )
                | inr p ↦ inr p
              ]
        | inr (e, r) ↦ absurd (
            raised_not_reported
              (sym (run-err actions empty fingerprint spec locked disk outside e r) ∙ h))
      ]

  -- A run of a task that is saved as completed, blocked or failed leaves the world outside and the saved
  -- states as they are, whatever it returns.
  pub ended_run_is_idle :
      (locked : Bool) (disk disk' : Disk) (outside outside' : E) (state : TaskState)
      (r : Result RunOutcome)
      → lookup spec.task_id disk.states ≡ some state
      → is_terminal state.status ≡ true
      → run actions empty fingerprint locked spec disk outside ≡ (r, disk', outside')
      → (outside' ≡ outside) × (disk'.states ≡ disk.states)
  unfolding resume
  ended_run_is_idle locked disk disk' outside outside' state r found at_end h =
      elim (Result-cases (checked_state actions empty fingerprint locked spec disk)) [
        | inl (read_state, q) ↦
            let same =
              check_loaded-same spec.task_id _ state read_state
                ((checked_state-Checked actions empty fingerprint spec locked disk read_state
                  q).read)
                found in
            unchanged_states (
              sym (
                run-resumes actions empty fingerprint spec locked disk outside read_state q
                  (found ∙ ap some (sym same))
                ∙ ap
                    (λ b. report (
                      resume actions empty fingerprint b
                        (unresolved read_state.completed_steps read_state.attempts) spec
                        (fresh_session actions empty fingerprint read_state disk outside)))
                    (ap (λ s. is_terminal s.status) same ∙ at_end))
              ∙ h)
        | inr (e, q) ↦
            unchanged_states
              (sym (run-err actions empty fingerprint spec locked disk outside e q) ∙ h)
      ]

  -- A run of a task whose saved state carries no fingerprint, or the fingerprint of another task, raises,
  -- and changes neither the disk nor the world outside.
  pub changed_task_is_refused :
      (locked : Bool) (disk : Disk) (outside : E) (state : TaskState)
      → lookup spec.task_id disk.states ≡ some state
      → state.spec_fingerprint ≢ some (fingerprint spec)
      → (e : Raised) × (run actions empty fingerprint locked spec disk outside
          ≡ (err e, disk, outside))
  changed_task_is_refused locked disk outside state found other =
      elim (Result-cases (checked_state actions empty fingerprint locked spec disk)) [
        | inl (read_state, q) ↦
            let c = checked_state-Checked actions empty fingerprint spec locked disk read_state q in
            absurd (
              other (
                ap (λ s. s.spec_fingerprint)
                  (sym (check_loaded-same spec.task_id _ state read_state c.read found))
                ∙ Checked-fingerprint actions empty fingerprint spec disk read_state c
                    (ap is_some found)))
        | inr (e, q) ↦ (e, run-err actions empty fingerprint spec locked disk outside e q)
      ]
