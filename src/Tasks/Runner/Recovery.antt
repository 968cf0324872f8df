-- ===== src/Tasks/Runner/Recovery.antt =====
-- What an exception out of `run` of agent_core/runner.py leaves behind, and what the next run makes of it.
use mathlib.Core.Path.{subst}
use keirin_ai_web.Prelude.{
  sym, ap, ◌∙◌, String, ◌≡◌, ◌≢◌, ◌⊎◌, inl, inr, refl, Bool, true, false, Option, some, List, [],
  ◌∷◌, string_eq, arith, eq_iff,
}
use keirin_ai_web.Prelude.Dict.{lookup}
use keirin_ai_web.Outcome.{Raised, Result, ok, err}
use keirin_ai_web.Outcome.Pure.{Result-cases}
use keirin_ai_web.Tasks.Model.{
  TaskSpec, TaskState, is_terminal, blocked, interrupted_step_requires_reconciliation,
}
use keirin_ai_web.Tasks.Store.{Disk, check_loaded}
use keirin_ai_web.Tasks.Runner.Session.{
  ActionResult, Action, Session, Flow, next, done, crash, finish, start, block,
}
use keirin_ai_web.Tasks.Runner.Entry.{
  RunOutcome, report, resume, fresh_session, adopt, run_loaded, checked_state, run, unresolved,
  check_fingerprint, is_some,
}
use keirin_ai_web.Tasks.Runner.Armed.{Running, Armed}
use keirin_ai_web.Tasks.Runner.Flows.{FlowOk, Attemptable, run_steps-Ok}
use keirin_ai_web.Tasks.Runner.Checks.{
  Checked, checked_state-Checked, checked_state-ok, Checked-fields, Checked-fingerprint,
  unresolved-nonempty, validate_task-Attemptable, run-err, run-ok, run-resumes,
}

unchanged :
    {E : Type 0} {r e : Result RunOutcome} {disk disk' : Disk} {outside outside' : E}
    → ◌≡◌ {A = Result RunOutcome × Disk × E} (r, disk, outside) (e, disk', outside')
    → (disk' ≡ disk) × (outside' ≡ outside)
unchanged h = (ground arith, ground arith)

module _ {E : Type 0} (task_id fp : String) where
  finish-Ok : (x : Flow (Session E)) → FlowOk task_id fp x → FlowOk task_id fp (finish x)
  unfolding finish
  finish-Ok (next s) h = tt
  finish-Ok (done s) h = tt
  finish-Ok (crash e s) h = h

  start-Running :
      (s : Session E)
      → s.state.spec_fingerprint ≡ some fp
      → s.state.task_id ≡ task_id
      → s.state.schema_version ≡ "agent-task-state-v1"
      → Running task_id fp (start s)
  unfolding start
  start-Running s h i j = record {
    status_running = refl;
    same_fingerprint = h;
    same_task = i;
    same_schema = j;
  }

  -- An exception leaves a disk that shows an armed step.
  report-err :
      (x : Flow (Session E)) (e : Raised) (disk : Disk) (outside : E)
      → FlowOk task_id fp x
      → report x ≡ (err e, disk, outside)
      → (step_id : String) × (s : Session E) × Armed task_id fp step_id s × (s.disk ≡ disk)
  report-err (next s) e disk outside h k = ground arith
  report-err (done s) e disk outside h k = ground arith
  report-err (crash r s) e disk outside (step_id, h) k = (step_id, s, h, ground arith)

module _ {J E : Type 0} (actions : String → Option (Action J E)) (empty : ActionResult J)
    (fingerprint : TaskSpec J → String) (spec : TaskSpec J) where
  resume-Ok :
      (fp : String) (at_end : Bool) (open_steps : List String) (s : Session E)
      → Running spec.task_id fp (start s)
      → Attemptable spec.steps
      → FlowOk spec.task_id fp (resume actions empty fingerprint at_end open_steps spec s)
  unfolding resume
  resume-Ok fp true open_steps s h p = tt
  resume-Ok fp false [] s h p =
      finish-Ok spec.task_id fp _
        (run_steps-Ok actions empty fingerprint spec.task_id fp spec spec.steps (start s) h p)
  resume-Ok fp false (a ∷ l) s h p = tt

  adopted-Running :
      (fp : String) (existed : Bool) (s : Session E)
      → (existed ≡ true → s.state.spec_fingerprint ≡ some fp)
      → s.state.task_id ≡ spec.task_id
      → s.state.schema_version ≡ "agent-task-state-v1"
      → Running spec.task_id fp (start (adopt actions empty fingerprint existed fp s))
  adopted-Running fp true s h i j = start-Running spec.task_id fp s (h refl) i j
  adopted-Running fp false s h i j = start-Running spec.task_id fp _ refl i j

  run_loaded-Ok :
      (disk : Disk) (state : TaskState) (outside : E)
      → Checked actions empty fingerprint spec disk state
      → FlowOk spec.task_id (fingerprint spec) (
          run_loaded actions empty fingerprint
            (is_some (lookup spec.task_id disk.states))
            spec
            (fresh_session actions empty fingerprint state disk outside))
  unfolding run_loaded
  run_loaded-Ok disk state outside h =
      let (i, j) = Checked-fields actions empty fingerprint spec disk state h in
      resume-Ok (fingerprint spec) _ _ _
        (adopted-Running (fingerprint spec) (is_some (lookup spec.task_id disk.states)) _
          (Checked-fingerprint actions empty fingerprint spec disk state h) i j)
        (validate_task-Attemptable spec h.valid)

  -- At a disk that shows an armed step, a run calls no action and asks for a reconciliation.
  abbrev pub AsksForReconciliation : E → Disk → Type 0
  AsksForReconciliation outside disk =
      (o : RunOutcome) × (disk' : Disk) × (run actions empty fingerprint false spec disk outside
        ≡ (ok o, disk', outside))
      × (o.status ≡ blocked)
      × (o.executed_steps ≡ [])
      × ((l : List String) × (o.blocked_reason ≡ some (interrupted_step_requires_reconciliation l)))

  blocked_resume :
      (open_steps : List String) (s : Session E)
      → open_steps ≢ []
      → (o : RunOutcome) × (disk' : Disk) × (report
            (resume actions empty fingerprint false open_steps spec s)
          ≡ (ok o, disk', s.outside))
        × (o.status ≡ blocked)
        × (o.executed_steps ≡ s.executed)
        × ((l : List String) × (o.blocked_reason
              ≡ some (interrupted_step_requires_reconciliation l)))
  unfolding resume block
  blocked_resume [] s h = absurd (h refl)
  blocked_resume (a ∷ l) s h = (_, _, refl, refl, refl, (_, refl))

  Checked-saved :
      (step_id : String) (s : Session E) (disk : Disk) (state : TaskState)
      → Checked actions empty fingerprint spec disk state
      → Armed spec.task_id (fingerprint spec) step_id s
      → lookup spec.task_id s.disk.states ≡ some s.state
      → Checked actions empty fingerprint spec s.disk s.state
  unfolding check_loaded check_fingerprint
  Checked-saved step_id s disk state c h found = record {
    valid = c.valid;
    safe = c.safe;
    read = ground (
      arith,
      found,
      eq_iff s.state.schema_version "agent-task-state-v1",
      eq_iff s.state.task_id spec.task_id,
      h.runs.same_task,
      h.runs.same_schema,
    );
    known =
        ground
          (arith, found, h.runs.same_fingerprint, eq_iff (fingerprint spec) (fingerprint spec));
  }

  -- What an armed step makes of the next run.
  Armed-AsksForReconciliation :
      (step_id : String) (s : Session E) (disk : Disk) (state : TaskState)
      → Checked actions empty fingerprint spec disk state
      → Armed spec.task_id (fingerprint spec) step_id s
      → (outside : E) → AsksForReconciliation outside s.disk
  Armed-AsksForReconciliation step_id s disk state c h outside =
      let found = ap (λ i. lookup i s.disk.states) (sym h.runs.same_task) ∙ h.saved in
      let (o, d, r, b, x, l) =
        blocked_resume (unresolved s.state.completed_steps s.state.attempts)
          (fresh_session actions empty fingerprint s.state s.disk outside)
          (unresolved-nonempty step_id _ _ h.count h.still_open h.counted h.positive) in
      (
        o,
        d,
        run-resumes actions empty fingerprint spec false s.disk outside s.state
              (checked_state-ok actions empty fingerprint spec s.disk s.state
                (Checked-saved step_id s disk state c h found))
              found
            ∙ ap
                (λ t. report (
                  resume actions empty fingerprint (is_terminal t)
                    (unresolved s.state.completed_steps s.state.attempts) spec
                    (fresh_session actions empty fingerprint s.state s.disk outside)))
                h.runs.status_running
            ∙ r,
        b,
        x,
        l,
      )

  -- Where a run raises, either it has changed nothing, on the disk or outside, or a run of the same task
  -- from the disk it leaves that gets the lock, in any world outside, leaves that world as it is,
  -- executes no step and ends blocked, for the reason that interrupted steps have to be reconciled.
  pub raising_run_leaves_a_trace :
      (locked : Bool) (disk disk' : Disk) (outside outside' later : E) (e : Raised)
      → run actions empty fingerprint locked spec disk outside ≡ (err e, disk', outside')
      → ((disk' ≡ disk) × (outside' ≡ outside)) ⊎ AsksForReconciliation later disk'
  raising_run_leaves_a_trace locked disk disk' outside outside' later e h =
      elim (Result-cases (checked_state actions empty fingerprint locked spec disk)) [
        | inl (state, k) ↦
            let c = checked_state-Checked actions empty fingerprint spec locked disk state k in
            let (step_id, s, armed, at) =
              report-err spec.task_id (fingerprint spec) _ e disk' outside'
                (run_loaded-Ok disk state outside c)
                (sym (run-ok actions empty fingerprint spec locked disk outside state k) ∙ h) in
            inr (
              subst (AsksForReconciliation later) at
                (Armed-AsksForReconciliation step_id s disk state c armed later))
        | inr (r, k) ↦
            inl
              (unchanged (sym (run-err actions empty fingerprint spec locked disk outside r k) ∙ h))
      ]
