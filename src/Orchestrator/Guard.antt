-- ===== src/Orchestrator/Guard.antt =====
-- What the orchestrator of agent_core/orchestrator.py lets the runner run.
use keirin_ai_web.Prelude.{
  String, ◌≡◌, ◌⊎◌, refl, sym, ◌∙◌, inl, inr, Bool, true, not, Option, none, some, List, [], ◌==◌,
  string_eq, list_eq, list_beq_iff, contains, Each, arith, eq_iff, ◌∷◌,
}
use keirin_ai_web.Prelude.Dict.{lookup}
use keirin_ai_web.Outcome.{Raised, ok, err}
use keirin_ai_web.Outcome.Pure.{
  Ensures, bind-Ensures, must, Result-cases, bind-ok, ensured, raise_if,
}
use keirin_ai_web.Tools.Registry.{ToolRegistry, keys}
use keirin_ai_web.Tasks.Model.{TaskSpec, validate_task}
use keirin_ai_web.Tasks.Store.{Disk}
use keirin_ai_web.Tasks.Runner.Session.{Action, ActionResult}
use keirin_ai_web.Tasks.Runner.Entry.{run}
use keirin_ai_web.Hosted.Worker.{missing_of}
use keirin_ai_web.Hosted.Found.{IsAllowed, used-registered, used-IsAllowed}
use keirin_ai_web.Tasks.Uses.{used_names}
use keirin_ai_web.Orchestrator.Report.{
  PreflightReport, describe, forbidden_for, report_of, check_report, check_task_report,
  run_checked_task, orchestrated_run,
}

contains-Each :
    {P : String → Type 0} (l : List String) → ((a : String) → contains a l ≡ true → P a) → Each P l
contains-Each [] h = tt
contains-Each (a ∷ l) h =
    (h a (ground (arith, eq_iff a a)), contains-Each l (λ b p. h b (ground (arith, p))))

module _ {Action : Type 0} (registry : ToolRegistry Action) where
  -- The action is registered, and with an access that is allowed where accesses are listed.
  abbrev pub IsUsable : Option (List String) → String → Type 0
  IsUsable none a = contains a (keys registry.actions) ≡ true
  IsUsable (some allowed) a = IsAllowed registry allowed a

  used-IsUsable :
      (allowed : Option (List String)) (used : List String)
      → missing_of registry used ≡ []
      → forbidden_for registry allowed used ≡ []
      → Each (IsUsable allowed) used
  used-IsUsable none used p q = contains-Each used (λ a h. used-registered registry [] used a p h)
  used-IsUsable (some allowed) used p q =
      contains-Each used (λ a h. used-IsAllowed registry allowed used a p q h)

  check_report-clear :
      (report : PreflightReport) (u : Unit {0})
      → check_report report ≡ ok u
      → (report.missing_actions ≡ []) × (report.forbidden_actions ≡ [])
  unfolding check_report
  check_report-clear report u h =
      let (v, p, q) = bind-ok (raise_if (not (report.missing_actions == [])) _) _ u h in
      (
        (list_beq_iff report.missing_actions []).0 (must _ _ v p),
        (list_beq_iff report.forbidden_actions []).0 (must _ _ u q),
      )

  abbrev Reports : Option (List String) → List String → PreflightReport → Type 0
  Reports allowed used report =
      (report.missing_actions ≡ missing_of registry used)
      × (report.forbidden_actions ≡ forbidden_for registry allowed used)

  report_of-Reports :
      {J : Type 0} (spec : TaskSpec J) (allowed : Option (List String))
      → Ensures (Reports allowed (used_names spec.steps)) (report_of registry spec allowed)
  unfolding report_of
  report_of-Reports spec allowed =
      bind-Ensures _ (validate_task spec) _
        (λ u _. bind-Ensures _ (describe registry) _ (λ entries _. (refl, refl)))

  check_task_report-IsUsable :
      {J : Type 0} (spec : TaskSpec J) (allowed : Option (List String)) (u : Unit {0})
      → check_task_report registry spec allowed ≡ ok u
      → Each (IsUsable allowed) (used_names spec.steps)
  unfolding check_task_report
  check_task_report-IsUsable spec allowed u h =
      let (report, p, q) = bind-ok (report_of registry spec allowed) check_report u h in
      let (m, f) = ensured _ _ report (report_of-Reports spec allowed) p in
      let (no_missing, no_forbidden) = check_report-clear report u q in
      used-IsUsable allowed (used_names spec.steps) (sym m ∙ no_missing) (sym f ∙ no_forbidden)

module _ {J E : Type 0} (registry : ToolRegistry (Action J E)) (empty : ActionResult J)
    (fingerprint : TaskSpec J → String) where
  -- The orchestrator raises, and changes neither the disk nor the world outside; or each action that the task uses is
  -- registered, with an access that is allowed where accesses are listed, and it does what the runner does with
  -- the registered actions.
  pub orchestrated_run-guarded :
      (allowed : Option (List String)) (locked : Bool) (spec : TaskSpec J) (disk : Disk)
      (outside : E)
      → ((e : Raised) × (orchestrated_run registry empty fingerprint allowed locked spec disk
              outside
            ≡ (err e, disk, outside)))
        ⊎ (Each (IsUsable registry allowed) (used_names spec.steps)
            × (orchestrated_run registry empty fingerprint allowed locked spec disk outside
                ≡ run
                    (λ name. lookup name registry.actions)
                    empty
                    fingerprint
                    locked
                    spec
                    disk
                    outside))
  unfolding orchestrated_run run_checked_task
  orchestrated_run-guarded allowed locked spec disk outside =
      elim (Result-cases (check_task_report registry spec allowed)) [
        | inl (u, p) ↦ inr (check_task_report-IsUsable registry spec allowed u p, rw p refl)
        | inr (e, p) ↦ inl (e, rw p refl)
      ]
