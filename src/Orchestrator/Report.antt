-- ===== src/Orchestrator/Report.antt =====
-- `AgentOrchestrator` of agent_core/orchestrator.py, and `describe` of the registry of agent_core/adapters.py.
use Prim.Native.String.{◌++◌ as joined}
use keirin_ai_web.Prelude.{
  String, Bool, not, ◌&&◌, Option, none, some, List, [], ◌∷◌, ◌==◌, string_eq, list_eq,
}
use keirin_ai_web.Prelude.Dict.{lookup}
use keirin_ai_web.Outcome.{Result, ok, err, value_error, other_error}
use keirin_ai_web.Outcome.Pure.{◌>>=◌, ◌>>◌, raise_if}
use keirin_ai_web.Credentials.{sorted_set}
use keirin_ai_web.Tools.Registry.{Capability, ToolRegistry, keys, capability_of, join_names}
use keirin_ai_web.Tasks.Model.{TaskSpec, validate_task}
use keirin_ai_web.Tasks.Uses.{used_names}
use keirin_ai_web.Tasks.Store.{Disk}
use keirin_ai_web.Tasks.Runner.Session.{Action, ActionResult}
use keirin_ai_web.Tasks.Runner.Entry.{RunOutcome, run}
use keirin_ai_web.Hosted.Worker.{missing_of, forbidden_of}

pub record PreflightReport : Type 0 where
  pub ready : Bool
  pub missing_actions : List String
  pub forbidden_actions : List String
  pub registered_capabilities : List (Capability × String)

-- One entry of `describe`, which raises where a table misses the action.
unfoldable pub described : Option Capability → Option String → Result (Capability × String)
described (some c) (some adapter) = ok (c, adapter)
described _ _ = err other_error

module _ {Action : Type 0} (registry : ToolRegistry Action) where
  unfoldable pub describe_each : List String → Result (List (Capability × String))
  unfolding described
  describe_each [] = ok []
  describe_each (action ∷ actions) = do
    entry ← described (capability_of registry action) (lookup action registry.adapter_for_action)
    entries ← describe_each actions
    ok (entry ∷ entries)

  -- `describe`
  unfoldable pub describe : Result (List (Capability × String))
  unfolding describe_each keys sorted_set
  describe = describe_each (sorted_set (keys registry.actions))

  -- The forbidden actions, where `none` allows each access.
  abbrev pub forbidden_for : Option (List String) → List String → List String
  forbidden_for none used = []
  forbidden_for (some allowed) used = forbidden_of registry allowed used

  -- `preflight`
  unfoldable pub report_of :
      {J : Type 0} → TaskSpec J → Option (List String) → Result PreflightReport
  unfolding validate_task used_names missing_of forbidden_of describe
  report_of spec allowed = do
    validate_task spec
    entries ← describe
    ok (record {
      ready =
          missing_of registry (used_names spec.steps) == []
          && forbidden_for allowed (used_names spec.steps) == [];
      missing_actions = missing_of registry (used_names spec.steps);
      forbidden_actions = forbidden_for allowed (used_names spec.steps);
      registered_capabilities = entries;
    })

-- The tests of `run` on the report.
unfoldable pub check_report : PreflightReport → Result (Unit {0})
unfolding join_names
check_report report = do
  raise_if (not (report.missing_actions == []))
      (value_error (joined "preflight_missing_actions:" (join_names report.missing_actions)))
  raise_if (not (report.forbidden_actions == []))
      (value_error (joined "preflight_forbidden_actions:" (join_names report.forbidden_actions)))

unfoldable pub check_task_report :
    {J Action : Type 0}
    → ToolRegistry Action
    → TaskSpec J
    → Option (List String)
    → Result (Unit {0})
unfolding report_of check_report
check_task_report registry spec allowed = report_of registry spec allowed >>= check_report

module _ {J E : Type 0} (registry : ToolRegistry (Action J E)) (empty : ActionResult J)
    (fingerprint : TaskSpec J → String) where
  -- `run` of a task whose tests have ended.
  unfoldable pub run_checked_task :
      Result (Unit {0}) → Bool → TaskSpec J → Disk → E → Result RunOutcome × Disk × E
  unfolding run
  run_checked_task (err e) locked spec disk outside = (err e, disk, outside)
  run_checked_task (ok u) locked spec disk outside =
      run (λ name. lookup name registry.actions) empty fingerprint locked spec disk outside

  -- `run`
  unfoldable pub orchestrated_run :
      Option (List String) → Bool → TaskSpec J → Disk → E → Result RunOutcome × Disk × E
  unfolding check_task_report run_checked_task
  orchestrated_run allowed locked spec disk outside =
      run_checked_task (check_task_report registry spec allowed) locked spec disk outside
