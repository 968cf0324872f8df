-- ===== src/Orchestrator/Tests.antt =====
-- The orchestrator with one task of one action, allowed to read or not.
use keirin_ai_web.Prelude.{
  ◌≡◌, ◌⊎◌, refl, ℕ, String, true, false, none, some, List, [], ◌∷◌, Each, string_eq,
}
use keirin_ai_web.Prelude.Dict.{lookup}
use keirin_ai_web.Prelude.Text.{is_blank}
use keirin_ai_web.Outcome.{Raised, err, value_error}
use keirin_ai_web.Credentials.{null}
use keirin_ai_web.Tools.Registry.{ToolRegistry, entered, new_registry}
use keirin_ai_web.Tasks.Model.{TaskSpec}
use keirin_ai_web.Tasks.Store.{Disk}
use keirin_ai_web.Tasks.Runner.Session.{ActionResult, Action, returned, action_result}
use keirin_ai_web.Tasks.Runner.Entry.{run}
use keirin_ai_web.Orchestrator.Report.{orchestrated_run}
use keirin_ai_web.Tasks.Uses.{used_names}
use keirin_ai_web.Orchestrator.Guard.{IsUsable, orchestrated_run-guarded}

abbrev found : ActionResult ℕ
found = record { message = ""; artifacts = []; contents = 0; verified = null }

abbrev read_main : Action ℕ (List String)
read_main arguments context calls = (returned (action_result found), context.step_id ∷ calls)

abbrev tools : ToolRegistry (Action ℕ (List String))
tools =
    entered "github-readonly" "github.read_main" read_main
      (record {
        action = "github.read_main";
        access = "read";
        required_permissions = [];
        supports_dry_run = true;
        description = "";
      })
      (new_registry (Action ℕ (List String)))

abbrev reading : TaskSpec ℕ
reading = record {
  task_id = "t1";
  title = "reading";
  goal = "read";
  allowed_actions = "github.read_main" ∷ [];
  steps =
      record {
        step_id = "first";
        action = "github.read_main";
        args = 0;
        verify_action = none;
        retry_safe = false;
        max_attempts = 1;
      }
      ∷ [];
  inputs = 0;
  completion_conditions = [];
  schema_version = "agent-task-v1";
}

abbrev empty_disk : Disk
empty_disk = record { states = []; events = [] }

abbrev title_of : TaskSpec ℕ → String
title_of spec = spec.title

refused :
    orchestrated_run tools found title_of (some ("write" ∷ [])) false reading empty_disk []
    ≡ (err (value_error "preflight_forbidden_actions:github.read_main"), empty_disk, [])
unfolding orchestrated_run is_blank
refused = refl

orchestrated_run-guarded_example :
    ((e : Raised) × (orchestrated_run tools found title_of
          (some ("read" ∷ []))
          false
          reading
          empty_disk
          []
        ≡ (err e, empty_disk, [])))
    ⊎ (Each (IsUsable tools (some ("read" ∷ []))) (used_names reading.steps)
        × (orchestrated_run tools found title_of (some ("read" ∷ [])) false reading empty_disk []
            ≡ run (λ name. lookup name tools.actions) found title_of false reading empty_disk []))
orchestrated_run-guarded_example =
    orchestrated_run-guarded tools found title_of (some ("read" ∷ [])) false reading empty_disk []
