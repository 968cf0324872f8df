-- ===== src/Tasks/Model.antt =====
-- `StepSpec`, `TaskSpec` and `TaskState` of agent_core/model.py. `J` stands for the JSON values in
-- arguments, inputs and results, which the runner passes on unread. Timestamps are left out: no
-- decision reads them. Reasons and errors are data, with the source's texts for constructors.
use keirin_ai_web.Prelude.{
  ℕ, String, Bool, true, false, not, ◌&&◌, Option, none, some, List, [], ◌∷◌, ltb, ◌==◌, nat_eq,
  string_eq, contains, if◌then◌else◌,
}
use keirin_ai_web.Prelude.Text.{is_blank}
use keirin_ai_web.Prelude.Dict.{Dict}
use keirin_ai_web.Outcome.{Result, ok, value_error}
use keirin_ai_web.Outcome.Pure.{◌>>◌, raise_if}

pub data TaskStatus : Type 0 where
  pending running completed blocked failed : TaskStatus

-- `AgentRunner.TERMINAL`
abbrev pub is_terminal : TaskStatus → Bool
is_terminal pending = false
is_terminal running = false
is_terminal _ = true

abbrev pub is_blocked : TaskStatus → Bool
is_blocked blocked = true
is_blocked _ = false

pub record StepSpec (J : Type 0) : Type 0 where
  pub step_id : String
  pub action : String
  pub args : J
  pub verify_action : Option String
  pub retry_safe : Bool
  pub max_attempts : ℕ

-- `StepSpec.validate`
unfoldable pub validate_step : {J : Type 0} → StepSpec J → Result (Unit {0})
validate_step step = do
  raise_if (is_blank step.step_id) (value_error "step_id_required")
  raise_if (is_blank step.action) (value_error "action_required")
  raise_if (ltb step.max_attempts 1) (value_error "max_attempts_must_be_positive")
  raise_if (not step.retry_safe && not (step.max_attempts == 1))
      (value_error "unsafe_retry_requires_single_attempt")

pub record TaskSpec (J : Type 0) : Type 0 where
  pub task_id : String
  pub title : String
  pub goal : String
  pub allowed_actions : List String
  pub steps : List (StepSpec J)
  pub inputs : J
  pub completion_conditions : List String
  pub schema_version : String

-- `len(set(l)) == len(l)`
unfoldable pub no_repeats : List String → Bool
no_repeats [] = true
no_repeats (a ∷ l) = not (contains a l) && no_repeats l

-- An empty `verify_action` is falsy, as is `None`.
abbrev pub verify_name : Option String → Option String
verify_name none = none
verify_name (some v) = if v == "" then none else some v

abbrev pub verify_allowed : Option String → List String → Bool
verify_allowed none allowed = true
verify_allowed (some v) allowed = contains v allowed

-- The loop of `TaskSpec.validate`, with the step ids seen.
unfoldable pub validate_steps :
    {J : Type 0} → List String → List String → List (StepSpec J) → Result (Unit {0})
unfolding validate_step
validate_steps allowed seen [] = ok tt
validate_steps allowed seen (step ∷ l) =
    let rest = validate_steps allowed (step.step_id ∷ seen) l in
    do
      validate_step step
      raise_if (contains step.step_id seen) (value_error "duplicate_step_id")
      raise_if (not (contains step.action allowed)) (value_error "action_not_allowed")
      raise_if (not (verify_allowed (verify_name step.verify_action) allowed))
          (value_error "verification_action_not_allowed")
      rest

abbrev pub is_empty {ℓ} : {A : Type ℓ} → List A → Bool
is_empty [] = true
is_empty (x ∷ l) = false

-- `TaskSpec.validate`
unfoldable pub validate_task : {J : Type 0} → TaskSpec J → Result (Unit {0})
unfolding validate_steps no_repeats
validate_task spec = do
  raise_if (not (spec.schema_version == "agent-task-v1")) (value_error "task_schema_mismatch")
  raise_if (is_blank spec.task_id) (value_error "task_id_required")
  raise_if (is_blank spec.title) (value_error "title_required")
  raise_if (is_blank spec.goal) (value_error "goal_required")
  raise_if (is_empty spec.steps) (value_error "at_least_one_step_required")
  raise_if (not (no_repeats spec.allowed_actions)) (value_error "duplicate_allowed_action")
  validate_steps spec.allowed_actions [] spec.steps

-- `ArtifactState`, without its metadata.
pub record ArtifactState : Type 0 where
  pub artifact_id : String
  pub kind : String
  pub locator : Option String
  pub created : Bool
  pub verified : Bool
  pub persistent_saved : Bool
  pub device_saved : Bool
  pub ui_loaded : Bool

-- `ArtifactUpdate`; `None` leaves a field as it is.
pub record ArtifactUpdate : Type 0 where
  pub artifact_id : String
  pub kind : String
  pub locator : Option String
  pub created : Option Bool
  pub verified : Option Bool
  pub persistent_saved : Option Bool
  pub device_saved : Option Bool
  pub ui_loaded : Option Bool

-- The texts that `_block` writes to `blocked_reason`.
pub data BlockReason : Type 0 where
  interrupted_step_requires_reconciliation : List String → BlockReason
  action_unavailable : String → BlockReason
  action_blocked : String → BlockReason
  action_error_requires_reconciliation : BlockReason
  verification_action_unavailable : String → BlockReason
  verification_error_requires_reconciliation : BlockReason
  verification_failed : String → BlockReason

-- `_persistent_error`: no text of an untyped exception is kept.
pub data PersistentError : Type 0 where
  safe_action_error : String → PersistentError
  action_exception_redacted : PersistentError
  verification_exception_redacted : PersistentError

pub data Resolution : Type 0 where
  not_applied applied_and_verified needs_manual_action : Resolution

pub record Reconciliation : Type 0 where
  pub step_id : String
  pub resolution : Resolution
  pub note : String
  pub previous_blocked_reason : Option BlockReason
  pub previous_last_error : Option PersistentError

pub record TaskState : Type 0 where
  pub task_id : String
  pub status : TaskStatus
  pub completed_steps : List String
  pub attempts : Dict String ℕ
  pub blocked_reason : Option BlockReason
  pub last_error : Option PersistentError
  pub artifacts : Dict String ArtifactState
  pub reconciliations : List Reconciliation
  pub schema_version : String
  pub spec_fingerprint : Option String

-- `TaskState(task_id=task_id)`
abbrev pub initial_state : String → TaskState
initial_state task_id = record {
  task_id = task_id;
  status = pending;
  completed_steps = [];
  attempts = [];
  blocked_reason = none;
  last_error = none;
  artifacts = [];
  reconciliations = [];
  schema_version = "agent-task-state-v1";
  spec_fingerprint = none;
}
