-- ===== src/Hosted/Model.antt =====
-- Tasks and their states as the hosted clients use them: `TaskState` of agent_core/model.py with its JSON form,
-- `to_dict` and `from_dict`. The artifacts and the progress of a state, which no client reads, are types of the
-- interface, with their JSON forms; timestamps are left out.
use keirin_ai_web.Prelude.{String, ◌≡◌, refl, Bool, ◌==◌, string_eq, if◌then◌else◌, arith}
use keirin_ai_web.Outcome.{Result, ok, err, value_error, key_error, other_error}
use keirin_ai_web.Outcome.Pure.{◌>>=◌, Ensures, bind-Ensures, ensured, accepted, ok-injective}
use keirin_ai_web.Json.{Json, Fields, text, obj, end, field, get}
use keirin_ai_web.Tasks.Model.{TaskSpec}

pub record TaskModel : Type 1 where
  pub Artifacts : Type 0
  pub Progress : Type 0
  -- The artifacts, and the completed steps, attempts and reconciliations, as `from_dict` reads them.
  pub read_artifacts : Json → Result Artifacts
  pub read_progress : Json → Json → Json → Result Progress
  pub show_artifacts : Artifacts → Json
  pub show_completed : Progress → Json
  pub show_attempts : Progress → Json
  pub show_reconciliations : Progress → Json
  -- What reads back is what was shown.
  pub artifacts_back : (a b : Artifacts) → read_artifacts (show_artifacts a) ≡ ok b → b ≡ a
  pub progress_back :
      (p q : Progress)
      → read_progress (show_completed p) (show_attempts p) (show_reconciliations p) ≡ ok q
      → q ≡ p
  -- `TaskSpec.from_dict`, `spec == other` by their JSON forms, and the digest.
  pub read_spec : Json → Result (TaskSpec Json)
  pub same_spec : TaskSpec Json → TaskSpec Json → Bool
  pub fingerprint : TaskSpec Json → String
  -- `str` of a task's name.
  pub str_name : Json → String

pub record StoredState (m : TaskModel) : Type 0 where
  pub task_id : String
  pub status : Json
  pub blocked_reason : Json
  pub last_error : Json
  pub artifacts : m.Artifacts
  pub progress : m.Progress
  pub schema_version : String
  pub spec_fingerprint : Json

-- `payload.get(key, missing)`
unfoldable pub get_or : Json → String → Fields → Json
get_or missing key end = missing
get_or missing key (field name value rest) = if name == key then value else get_or missing key rest

-- `payload[key]`
unfoldable pub item : String → Fields → Result Json
item key end = err (key_error key)
item key (field name value rest) = if name == key then ok value else item key rest

-- `payload.get("schema_version") != STATE_SCHEMA_VERSION`
unfoldable pub state_schema : Json → Result String
state_schema (text v) =
    if v == "agent-task-state-v1" then ok v else err (value_error "state_schema_mismatch")
state_schema _ = err (value_error "state_schema_mismatch")

module _ (m : TaskModel) where
  -- `str(payload["task_id"])`
  abbrev pub shown_name : Json → String
  shown_name (text s) = s
  shown_name v = m.str_name v

  -- `from_dict`
  unfoldable pub read_state : Json → Result (StoredState m)
  unfolding state_schema item get_or get
  read_state (obj fs) = do
    version ← state_schema (get "schema_version" fs)
    artifacts ← m.read_artifacts (get "artifacts" fs)
    task_id ← item "task_id" fs
    progress ←
        m.read_progress (get "completed_steps" fs) (get "attempts" fs) (get "reconciliations" fs)
    ok (record {
      task_id = shown_name task_id;
      status = get_or (text "pending") "status" fs;
      blocked_reason = get "blocked_reason" fs;
      last_error = get "last_error" fs;
      artifacts = artifacts;
      progress = progress;
      schema_version = version;
      spec_fingerprint = get "spec_fingerprint" fs;
    })
  read_state v = err other_error

  -- `to_dict`
  unfoldable pub show_state : StoredState m → Json
  show_state s = obj (
      field "task_id" (text s.task_id) (
        field "status" s.status (
          field "completed_steps" (m.show_completed s.progress) (
            field "attempts" (m.show_attempts s.progress) (
              field "blocked_reason" s.blocked_reason (
                field "last_error" s.last_error (
                  field "artifacts" (m.show_artifacts s.artifacts) (
                    field "reconciliations" (m.show_reconciliations s.progress) (
                      field "schema_version" (text s.schema_version)
                        (field "spec_fingerprint" s.spec_fingerprint end))))))))))

  -- `TaskState.from_dict(state.to_dict())`
  unfoldable pub copy_state : StoredState m → Result (StoredState m)
  unfolding read_state show_state
  copy_state s = read_state (show_state s)

  state_schema-lem : (v w : String) → state_schema (text v) ≡ ok w → w ≡ v
  unfolding state_schema
  state_schema-lem v w h =
      let (p, q) = accepted (v == "agent-task-state-v1") (ok v) _ w h in
      ok-injective w v (ground arith)

  copied-same :
      (s : StoredState m) (v : String) (a : m.Artifacts) (p : m.Progress)
      → v ≡ s.schema_version
      → a ≡ s.artifacts
      → p ≡ s.progress
      → record {
        task_id = s.task_id;
        status = s.status;
        blocked_reason = s.blocked_reason;
        last_error = s.last_error;
        artifacts = a;
        progress = p;
        schema_version = v;
        spec_fingerprint = s.spec_fingerprint;
      }
        ≡ s
  copied-same s v a p e f g = rw (e, f, g) refl

  copy_state-Ensures : (s : StoredState m) → Ensures (λ d. d ≡ s) (copy_state s)
  unfolding copy_state read_state show_state item get_or get
  copy_state-Ensures s =
      bind-Ensures (λ d. d ≡ s) (state_schema (text s.schema_version)) _
        (λ v e.
          bind-Ensures (λ d. d ≡ s) (m.read_artifacts (m.show_artifacts s.artifacts)) _
            (λ a f.
              bind-Ensures (λ d. d ≡ s)
                (m.read_progress (m.show_completed s.progress) (m.show_attempts s.progress)
                  (m.show_reconciliations s.progress))
                _
                (λ p g.
                  copied-same s v a p (state_schema-lem s.schema_version v e)
                    (m.artifacts_back s.artifacts a f) (m.progress_back s.progress p g))))

  -- A copy, where it is made, is the state itself.
  pub copy_state-same : (s d : StoredState m) → copy_state s ≡ ok d → d ≡ s
  copy_state-same s d h = ensured (λ d. d ≡ s) (copy_state s) d (copy_state-Ensures s) h
