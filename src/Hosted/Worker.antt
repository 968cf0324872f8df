-- ===== src/Hosted/Worker.antt =====
-- `HostedWorkerCoordinator` of agent_core/hosted_worker.py: a claim, the check of the task's actions against
-- the registry, and the release of the claim, without a call of any action.
use Prim.Native.String.{◌++◌ as joined}
use keirin_ai_web.Prelude.{
  ℕ, String, Bool, true, false, not, ◌&&◌, ◌||◌, Option, none, some, List, [], ◌∷◌, ◌==◌, string_eq,
  list_eq, contains, if◌then◌else◌,
}
use keirin_ai_web.Outcome.{Result, ok, Exec, runtime_error}
use keirin_ai_web.Outcome.Pure
use keirin_ai_web.Outcome.Pure.{raise_if}
use keirin_ai_web.Outcome.Method.{◌>>=◌, ◌>>◌, lift, pure}
use keirin_ai_web.Credentials.{pos, sorted_set}
use keirin_ai_web.Json.{Json, null, boolean, int, text, arr, obj, end, field, text_items}
use keirin_ai_web.Tools.Registry.{Capability, ToolRegistry, keys, capability_of, join_names}
use keirin_ai_web.Tasks.Model.{validate_task}
use keirin_ai_web.Tasks.Uses.{used_names}
use keirin_ai_web.Hosted.Model.{TaskModel, StoredState, copy_state}
use keirin_ai_web.Hosted.Lease.{HostedQueueLease, is_clear}
use keirin_ai_web.Hosted.Transport.{Transport}
use keirin_ai_web.Hosted.Replies.{is_blocked}
use keirin_ai_web.Hosted.Queue.{claim, save}
use keirin_ai_web.Hosted.Activity.{append}

pub record HostedWorkerDecision : Type 0 where
  pub claimed : Bool
  pub task_id : Option String
  pub revision : Option ℕ
  pub lease_generation : Option ℕ
  pub ready : Bool
  pub execution_enabled : Bool
  pub missing_actions : List String
  pub forbidden_actions : List String
  pub blocked_reason : Option String

abbrev pub execution_block_reason : String
execution_block_reason = "hosted_task_execution_not_activated"

-- The elements that pass the test.
unfoldable pub keep : (String → Bool) → List String → List String
keep test [] = []
keep test (a ∷ l) = let rest = keep test l in if test a then a ∷ rest else rest

-- `capability is None or capability.access not in allowed`
unfoldable pub is_refused : List String → Option Capability → Bool
is_refused allowed none = true
is_refused allowed (some c) = not (contains c.access allowed)

module _ {Action : Type 0} (registry : ToolRegistry Action) where
  -- `tuple(sorted(used - registered))`
  unfoldable pub missing_of : List String → List String
  unfolding keep sorted_set keys
  missing_of used = sorted_set (keep (λ a. not (contains a (keys registry.actions))) used)

  -- The actions of `sorted(used & registered)` that the caller does not allow.
  unfoldable pub forbidden_of : List String → List String → List String
  unfolding keep sorted_set keys is_refused
  forbidden_of allowed used =
      keep (λ a. is_refused allowed (capability_of registry a))
        (sorted_set (keep (λ a. contains a (keys registry.actions)) used))

-- The reason to block the task.
unfoldable pub block_reason : List String → List String → String
unfolding join_names
block_reason [] [] = execution_block_reason
block_reason [] forbidden = joined "preflight_forbidden_actions:" (join_names forbidden)
block_reason missing forbidden = joined "preflight_missing_actions:" (join_names missing)

-- The decision about an empty queue.
abbrev pub queue_empty : HostedWorkerDecision
queue_empty = record {
  claimed = false;
  task_id = none;
  revision = none;
  lease_generation = none;
  ready = false;
  execution_enabled = false;
  missing_actions = [];
  forbidden_actions = [];
  blocked_reason = some "queue_empty";
}

module _ (m : TaskModel) where
  -- `_preflight`
  unfoldable pub preflight :
      {Action : Type 0}
      → ToolRegistry Action
      → HostedQueueLease m
      → List String
      → Result (List String × List String)
  unfolding validate_task used_names missing_of forbidden_of
  preflight registry lease allowed = Pure.◌>>◌ (validate_task lease.spec) (
      ok (
        missing_of registry (used_names lease.spec.steps),
        forbidden_of registry allowed (used_names lease.spec.steps),
      ))

  -- `_blocked_state`
  unfoldable pub blocked_state : HostedQueueLease m → String → Result (StoredState m)
  unfolding copy_state
  blocked_state lease reason = Pure.◌>>=◌ (copy_state m lease.state) λ state. ok (record {
    task_id = state.task_id;
    status = text "blocked";
    blocked_reason = text reason;
    last_error = null;
    artifacts = state.artifacts;
    progress = state.progress;
    schema_version = state.schema_version;
    spec_fingerprint = state.spec_fingerprint;
  })

  abbrev pub decided :
      HostedQueueLease m → HostedQueueLease m → List String → List String → HostedWorkerDecision
  decided lease released missing forbidden = record {
    claimed = true;
    task_id = some lease.task_id;
    revision = some released.revision;
    lease_generation = some released.lease_generation;
    ready = missing == [] && forbidden == [];
    execution_enabled = false;
    missing_actions = missing;
    forbidden_actions = forbidden;
    blocked_reason = some (block_reason missing forbidden);
  }

module _ (m : TaskModel) {W Action : Type 0} (str : Json → String) (queue activity : Transport W)
    (registry : ToolRegistry Action) where
  -- The event before the check of a claimed task.
  unfoldable pub announce : Json → HostedQueueLease m → Exec W (Unit {0})
  unfolding append
  announce worker_id lease = do
    append str activity (text lease.task_id) (text "worker_preflight_started") null (
        obj (
          field "worker_id" worker_id (
            field "revision" (int (pos lease.revision))
              (field "lease_generation" (int (pos lease.lease_generation)) end))))
    pure tt

  -- The event after the release.
  unfoldable pub report :
      Json → HostedQueueLease m → HostedQueueLease m → List String → List String → Exec W (Unit {0})
  unfolding append block_reason
  report worker_id lease released missing forbidden = do
    append str activity (text lease.task_id) (text "worker_preflight_blocked") null (
        obj (
          field "worker_id" worker_id (
            field "revision" (int (pos released.revision)) (
              field "lease_generation" (int (pos released.lease_generation)) (
                field "reason" (text (block_reason missing forbidden)) (
                  field "missing_actions" (arr (text_items missing)) (
                    field "forbidden_actions" (arr (text_items forbidden))
                      (field "execution_enabled" (boolean false) end))))))))
    pure tt

  -- The save of the blocked state, and the test that it let the lease go.
  unfoldable pub release : Json → Json → HostedQueueLease m → String → Exec W (HostedQueueLease m)
  unfolding save blocked_state
  release worker_id lease_seconds lease reason = do
    state ← lift (blocked_state m lease reason)
    released ←
        save m str queue lease.spec state (int (pos lease.revision)) worker_id
          (int (pos lease.lease_generation)) lease_seconds
    lift (
        raise_if (not (is_blocked released.status) || not (is_clear released.lease_owner))
          (runtime_error "worker_preflight_failed_to_release_lease"))
    pure released

  -- `inspect_next`, of a claimed task.
  unfoldable pub inspect_lease :
      Json → Json → List String → HostedQueueLease m → Exec W HostedWorkerDecision
  unfolding announce preflight release report block_reason
  inspect_lease worker_id lease_seconds allowed lease = do
    announce worker_id lease
    found ← lift (preflight m registry lease allowed)
    released ← release worker_id lease_seconds lease (block_reason found.0 found.1)
    report worker_id lease released found.0 found.1
    pure (decided m lease released found.0 found.1)

  unfoldable pub inspect_claimed :
      Json → Json → List String → Option (HostedQueueLease m) → Exec W HostedWorkerDecision
  unfolding inspect_lease
  inspect_claimed worker_id lease_seconds allowed none = pure queue_empty
  inspect_claimed worker_id lease_seconds allowed (some lease) =
      inspect_lease worker_id lease_seconds allowed lease

  -- `inspect_next`
  unfoldable pub inspect_next : Json → Json → List String → Exec W HostedWorkerDecision
  unfolding claim inspect_claimed
  inspect_next worker_id lease_seconds allowed = do
    claimed ← claim m str queue worker_id lease_seconds
    inspect_claimed worker_id lease_seconds allowed claimed
