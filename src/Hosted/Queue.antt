-- ===== src/Hosted/Queue.antt =====
-- `HostedQueueClient` of agent_core/hosted_queue.py: `inspect`, `claim`, `save` and `reconcile_expired`.
-- A specification is copied through its JSON form first, which makes the tests of `validate`; the copy is taken
-- to be the specification.
use keirin_ai_web.Prelude.{String, not, Option, some}
use keirin_ai_web.Outcome.{Exec, value_error}
use keirin_ai_web.Outcome.Pure.{raise_if}
use keirin_ai_web.Outcome.Method.{◌>>=◌, ◌>>◌, lift}
use keirin_ai_web.Json.{Json, text, obj, end, field, get}
use keirin_ai_web.Tasks.Model.{TaskSpec, validate_task}
use keirin_ai_web.Hosted.Model.{TaskModel, StoredState, show_state}
use keirin_ai_web.Hosted.Lease.{HostedQueueLease, valid_worker_id, equals_text, parse_lease}
use keirin_ai_web.Hosted.Transport.{Transport, request}
use keirin_ai_web.Hosted.Replies.{
  valid_lease_seconds, whole_from, check_saveable, clean_state, claimed_lease, saved_lease,
  reconciled_lease,
}

module _ (m : TaskModel) {W : Type 0} (str : Json → String) (transport : Transport W) where
  -- `inspect`
  unfoldable pub inspect : TaskSpec Json → Exec W (HostedQueueLease m)
  unfolding request parse_lease
  inspect spec = do
    lift (validate_task spec)
    response ←
        request str transport "checkpoint_get" (obj (field "task_id" (text spec.task_id) end))
    lift (parse_lease m (get "checkpoint" response) (some spec))

  -- `claim`
  unfoldable pub claim : Json → Json → Exec W (Option (HostedQueueLease m))
  unfolding request valid_worker_id valid_lease_seconds claimed_lease
  claim worker_id lease_seconds = do
    lift (raise_if (not (valid_worker_id worker_id)) (value_error "invalid_worker_id"))
    lift (raise_if (not (valid_lease_seconds lease_seconds)) (value_error "invalid_lease_seconds"))
    response ←
        request str transport "queue_claim"
          (obj (field "worker_id" worker_id (field "lease_seconds" lease_seconds end)))
    lift (claimed_lease m worker_id response)

  -- `save`
  unfoldable pub save :
      TaskSpec Json → StoredState m → Json → Json → Json → Json → Exec W (HostedQueueLease m)
  unfolding request clean_state check_saveable whole_from valid_worker_id valid_lease_seconds
      saved_lease
  save spec state expected_revision worker_id lease_generation lease_seconds = do
    lift (validate_task spec)
    detached ← lift (clean_state m spec state)
    lift (check_saveable detached.status)
    revision ←
        lift (whole_from 0 expected_revision "expected_revision_must_be_non_negative_integer")
    lift (raise_if (not (valid_worker_id worker_id)) (value_error "invalid_worker_id"))
    generation ← lift (whole_from 1 lease_generation "invalid_lease_generation")
    lift (raise_if (not (valid_lease_seconds lease_seconds)) (value_error "invalid_lease_seconds"))
    response ← request str transport "queue_save" (
        obj (
          field "task_id" (text spec.task_id) (
            field "expected_revision" expected_revision (
              field "worker_id" worker_id (
                field "lease_generation" lease_generation (
                  field "status" detached.status (
                    field "state" (show_state m detached)
                      (field "lease_seconds" lease_seconds end))))))))
    lift (saved_lease m spec detached revision worker_id generation response)

  -- `reconcile_expired`
  unfoldable pub reconcile_expired :
      TaskSpec Json → StoredState m → Json → Json → Exec W (HostedQueueLease m)
  unfolding request clean_state whole_from reconciled_lease
  reconcile_expired spec state expected_revision lease_generation = do
    lift (validate_task spec)
    detached ← lift (clean_state m spec state)
    lift (
        raise_if (not (equals_text detached.status "blocked"))
          (value_error "blocked_state_required"))
    revision ←
        lift (whole_from 0 expected_revision "expected_revision_must_be_non_negative_integer")
    generation ← lift (whole_from 1 lease_generation "invalid_lease_generation")
    response ← request str transport "queue_reconcile_expired" (
        obj (
          field "task_id" (text spec.task_id) (
            field "expected_revision" expected_revision (
              field "lease_generation" lease_generation
                (field "state" (show_state m detached) end)))))
    lift (reconciled_lease m spec revision generation response)
