-- ===== src/Hosted/Replies.antt =====
-- The tests of `HostedQueueClient` of agent_core/hosted_queue.py on its arguments and on the rows that come
-- back.
use keirin_ai_web.Prelude.{
  ℕ, ◌+◌, String, Bool, true, false, not, ◌&&◌, ◌||◌, Option, none, some, ltb, leb, ◌==◌, nat_eq,
  string_eq, option_eq, if◌then◌else◌,
}
use keirin_ai_web.Outcome.{Result, ok, err, type_error, value_error, queue_integrity}
use keirin_ai_web.Outcome.Pure.{◌>>=◌, ◌>>◌, raise_if}
use keirin_ai_web.Credentials.{pos}
use keirin_ai_web.Json.{Json, Fields, boolean, int, text, arr, obj, get}
use keirin_ai_web.Hosted.Forbidden.{forbidden_path}
use keirin_ai_web.Tasks.Model.{TaskSpec}
use keirin_ai_web.Hosted.Model.{TaskModel, StoredState, show_state, copy_state}
use keirin_ai_web.Hosted.Lease.{
  RowStatus, running, blocked, HostedQueueLease, is_null, is_clear, equals_text, parse_lease,
}

-- `_valid_lease_seconds`
unfoldable pub valid_lease_seconds : Json → Bool
valid_lease_seconds (int (pos n)) = leb 15 n && leb n 3600
valid_lease_seconds _ = false

-- `type(value) is int and value >= minimum`
unfoldable pub whole_from : ℕ → Json → String → Result ℕ
whole_from minimum (int (pos n)) e = if ltb n minimum then err (value_error e) else ok n
whole_from minimum _ e = err (value_error e)

abbrev pub is_running : RowStatus → Bool
is_running running = true
is_running _ = false

abbrev pub is_blocked : RowStatus → Bool
is_blocked blocked = true
is_blocked _ = false

-- `_SAVE_STATUSES`
unfoldable pub check_saveable : Json → Result (Unit {0})
check_saveable (text s) =
    raise_if (not (s == "running" || s == "blocked" || s == "completed" || s == "failed"))
      (value_error "invalid_leased_checkpoint_status")
check_saveable (arr l) = err (type_error "unhashable type: 'list'")
check_saveable (obj fs) = err (type_error "unhashable type: 'dict'")
check_saveable _ = err (value_error "invalid_leased_checkpoint_status")

abbrev pub is_true : Json → Bool
is_true (boolean b) = b
is_true _ = false

-- `claimed is False and lease is None`
unfoldable pub is_unclaimed : Json → Json → Bool
is_unclaimed (boolean b) lease = not b && is_null lease
is_unclaimed _ lease = false

-- `lease.lease_owner == worker_id`
abbrev pub owned_by : Option String → Json → Bool
owned_by none worker = is_null worker
owned_by (some owner) worker = equals_text worker owner

module _ (m : TaskModel) where
  -- `fenced`
  unfoldable pub is_fenced : HostedQueueLease m → Bool
  is_fenced lease =
      is_running lease.status
      && not (is_clear lease.lease_owner)
      && not (is_clear lease.lease_expires_at)

  -- `_clean_state`
  unfoldable pub clean_state : TaskSpec Json → StoredState m → Result (StoredState m)
  unfolding copy_state show_state forbidden_path
  clean_state spec state = do
    detached ← copy_state m state
    raise_if (not (detached.task_id == spec.task_id)) (queue_integrity "task_state_id_mismatch")
    raise_if (not (equals_text detached.spec_fingerprint (m.fingerprint spec)))
        (queue_integrity "task_spec_changed")
    raise_if (not (is_clear (forbidden_path (show_state m detached))))
        (queue_integrity "state_contains_forbidden_secret")
    ok detached

  -- The end of `claim`.
  unfoldable pub claimed_lease : Json → Fields → Result (Option (HostedQueueLease m))
  unfolding parse_lease is_unclaimed
  claimed_lease worker_id response =
      if is_unclaimed (get "claimed" response) (get "lease" response) then ok none else do
        raise_if (not (is_true (get "claimed" response)))
            (queue_integrity "queue_claim_flag_mismatch")
        row ← parse_lease m (get "lease" response) none
        raise_if (not (is_running row.status) || not (owned_by row.lease_owner worker_id))
            (queue_integrity "queue_claim_identity_mismatch")
        raise_if (ltb row.revision 1 || ltb row.attempt_count 1)
            (queue_integrity "queue_claim_counters_not_advanced")
        ok (some row)

  -- The owner of a running row is kept, and of any other cleared.
  unfoldable pub check_owner : Bool → Json → HostedQueueLease m → Result (Unit {0})
  unfolding is_fenced
  check_owner true worker_id lease =
      raise_if (not (owned_by lease.lease_owner worker_id) || not (is_fenced lease))
        (queue_integrity "running_lease_not_preserved")
  check_owner false worker_id lease =
      raise_if (not (is_clear lease.lease_owner) || not (is_clear lease.lease_expires_at))
        (queue_integrity "terminal_lease_not_released")

  -- The tests of `save` on the row that comes back.
  unfoldable pub check_saved : Json → ℕ → Json → ℕ → HostedQueueLease m → Result (Unit {0})
  unfolding check_owner
  check_saved status expected_revision worker_id generation lease = do
    raise_if (not (lease.revision == expected_revision + 1))
        (queue_integrity "queue_revision_increment_mismatch")
    raise_if (not (lease.lease_generation == generation))
        (queue_integrity "queue_fencing_generation_changed")
    check_owner (equals_text status "running") worker_id lease

  unfoldable pub saved_lease :
      TaskSpec Json → StoredState m → ℕ → Json → ℕ → Fields → Result (HostedQueueLease m)
  unfolding parse_lease check_saved
  saved_lease spec state expected_revision worker_id generation response = do
    row ← parse_lease m (get "lease" response) (some spec)
    check_saved state.status expected_revision worker_id generation row
    ok row

  -- The tests of `reconcile_expired` on the row that comes back.
  unfoldable pub check_reconciled : ℕ → ℕ → HostedQueueLease m → Result (Unit {0})
  check_reconciled expected_revision generation lease = do
    raise_if (not (is_blocked lease.status)) (queue_integrity "expired_reconciliation_not_blocked")
    raise_if (not (lease.revision == expected_revision + 1))
        (queue_integrity "queue_revision_increment_mismatch")
    raise_if (not (lease.lease_generation == generation))
        (queue_integrity "queue_fencing_generation_changed")
    raise_if (not (is_clear lease.lease_owner) || not (is_clear lease.lease_expires_at))
        (queue_integrity "expired_lease_not_cleared")

  unfoldable pub reconciled_lease : TaskSpec Json → ℕ → ℕ → Fields → Result (HostedQueueLease m)
  unfolding parse_lease check_reconciled
  reconciled_lease spec expected_revision generation response = do
    row ← parse_lease m (get "lease" response) (some spec)
    check_reconciled expected_revision generation row
    ok row
