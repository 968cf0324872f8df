-- ===== src/Planning/Queue.antt =====
-- `QueueEntry` and `plan_queue` of agent_core/queue_planner.py.
use keirin_ai_web.Prelude.{
  Option, none, some, ℕ, zero, suc, ◌-◌, ◌+◌, String, Bool, true, false, not, ◌&&◌, ◌||◌, List, [],
  ◌∷◌, ltb, leb, ◌==◌, nat_eq, string_eq, contains, if◌then◌else◌,
}
use keirin_ai_web.Prelude.Text.{is_blank}
use keirin_ai_web.Outcome.{Result, ok, err, value_error}
use keirin_ai_web.Outcome.Pure.{◌>>=◌, ◌>>◌, raise_if}
use keirin_ai_web.Credentials.{Value, seconds, text_lt}

-- A `datetime`, by whether it has a time zone; aware ones are compared as instants.
pub data Timestamp : Type 0 where
  naive : Timestamp
  aware : ℕ → Timestamp

-- `_aware`, with the instant.
unfoldable pub instant_of : Timestamp → Result ℕ
instant_of naive = err (value_error "timezone_aware_timestamp_required")
instant_of (aware t) = ok t

-- The lease of an entry; `None` is `no_lease`.
pub data Lease : Type 0 where
  no_lease : Lease
  until : Timestamp → Lease

pub data QueueStatus : Type 0 where
  queued running blocked completed failed : QueueStatus
  unknown_status : String → QueueStatus

pub record QueueEntry : Type 0 where
  pub owner_id : String
  pub task_id : String
  pub idempotency_key : String
  pub revision : Value
  pub status : QueueStatus
  pub created_at : Timestamp
  pub not_before : Timestamp
  pub attempts : Value
  pub max_attempts : Value
  pub lease_expires_at : Lease

-- An entry whose fields have been found valid.
pub record Row : Type 0 where
  pub task_id : String
  pub revision : ℕ
  pub status : QueueStatus
  pub created_at : ℕ
  pub not_before : ℕ
  pub attempts : ℕ
  pub max_attempts : ℕ
  pub lease_expires_at : Option ℕ

abbrev pub is_known : QueueStatus → Bool
is_known (unknown_status s) = false
is_known _ = true

abbrev pub is_running : QueueStatus → Bool
is_running running = true
is_running _ = false

-- The tests on the lease.
unfoldable pub validate_lease : Lease → QueueStatus → Result (Option ℕ)
unfolding instant_of
validate_lease no_lease status = ok none
validate_lease (until t) status = do
  expires ← instant_of t
  raise_if (not (is_running status)) (value_error "lease_requires_running_status")
  ok (some expires)

-- `QueueEntry.validate`, with the fields that it has checked.
unfoldable pub validate_entry : QueueEntry → Result Row
unfolding instant_of validate_lease
validate_entry entry = do
  raise_if (is_blank entry.owner_id || is_blank entry.task_id || is_blank entry.idempotency_key)
      (value_error "queue_identity_required")
  raise_if (not (is_known entry.status)) (value_error "invalid_queue_status")
  revision ← seconds entry.revision "invalid_queue_counter"
  attempts ← seconds entry.attempts "invalid_queue_counter"
  max_attempts ← seconds entry.max_attempts "invalid_queue_counter"
  raise_if (ltb max_attempts 1 || ltb max_attempts attempts) (value_error "invalid_attempt_budget")
  created_at ← instant_of entry.created_at
  not_before ← instant_of entry.not_before
  lease_expires_at ← validate_lease entry.lease_expires_at entry.status
  ok (record {
    task_id = entry.task_id;
    revision = revision;
    status = entry.status;
    created_at = created_at;
    not_before = not_before;
    attempts = attempts;
    max_attempts = max_attempts;
    lease_expires_at = lease_expires_at;
  })

-- The first loop of `plan_queue`, with the ids and the keys seen.
unfoldable pub validate_rows :
    String → List String → List String → List QueueEntry → Result (List Row)
unfolding validate_entry
validate_rows owner_id ids keys [] = ok []
validate_rows owner_id ids keys (entry ∷ l) =
    let rest = validate_rows owner_id (entry.task_id ∷ ids) (entry.idempotency_key ∷ keys) l in
    do
      row ← validate_entry entry
      raise_if (not (entry.owner_id == owner_id)) (value_error "queue_owner_scope_mismatch")
      raise_if (contains entry.task_id ids || contains entry.idempotency_key keys)
          (value_error "duplicate_queue_identity")
      rows ← rest
      ok (row ∷ rows)

-- The key `(created_at, task_id)`: whether the first row comes before the second.
unfoldable pub comes_before : Row → Row → Bool
comes_before r s =
    ltb r.created_at s.created_at || (r.created_at == s.created_at && text_lt r.task_id s.task_id)

-- `sorted` is stable: a row is put behind those that do not come after it.
unfoldable pub insert_row : Row → List Row → List Row
unfolding comes_before
insert_row r [] = r ∷ []
insert_row r (s ∷ l) = let rest = insert_row r l in if comes_before s r then s ∷ rest else r ∷ s ∷ l

unfoldable pub sort_rows : List Row → List Row
unfolding insert_row
sort_rows [] = []
sort_rows (r ∷ l) = insert_row r (sort_rows l)

-- `sum(row.status == "running" for row in rows)`
unfoldable pub running_count : List Row → ℕ
running_count [] = 0
running_count (r ∷ l) = let rest = running_count l in if is_running r.status then 1 + rest else rest

pub data Disposition : Type 0 where
  skip_terminal_state reconcile_outcome_unknown wait_active_lease : Disposition
  reconcile_budget_exhausted wait_not_due wait_capacity_exhausted propose_claim : Disposition

pub record QueueDecision : Type 0 where
  pub task_id : String
  pub expected_revision : ℕ
  pub disposition : Disposition

abbrev pub lease_disposition : Option ℕ → ℕ → Disposition
lease_disposition none now = reconcile_outcome_unknown
lease_disposition (some expires) now =
    if leb expires now then reconcile_outcome_unknown else wait_active_lease

abbrev pub has_slot : ℕ → Disposition
has_slot zero = wait_capacity_exhausted
has_slot (suc n) = propose_claim

-- The branches for a row that is neither running nor at its end.
unfoldable pub queued_disposition : ℕ → ℕ → Row → Disposition
queued_disposition now slots r =
    if leb r.max_attempts r.attempts
    then reconcile_budget_exhausted
    else if ltb now r.created_at || ltb now r.not_before
    then wait_not_due
    else has_slot slots

unfoldable pub disposition_of : QueueStatus → ℕ → ℕ → Row → Disposition
unfolding queued_disposition
disposition_of completed now slots r = skip_terminal_state
disposition_of blocked now slots r = skip_terminal_state
disposition_of failed now slots r = skip_terminal_state
disposition_of running now slots r = lease_disposition r.lease_expires_at now
disposition_of queued now slots r = queued_disposition now slots r
disposition_of (unknown_status s) now slots r = queued_disposition now slots r

abbrev pub is_claim : Disposition → Bool
is_claim propose_claim = true
is_claim _ = false

abbrev pub slots_after : Disposition → ℕ → ℕ
slots_after propose_claim slots = slots - 1
slots_after _ slots = slots

-- The second loop of `plan_queue`.
unfoldable pub decide : ℕ → ℕ → List Row → List QueueDecision
unfolding disposition_of
decide now slots [] = []
decide now slots (r ∷ l) =
    let d = disposition_of r.status now slots r in
    (record { task_id = r.task_id; expected_revision = r.revision; disposition = d })
    ∷ decide now (slots_after d slots) l

-- `plan_queue`
unfoldable pub plan_queue :
    List QueueEntry → String → Timestamp → Value → Result (List QueueDecision)
unfolding instant_of validate_rows sort_rows running_count decide
plan_queue entries owner_id now capacity = do
  at ← instant_of now
  raise_if (is_blank owner_id) (value_error "owner_scope_required")
  slots ← seconds capacity "positive_capacity_required"
  raise_if (ltb slots 1) (value_error "positive_capacity_required")
  rows ← validate_rows owner_id [] [] entries
  ok (decide at (slots - running_count rows) (sort_rows rows))
