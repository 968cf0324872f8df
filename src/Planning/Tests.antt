-- ===== src/Planning/Tests.antt =====
-- A queue with a running row and two waiting ones, of which the capacity has room for one.
use keirin_ai_web.Prelude.{
  ◌≡◌, refl, ℕ, ◌-◌, ◌≤◌, String, List, [], ◌∷◌, some, none, arith, string_eq, Option,
}
use keirin_ai_web.Prelude.Text.{is_blank, is_space}
use keirin_ai_web.Outcome.{ok}
use keirin_ai_web.Credentials.{int, pos, seconds}
use keirin_ai_web.Planning.Queue.{
  aware, instant_of, Lease, no_lease, until, QueueStatus, queued, running, QueueEntry, Row,
  QueueDecision, Disposition, wait_active_lease, propose_claim, wait_capacity_exhausted,
  validate_lease, validate_entry, validate_rows, sort_rows, running_count, plan_queue,
}
use keirin_ai_web.Planning.Claims.{
  claimed_ids, take, eligible_ids, length, claims_are_first_eligible,
}

abbrev entry : String → QueueStatus → ℕ → Lease → QueueEntry
entry task_id status created_at lease = record {
  owner_id = "owner";
  task_id = task_id;
  idempotency_key = task_id;
  revision = int (pos 1);
  status = status;
  created_at = aware created_at;
  not_before = aware created_at;
  attempts = int (pos 0);
  max_attempts = int (pos 1);
  lease_expires_at = lease;
}

abbrev entries : List QueueEntry
entries =
    entry "late" queued 20 no_lease
    ∷ entry "busy" running 5 (until (aware 200))
    ∷ entry "early" queued 10 no_lease
    ∷ []

abbrev row : String → QueueStatus → ℕ → Option ℕ → Row
row task_id status created_at lease = record {
  task_id = task_id;
  revision = 1;
  status = status;
  created_at = created_at;
  not_before = created_at;
  attempts = 0;
  max_attempts = 1;
  lease_expires_at = lease;
}

abbrev rows : List Row
rows = row "late" queued 20 none ∷ row "busy" running 5 (some 200) ∷ row "early" queued 10 none ∷ []

validate_rows-entries : validate_rows "owner" [] [] entries ≡ ok rows
unfolding validate_rows validate_entry validate_lease instant_of seconds is_blank is_space
validate_rows-entries = refl

abbrev decision : String → Disposition → QueueDecision
decision task_id d = record { task_id = task_id; expected_revision = 1; disposition = d }

abbrev plan : List QueueDecision
plan =
    decision "busy" wait_active_lease
    ∷ decision "early" propose_claim
    ∷ decision "late" wait_capacity_exhausted
    ∷ []

claims_are_first_eligible_example :
    (p : List QueueDecision) × (plan_queue entries "owner" (aware 100) (int (pos 2)) ≡ ok p)
    × (claimed_ids p ≡ take (2 - running_count rows) (eligible_ids 100 (sort_rows rows)))
    × (length (claimed_ids p) ≤ 2 - running_count rows)
unfolding instant_of seconds is_blank is_space
claims_are_first_eligible_example =
    claims_are_first_eligible entries "owner" (aware 100) (int (pos 2)) 100 2 rows refl refl refl
      (omega arith) validate_rows-entries
