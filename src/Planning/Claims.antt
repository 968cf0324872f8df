-- ===== src/Planning/Claims.antt =====
-- The claims that `plan_queue` of agent_core/queue_planner.py proposes: the first rows that are due, in
-- order, as many as the capacity has room for.
use mathlib.Core.Path.{subst}
use keirin_ai_web.Prelude.{
  ◌≡◌, refl, sym, ℕ, zero, suc, ◌-◌, ◌≤◌, String, Bool, true, false, ◌&&◌, List, [], ◌∷◌, ltb, leb,
  nat_eq, string_eq, arith, if◌then◌else◌,
}
use keirin_ai_web.Prelude.Text.{is_blank}
use keirin_ai_web.Outcome.{ok}
use keirin_ai_web.Credentials.{Value, seconds}
use keirin_ai_web.Planning.Queue.{
  Timestamp, instant_of, QueueStatus, queued, running, blocked, completed, failed, unknown_status,
  Row, QueueEntry, QueueDecision, validate_rows, sort_rows, running_count, is_claim,
  queued_disposition, disposition_of, Disposition, decide, slots_after, plan_queue,
}

-- What makes a row one to claim: it waits, has attempts left, and is due.
abbrev pub is_waiting : QueueStatus → Bool
is_waiting queued = true
is_waiting (unknown_status s) = true
is_waiting _ = false

abbrev pub is_eligible : ℕ → Row → Bool
is_eligible now r =
    is_waiting r.status
    && ltb r.attempts r.max_attempts
    && leb r.created_at now
    && leb r.not_before now

abbrev pub eligible_ids : ℕ → List Row → List String
eligible_ids now [] = []
eligible_ids now (r ∷ l) =
    let rest = eligible_ids now l in if is_eligible now r then r.task_id ∷ rest else rest

abbrev pub claimed_ids : List QueueDecision → List String
claimed_ids [] = []
claimed_ids (d ∷ l) =
    let rest = claimed_ids l in if is_claim d.disposition then d.task_id ∷ rest else rest

abbrev pub take {ℓ} : {A : Type ℓ} → ℕ → List A → List A
take zero l = []
take (suc n) [] = []
take (suc n) (x ∷ l) = x ∷ take n l

abbrev pub length {ℓ} : {A : Type ℓ} → List A → ℕ
length [] = 0
length (x ∷ l) = suc (length l)

length-take {ℓ} : {A : Type ℓ} (n : ℕ) (l : List A) → length (take n l) ≤ n
length-take zero l = omega arith
length-take (suc n) [] = omega arith
length-take (suc n) (x ∷ l) = omega (arith, length-take n l)

-- Where no slot is left, nothing is claimed.
claim_needs_slot :
    (t : QueueStatus) (now : ℕ) (r : Row) → is_claim (disposition_of t now 0 r) ≡ false
unfolding disposition_of queued_disposition
claim_needs_slot queued now r = ground arith
claim_needs_slot running now r = ground arith
claim_needs_slot blocked now r = refl
claim_needs_slot completed now r = refl
claim_needs_slot failed now r = refl
claim_needs_slot (unknown_status s) now r = ground arith

claim_is_eligible :
    (t : QueueStatus) (now n : ℕ) (r : Row)
    → is_claim (disposition_of t now (suc n) r) ≡ (
        is_waiting t
        && ltb r.attempts r.max_attempts
        && leb r.created_at now
        && leb r.not_before now)
unfolding disposition_of queued_disposition
claim_is_eligible queued now n r = ground arith
claim_is_eligible running now n r = ground arith
claim_is_eligible blocked now n r = refl
claim_is_eligible completed now n r = refl
claim_is_eligible failed now n r = refl
claim_is_eligible (unknown_status s) now n r = ground arith

slots_after-claim : (d : Disposition) (n : ℕ) → is_claim d ≡ true → slots_after d (suc n) ≡ n
slots_after-claim d n h = ground arith

slots_after-other : (d : Disposition) (n : ℕ) → is_claim d ≡ false → slots_after d n ≡ n
slots_after-other d n h = ground arith

decide-full : (now : ℕ) (l : List Row) → claimed_ids (decide now 0 l) ≡ []
unfolding decide
decide-full now [] = refl
decide-full now (r ∷ l) = ground (
  arith,
  claim_needs_slot r.status now r,
  slots_after-other (disposition_of r.status now 0 r) 0,
  decide-full now l,
)

-- The claims of the loop are the first rows to claim, up to the slots that are left.
decide-claims :
    (now slots : ℕ) (l : List Row)
    → claimed_ids (decide now slots l) ≡ take slots (eligible_ids now l)
unfolding decide
decide-claims now zero l = decide-full now l
decide-claims now (suc n) [] = refl
decide-claims now (suc n) (r ∷ l) = ground (
  arith,
  claim_is_eligible r.status now n r,
  slots_after-claim (disposition_of r.status now (suc n) r) n,
  slots_after-other (disposition_of r.status now (suc n) r) (suc n),
  decide-claims now n l,
  decide-claims now (suc n) l,
)

claims_within : (now slots : ℕ) (l : List Row) → length (claimed_ids (decide now slots l)) ≤ slots
claims_within now slots l =
    subst (λ ids. length ids ≤ slots) (sym (decide-claims now slots l))
      (length-take slots (eligible_ids now l))

-- Where the time is aware, the owner not blank, the capacity positive and the rows valid, the planner
-- makes a plan, and the tasks that the plan proposes to claim are the first in the order of the rows
-- that wait, have attempts left and are due, up to the capacity that running rows leave, and are no
-- more than that capacity.
pub claims_are_first_eligible :
    (entries : List QueueEntry) (owner_id : String) (now : Timestamp) (capacity : Value) (at c : ℕ)
    (rows : List Row)
    → instant_of now ≡ ok at
    → is_blank owner_id ≡ false
    → seconds capacity "positive_capacity_required" ≡ ok c
    → 1 ≤ c
    → validate_rows owner_id [] [] entries ≡ ok rows
    → (plan : List QueueDecision) × (plan_queue entries owner_id now capacity ≡ ok plan)
      × (claimed_ids plan ≡ take (c - running_count rows) (eligible_ids at (sort_rows rows)))
      × (length (claimed_ids plan) ≤ c - running_count rows)
unfolding plan_queue
claims_are_first_eligible entries owner_id now capacity at c rows h i j k m = (
  decide at (c - running_count rows) (sort_rows rows),
  ground (arith, h, i, j, m),
  decide-claims at _ (sort_rows rows),
  claims_within at _ (sort_rows rows),
)
