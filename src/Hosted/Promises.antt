-- ===== src/Hosted/Promises.antt =====
-- The leases that `claim` of agent_core/hosted_queue.py hands out.
use keirin_ai_web.Prelude.{
  ℕ, zero, suc, ◌≤◌, String, ◌≡◌, refl, true, not, ◌||◌, Option, none, some, ltb, nat_eq, string_eq,
  inl, inr, arith, Bool-cases,
}
use keirin_ai_web.Outcome.{ok, queue_integrity, value_error}
use keirin_ai_web.Outcome.Pure.{Ensures, bind-Ensures, ensured, both-pass, raise_if}
use keirin_ai_web.Outcome.Method.{lift, Yields, bind-Yields}
use keirin_ai_web.Json.{Json, Fields, obj, end, field, get}
use keirin_ai_web.Hosted.Model.{TaskModel}
use keirin_ai_web.Hosted.Lease.{RowStatus, running, HostedQueueLease, valid_worker_id, parse_lease}
use keirin_ai_web.Hosted.Transport.{Transport, request}
use keirin_ai_web.Hosted.Replies.{
  valid_lease_seconds, is_running, owned_by, claimed_lease, is_unclaimed, is_true,
}
use keirin_ai_web.Hosted.Fenced.{LeaseFits, parse_lease-fits}
use keirin_ai_web.Hosted.Queue.{claim}

module _ (m : TaskModel) where
  -- A lease that `claim` hands out to a worker.
  pub record ClaimFits (worker_id : Json) (lease : HostedQueueLease m) : Type 0 where
    pub fits : LeaseFits m lease
    pub runs : lease.status ≡ running
    pub owned : owned_by lease.lease_owner worker_id ≡ true
    pub saved_once : 1 ≤ lease.revision
    pub attempted : 1 ≤ lease.attempt_count

  abbrev pub ClaimedFits : Json → Option (HostedQueueLease m) → Type 0
  ClaimedFits worker_id none = Unit
  ClaimedFits worker_id (some lease) = ClaimFits worker_id lease

  running-lem : (status : RowStatus) → is_running status ≡ true → status ≡ running
  running-lem running h = refl
  running-lem status h = absurd (ground arith)

  counted :
      (a b : ℕ) (u : Unit {0})
      → raise_if (ltb a 1 || ltb b 1) (queue_integrity "queue_claim_counters_not_advanced") ≡ ok u
      → (1 ≤ a) × (1 ≤ b)
  counted zero b u h = absurd (ground arith)
  counted (suc a) zero u h = absurd (ground arith)
  counted (suc a) (suc b) u h = (omega arith, omega arith)

  claimed_lease-fits :
      (worker_id : Json) (response : Fields)
      → Ensures (ClaimedFits worker_id) (claimed_lease m worker_id response)
  unfolding claimed_lease
  claimed_lease-fits worker_id response =
      elim (Bool-cases (is_unclaimed (get "claimed" response) (get "lease" response))) [
        | inl p ↦ rw p tt
        | inr p ↦ rw p (
            bind-Ensures _
              (raise_if (not (is_true (get "claimed" response)))
                (queue_integrity "queue_claim_flag_mismatch"))
              _
              (λ u _. bind-Ensures _ (parse_lease m (get "lease" response) none) _ (λ lease parsed.
                bind-Ensures _
                  (raise_if
                    (not (is_running lease.status) || not (owned_by lease.lease_owner worker_id))
                    (queue_integrity "queue_claim_identity_mismatch"))
                  _
                  (λ u1 own.
                    bind-Ensures _
                      (raise_if (ltb lease.revision 1 || ltb lease.attempt_count 1)
                        (queue_integrity "queue_claim_counters_not_advanced"))
                      _
                      (λ u2 counts. record {
                        fits = (parse_lease-fits m (get "lease" response) none lease parsed).0;
                        runs = running-lem lease.status (both-pass _ _ _ u1 own).0;
                        owned = (both-pass _ _ _ u1 own).1;
                        saved_once = (counted lease.revision lease.attempt_count u2 counts).0;
                        attempted = (counted lease.revision lease.attempt_count u2 counts).1;
                      })))))
      ]

module _ (m : TaskModel) {W : Type 0} (str : Json → String) (transport : Transport W) where
  claim-Yields :
      (worker_id lease_seconds : Json)
      → Yields (ClaimedFits m worker_id) (claim m str transport worker_id lease_seconds)
  unfolding claim
  claim-Yields worker_id lease_seconds =
      bind-Yields _
        (lift (raise_if (not (valid_worker_id worker_id)) (value_error "invalid_worker_id"))) _
        (λ u s _.
          bind-Yields _
            (lift (
              raise_if (not (valid_lease_seconds lease_seconds))
                (value_error "invalid_lease_seconds")))
            _
            (λ u1 s1 _.
              bind-Yields _
                (request str transport "queue_claim"
                  (obj (field "worker_id" worker_id (field "lease_seconds" lease_seconds end))))
                _ (λ response s2 _ s3. claimed_lease-fits m worker_id response)))

  -- A lease that a claim returns is running, is owned by the worker that claimed, was saved and attempted
  -- at least once, and fits its task.
  pub claim-fits :
      (worker_id lease_seconds : Json) (lease : HostedQueueLease m) (before : W)
      → (claim m str transport worker_id lease_seconds before).0 ≡ ok (some lease)
      → ClaimFits m worker_id lease
  claim-fits worker_id lease_seconds lease before h =
      ensured (ClaimedFits m worker_id) _ (some lease) (claim-Yields worker_id lease_seconds before)
        h
