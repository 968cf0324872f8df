-- ===== src/Hosted/Saves.antt =====
-- The rows that `save` and `reconcile_expired` of agent_core/hosted_queue.py take for an answer.
use mathlib.Core.Path.{subst}
use keirin_ai_web.Prelude.{
  ℕ, ◌+◌, ◌≤◌, String, ◌≡◌, refl, sym, ap, ◌∙◌, Bool, true, false, not, none, some, ltb, ◌==◌,
  nat_eq, string_eq, inl, inr, arith, nat_beq_iff, Bool-cases,
}
use keirin_ai_web.Outcome.{Raised, ok, queue_integrity}
use keirin_ai_web.Outcome.Pure.{
  bind-ok, ok-injective, Ensures, bind-Ensures, ensured, must, both-pass, raise_if,
}
use keirin_ai_web.Credentials.{pos}
use keirin_ai_web.Json.{Json, Fields, int, get}
use keirin_ai_web.Hosted.Forbidden.{forbidden_path, IsClean}
use keirin_ai_web.Tasks.Model.{TaskSpec}
use keirin_ai_web.Hosted.Model.{TaskModel, StoredState, show_state, copy_state, copy_state-same}
use keirin_ai_web.Hosted.Lease.{
  RowStatus, blocked, HostedQueueLease, is_clear, equals_text, parse_lease,
}
use keirin_ai_web.Hosted.Replies.{
  whole_from, is_blocked, owned_by, is_fenced, clean_state, check_owner, check_saved, saved_lease,
  check_reconciled, reconciled_lease,
}
use keirin_ai_web.Hosted.Clean.{is_clear-none}
use keirin_ai_web.Hosted.Fenced.{LeaseFits, parse_lease-fits, raise_if-IsClean}

module _ (m : TaskModel) where
  pub blocked-lem : (status : RowStatus) → is_blocked status ≡ true → status ≡ blocked
  blocked-lem blocked h = refl
  blocked-lem status h = absurd (ground arith)

  equal : (a b : ℕ) (e : Raised) (u : Unit {0}) → raise_if (not (a == b)) e ≡ ok u → a ≡ b
  equal a b e u h = elim (Bool-cases (a == b)) [
    | inl p ↦ (nat_beq_iff a b).0 p
    | inr p ↦ absurd (ground arith)
  ]

  pub whole_from-lem :
      (minimum n k : ℕ) (e : String)
      → whole_from minimum (int (pos n)) e ≡ ok k
      → (k ≡ n) × (minimum ≤ n)
  unfolding whole_from
  whole_from-lem minimum n k e h = elim (Bool-cases (ltb n minimum)) [
    | inl p ↦ absurd (ground arith)
    | inr p ↦ (ground arith, ground arith)
  ]

  pub clean_state-lem :
      (spec : TaskSpec Json) (state saved : StoredState m)
      → clean_state m spec state ≡ ok saved
      → (saved ≡ state) × IsClean (show_state m state)
  unfolding clean_state
  clean_state-lem spec state saved h =
      let (d, c, r) = bind-ok (copy_state m state) _ saved h in
      let (u, p, r1) =
        bind-ok
          (raise_if (not (d.task_id == spec.task_id)) (queue_integrity "task_state_id_mismatch")) _
          saved r in
      let (u1, q, r2) =
        bind-ok
          (raise_if (not (equals_text d.spec_fingerprint (m.fingerprint spec)))
            (queue_integrity "task_spec_changed"))
          _ saved r1 in
      let (u2, f, r3) =
        bind-ok
          (raise_if (not (is_clear (forbidden_path (show_state m d))))
            (queue_integrity "state_contains_forbidden_secret"))
          _ saved r2 in
      let same = copy_state-same m state d c in
      (
        sym (ok-injective d saved r3) ∙ same,
        subst (λ x. IsClean (show_state m x)) same
            (ensured (λ u. IsClean (show_state m d)) _ u2 (raise_if-IsClean m (show_state m d) _)
              f),
      )

  -- The owner of a row that came back: kept of a running one, and else cleared.
  abbrev pub OwnerKept : Bool → Json → HostedQueueLease m → Type 0
  OwnerKept true worker_id lease =
      (owned_by lease.lease_owner worker_id ≡ true) × (is_fenced m lease ≡ true)
  OwnerKept false worker_id lease = (lease.lease_owner ≡ none) × (lease.lease_expires_at ≡ none)

  check_owner-kept :
      (runs : Bool) (worker_id : Json) (lease : HostedQueueLease m) (u : Unit {0})
      → check_owner m runs worker_id lease ≡ ok u
      → OwnerKept runs worker_id lease
  unfolding check_owner
  check_owner-kept true worker_id lease u h = both-pass _ _ _ u h
  check_owner-kept false worker_id lease u h =
      let (p, q) = both-pass _ _ _ u h in
      (is_clear-none lease.lease_owner p, is_clear-none lease.lease_expires_at q)

  -- A lease that comes back from the save of a row.
  pub record SaveFits (status : Json) (revision : ℕ) (worker_id : Json) (generation : ℕ)
      (lease : HostedQueueLease m) : Type 0 where
    pub fits : LeaseFits m lease
    pub next : lease.revision ≡ revision + 1
    pub same_generation : lease.lease_generation ≡ generation
    pub kept : OwnerKept (equals_text status "running") worker_id lease

  pub saved_lease-fits :
      (spec : TaskSpec Json) (state : StoredState m) (revision : ℕ) (worker_id : Json)
      (generation : ℕ) (response : Fields)
      → Ensures
          (SaveFits state.status revision worker_id generation)
          (saved_lease m spec state revision worker_id generation response)
  unfolding saved_lease check_saved
  saved_lease-fits spec state revision worker_id generation response =
      bind-Ensures _ (parse_lease m (get "lease" response) (some spec)) _ (λ lease parsed.
        bind-Ensures _ (check_saved m state.status revision worker_id generation lease) _ (λ u h.
          let (u1, p, r) = bind-ok _ _ u h in
          let (u2, q, r2) = bind-ok _ _ u r in
          record {
            fits = (parse_lease-fits m (get "lease" response) (some spec) lease parsed).0;
            next = equal (lease.revision) (revision + 1) _ u1 p;
            same_generation = equal lease.lease_generation generation _ u2 q;
            kept = check_owner-kept (equals_text state.status "running") worker_id lease u r2;
          }))

  -- A lease that comes back from the reconciliation of an expired row.
  pub record ReconcileFits (revision generation : ℕ) (lease : HostedQueueLease m) : Type 0 where
    pub fits : LeaseFits m lease
    pub blocks : lease.status ≡ blocked
    pub next : lease.revision ≡ revision + 1
    pub same_generation : lease.lease_generation ≡ generation
    pub cleared : (lease.lease_owner ≡ none) × (lease.lease_expires_at ≡ none)

  pub reconciled_lease-fits :
      (spec : TaskSpec Json) (revision generation : ℕ) (response : Fields)
      → Ensures
          (ReconcileFits revision generation)
          (reconciled_lease m spec revision generation response)
  unfolding reconciled_lease check_reconciled
  reconciled_lease-fits spec revision generation response =
      bind-Ensures (ReconcileFits revision generation)
        (parse_lease m (get "lease" response) (some spec)) _
        (λ lease parsed.
          bind-Ensures (ReconcileFits revision generation)
            (check_reconciled m revision generation lease) _
            (λ u h.
              let (u1, b, r1) = bind-ok _ _ u h in
              let (u2, p, r2) = bind-ok _ _ u r1 in
              let (u3, q, r3) = bind-ok _ _ u r2 in
              record {
                fits = (parse_lease-fits m (get "lease" response) (some spec) lease parsed).0;
                blocks = blocked-lem lease.status (must _ _ u1 b);
                next = equal (lease.revision) (revision + 1) _ u2 p;
                same_generation = equal lease.lease_generation generation _ u3 q;
                cleared =
                    (let (o, x) = both-pass _ _ _ u r3 in
                      (is_clear-none lease.lease_owner o, is_clear-none lease.lease_expires_at x));
              }))

  pub SaveFits-at :
      (status other : Json) (n k : ℕ) (worker_id : Json) (g h : ℕ) (lease : HostedQueueLease m)
      → status ≡ other
      → n ≡ k
      → g ≡ h
      → SaveFits status n worker_id g lease
      → SaveFits other k worker_id h lease
  SaveFits-at status other n k worker_id g h lease e p q kept = record {
    fits = kept.fits;
    next = kept.next ∙ ap (λ i. i + 1) p;
    same_generation = kept.same_generation ∙ q;
    kept = subst (λ x. OwnerKept (equals_text x "running") worker_id lease) e kept.kept;
  }

  pub ReconcileFits-at :
      (n k g h : ℕ) (lease : HostedQueueLease m)
      → n ≡ k
      → g ≡ h
      → ReconcileFits n g lease
      → ReconcileFits k h lease
  ReconcileFits-at n k g h lease p q kept = record {
    fits = kept.fits;
    blocks = kept.blocks;
    next = kept.next ∙ ap (λ i. i + 1) p;
    same_generation = kept.same_generation ∙ q;
    cleared = kept.cleared;
  }
