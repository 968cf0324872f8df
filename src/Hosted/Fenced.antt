-- ===== src/Hosted/Fenced.antt =====
-- What `_parse_lease` of agent_core/hosted_queue.py makes sure of.
use keirin_ai_web.Prelude.{
  ℕ, ◌≤◌, String, ◌≡◌, refl, sym, ap, ◌∙◌, true, not, ◌||◌, Option, none, some, ltb, ◌==◌, nat_eq,
  string_eq, inl, inr, arith, eq_iff, Bool-cases,
}
use keirin_ai_web.Outcome.{Raised, ok, queue_integrity}
use keirin_ai_web.Outcome.Pure.{Ensures, bind-Ensures, Ensures-mono, ensured, raise_if}
use keirin_ai_web.Json.{Json, Fields, text, obj, end, field, get, is_object}
use keirin_ai_web.Hosted.Forbidden.{forbidden_path, IsClean}
use keirin_ai_web.Hosted.Clean.{forbidden_path-exact, is_clear-none}
use keirin_ai_web.Tasks.Model.{TaskSpec}
use keirin_ai_web.Hosted.Model.{TaskModel, StoredState, read_state}
use keirin_ai_web.Hosted.Lease.{
  RowStatus, running, row_status, HostedQueueLease, valid_worker_id, is_worker_id, parse_int,
  filled_text, text_or_none, is_clear, equals_text, check_lease, check_task, lease_of, parse_fields,
  parse_lease, or_integrity, differs, expected_state_status,
}

-- The lease of a row: of a running one it has an owner and an expiry, and no other row has them.
abbrev pub OwnerFits : RowStatus → Option String → ℕ → Option String → Type 0
OwnerFits running (some owner) generation (some expires) =
    (is_worker_id owner ≡ true) × (1 ≤ generation)
OwnerFits running owner generation expires = ⊥
OwnerFits status owner generation expires = (owner ≡ none) × (expires ≡ none)

check_lease-OwnerFits :
    (status : RowStatus) (owner : Json) (generation : ℕ) (expires : Json)
    → check_lease status owner generation expires ≡ ok tt
    → OwnerFits status (text_or_none owner) generation (text_or_none expires)
unfolding check_lease valid_worker_id filled_text
check_lease-OwnerFits running (text s) generation (text t) h = ground arith
check_lease-OwnerFits running owner generation expires h = ground arith
check_lease-OwnerFits status owner generation expires h = ground arith

module _ (m : TaskModel) where
  -- A lease that the client takes from a row.
  pub record LeaseFits (lease : HostedQueueLease m) : Type 0 where
    pub owner_fits :
        OwnerFits lease.status lease.lease_owner lease.lease_generation lease.lease_expires_at
    pub within_budget : lease.attempt_count ≤ lease.max_attempts
    pub same_spec_id : lease.spec.task_id ≡ lease.task_id
    pub same_state_id : lease.state.task_id ≡ lease.task_id

  -- The task and its state in a row have no forbidden key.
  abbrev pub RowIsClean : Json → Type 0
  RowIsClean (obj value) =
      IsClean (obj (field "spec" (get "spec" value) (field "state" (get "state" value) end)))
  RowIsClean v = ⊥

  abbrev Taken : String → RowStatus → TaskSpec Json → StoredState m → HostedQueueLease m → Type 0
  Taken task_id status spec state lease =
      OwnerFits lease.status lease.lease_owner lease.lease_generation lease.lease_expires_at
      × (lease.attempt_count ≤ lease.max_attempts)
      × (lease.task_id ≡ task_id)
      × (lease.spec ≡ spec)
      × (lease.state ≡ state)

  lease_of-Taken :
      (value : Fields) (task_id : String) (status : RowStatus) (spec : TaskSpec Json)
      (state : StoredState m)
      → Ensures (Taken task_id status spec state) (lease_of m value task_id status spec state)
  unfolding lease_of
  lease_of-Taken value task_id status spec state =
      bind-Ensures _ (parse_int (get "revision" value) 0 "invalid_queue_revision") _ (λ revision _.
        bind-Ensures _ (parse_int (get "attempt_count" value) 0 "invalid_attempt_count") _
          (λ attempts _.
            bind-Ensures _ (parse_int (get "max_attempts" value) 1 "invalid_max_attempts") _
              (λ budget _.
                bind-Ensures _
                  (parse_int (get "lease_generation" value) 0 "invalid_lease_generation") _
                  (λ generation _.
                    bind-Ensures _
                      (raise_if (ltb budget attempts) (queue_integrity "attempt_budget_exceeded")) _
                      (λ u within.
                        bind-Ensures _
                          (filled_text (get "idempotency_key" value)
                            "invalid_queue_idempotency_key")
                          _
                          (λ key _.
                            bind-Ensures _
                              (filled_text (get "not_before" value) "invalid_not_before") _
                              (λ not_before _.
                                bind-Ensures _
                                  (check_lease status (get "lease_owner" value) generation
                                    (get "lease_expires_at" value))
                                  _
                                  (λ v fits. (
                                    check_lease-OwnerFits status _ generation _ fits,
                                    ground arith,
                                    refl,
                                    refl,
                                    refl,
                                  )))))))))

  abbrev TaskFits : Fields → String → TaskSpec Json → StoredState m → Type 0
  TaskFits value task_id spec state =
      (spec.task_id ≡ task_id)
      × (state.task_id ≡ task_id)
      × IsClean (obj (field "spec" (get "spec" value) (field "state" (get "state" value) end)))

  pub raise_if-IsClean :
      (v : Json) (e : Raised)
      → Ensures (λ u. IsClean v) (raise_if (not (is_clear (forbidden_path v))) e)
  raise_if-IsClean v e = elim (Bool-cases (is_clear (forbidden_path v))) [
    | inl p ↦ rw p ((forbidden_path-exact v).0 (is_clear-none _ p))
    | inr p ↦ rw p tt
  ]

  check_task-TaskFits :
      (value : Fields) (task_id : String) (status : RowStatus) (spec : TaskSpec Json)
      (state : StoredState m) (expected : Option (TaskSpec Json))
      → Ensures
          (λ u. TaskFits value task_id spec state)
          (check_task m value task_id status spec state expected)
  unfolding check_task
  check_task-TaskFits value task_id status spec state expected =
      bind-Ensures _
        (raise_if (not (spec.task_id == task_id) || not (state.task_id == task_id))
          (queue_integrity "queue_task_identity_mismatch"))
        _
        (λ u ids.
          bind-Ensures _ (raise_if (differs m spec expected) (queue_integrity "task_spec_changed"))
            _
            (λ u1 _.
              bind-Ensures _
                (raise_if
                  (not (equals_text (get "spec_fingerprint" value) (m.fingerprint spec))
                    || not (equals_text state.spec_fingerprint (m.fingerprint spec)))
                  (queue_integrity "queue_spec_fingerprint_mismatch"))
                _
                (λ u2 _.
                  bind-Ensures _
                    (raise_if (not (equals_text state.status (expected_state_status status)))
                      (queue_integrity "queue_state_status_mismatch"))
                    _
                    (λ u3 _.
                      Ensures-mono _ (λ u4. TaskFits value task_id spec state) _
                        (λ u4 clean. (grind (arith, eq_iff), grind (arith, eq_iff), clean))
                        (raise_if-IsClean
                          (obj (
                            field "spec" (get "spec" value)
                              (field "state" (get "state" value) end)))
                          (queue_integrity "queue_record_contains_forbidden_secret"))))))

  fitting :
      (value : Fields) (task_id : String) (status : RowStatus) (spec : TaskSpec Json)
      (state : StoredState m) (lease : HostedQueueLease m)
      → Taken task_id status spec state lease
      → TaskFits value task_id spec state
      → LeaseFits lease × RowIsClean (obj value)
  fitting value task_id status spec state lease (owner, budget, id, same, same_state)
        (p, q, clean) =
      (
        record {
          owner_fits = owner;
          within_budget = budget;
          same_spec_id = ap (λ s. s.task_id) same ∙ p ∙ sym id;
          same_state_id = ap (λ s. s.task_id) same_state ∙ q ∙ sym id;
        },
        clean,
      )

  pub parse_fields-fits :
      (value : Fields) (expected : Option (TaskSpec Json))
      → Ensures (λ lease. LeaseFits lease × RowIsClean (obj value)) (parse_fields m value expected)
  unfolding parse_fields
  parse_fields-fits value expected =
      bind-Ensures _ (filled_text (get "task_id" value) "invalid_queue_task_id") _ (λ task_id _.
        bind-Ensures _ (row_status (get "status" value)) _ (λ status _.
          bind-Ensures _
            (raise_if (not (is_object (get "spec" value)) || not (is_object (get "state" value)))
              (queue_integrity "queue_spec_state_required"))
            _
            (λ u _.
              bind-Ensures _ (or_integrity (m.read_spec (get "spec" value)) "invalid_queue_model") _
                (λ spec _.
                  bind-Ensures _
                    (or_integrity (read_state m (get "state" value)) "invalid_queue_model") _
                    (λ state _.
                      bind-Ensures _ (check_task m value task_id status spec state expected) _
                        (λ u1 checked.
                          Ensures-mono _ (λ lease. LeaseFits lease × RowIsClean (obj value)) _
                            (λ lease taken. fitting value task_id status spec state lease taken (
                              ensured _ _ u1
                                (check_task-TaskFits value task_id status spec state expected)
                                checked))
                            (lease_of-Taken value task_id status spec state)))))))

  -- A row that the client takes for a lease has no forbidden key in its task and state, the lease's task and
  -- state have its task's name, no more attempts are counted than allowed, and a running row has a valid owner,
  -- a generation of at least one and an expiry, where any other has neither owner nor expiry.
  pub parse_lease-fits :
      (v : Json) (expected : Option (TaskSpec Json)) (lease : HostedQueueLease m)
      → parse_lease m v expected ≡ ok lease
      → LeaseFits lease × RowIsClean v
  unfolding parse_lease
  parse_lease-fits (obj value) expected lease h =
      ensured _ (parse_fields m value expected) lease (parse_fields-fits value expected) h
  parse_lease-fits v expected lease h = absurd (ground arith)
