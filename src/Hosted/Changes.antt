-- ===== src/Hosted/Changes.antt =====
-- `save` and `reconcile_expired` of agent_core/hosted_queue.py: what they return, and what they send.
use keirin_ai_web.Prelude.{ℕ, ◌≤◌, String, ◌≡◌, refl, ap, not, nat_eq, string_eq, inl, inr}
use keirin_ai_web.Outcome.{ok, value_error}
use keirin_ai_web.Outcome.Pure.{Result-cases, Ensures-mono, ensured, raise_if}
use keirin_ai_web.Outcome.Method.{lift, Yields, bind-Yields}
use keirin_ai_web.Credentials.{pos}
use keirin_ai_web.Json.{Json, int}
use keirin_ai_web.Hosted.Forbidden.{IsClean}
use keirin_ai_web.Tasks.Model.{TaskSpec, validate_task}
use keirin_ai_web.Hosted.Model.{TaskModel, StoredState, show_state}
use keirin_ai_web.Hosted.Lease.{HostedQueueLease, valid_worker_id, equals_text}
use keirin_ai_web.Hosted.Transport.{Transport, request}
use keirin_ai_web.Hosted.Replies.{valid_lease_seconds, whole_from, check_saveable, clean_state}
use keirin_ai_web.Hosted.Queue.{save, reconcile_expired}
use keirin_ai_web.Hosted.Saves.{
  SaveFits, ReconcileFits, SaveFits-at, ReconcileFits-at, saved_lease-fits, reconciled_lease-fits,
  whole_from-lem, clean_state-lem,
}

module _ (m : TaskModel) {W : Type 0} (str : Json → String) (transport : Transport W) where
  save-Yields :
      (spec : TaskSpec Json) (state : StoredState m) (expected : ℕ) (worker_id : Json)
      (generation : ℕ) (lease_seconds : Json)
      → Yields
          (λ lease.
            SaveFits m state.status expected worker_id generation lease
            × (1 ≤ generation)
            × IsClean (show_state m state))
          (save m str transport spec state
            (int (pos expected))
            worker_id
            (int (pos generation))
            lease_seconds)
  unfolding save
  save-Yields spec state expected worker_id generation lease_seconds =
      bind-Yields _ (lift (validate_task spec)) _ (λ u s _.
        bind-Yields _ (lift (clean_state m spec state)) _ (λ saved s1 clean.
          bind-Yields _ (lift (check_saveable saved.status)) _ (λ u2 s2 _.
            bind-Yields _
              (lift (
                whole_from 0 (int (pos expected)) "expected_revision_must_be_non_negative_integer"))
              _
              (λ revision s3 whole.
                bind-Yields _
                  (lift
                    (raise_if (not (valid_worker_id worker_id)) (value_error "invalid_worker_id")))
                  _
                  (λ u4 s4 _.
                    bind-Yields _
                      (lift (whole_from 1 (int (pos generation)) "invalid_lease_generation")) _
                      (λ g s5 from_one.
                        bind-Yields _
                          (lift (
                            raise_if (not (valid_lease_seconds lease_seconds))
                              (value_error "invalid_lease_seconds")))
                          _
                          (λ u6 s6 _.
                            bind-Yields _ (request str transport "queue_save" _) _
                              (λ response s7 _ s8.
                                Ensures-mono _
                                  (λ lease.
                                    SaveFits m state.status expected worker_id generation lease
                                    × (1 ≤ generation)
                                    × IsClean (show_state m state))
                                  _
                                  (λ lease kept. (
                                    SaveFits-at m saved.status state.status revision expected
                                        worker_id g generation lease
                                        (ap (λ x. x.status)
                                          (clean_state-lem m spec state saved clean).0)
                                        (whole_from-lem m 0 expected revision _ whole).0
                                        (whole_from-lem m 1 generation g _ from_one).0 kept,
                                    (whole_from-lem m 1 generation g _ from_one).1,
                                    (clean_state-lem m spec state saved clean).1,
                                  ))
                                  (saved_lease-fits m spec saved revision worker_id g
                                    response)))))))))

  -- A save from a revision under a generation returns a lease with the next revision and the same generation,
  -- owned and fenced by the worker where the state saved is running, and released where it is not. The
  -- generation is at least one, and the state that was saved has no forbidden key.
  pub save-fits :
      (spec : TaskSpec Json) (state : StoredState m) (expected : ℕ) (worker_id : Json)
      (generation : ℕ) (lease_seconds : Json) (lease : HostedQueueLease m) (before : W)
      → (save m str transport spec state
          (int (pos expected))
          worker_id
          (int (pos generation))
          lease_seconds
          before).0
        ≡ ok lease
      → SaveFits m state.status expected worker_id generation lease
        × (1 ≤ generation)
        × IsClean (show_state m state)
  save-fits spec state expected worker_id generation lease_seconds lease before h =
      ensured _ _ lease (save-Yields spec state expected worker_id generation lease_seconds before)
        h

  reconcile_expired-Yields :
      (spec : TaskSpec Json) (state : StoredState m) (expected generation : ℕ)
      → Yields
          (ReconcileFits m expected generation)
          (reconcile_expired m str transport spec state (int (pos expected)) (int (pos generation)))
  unfolding reconcile_expired
  reconcile_expired-Yields spec state expected generation =
      bind-Yields _ (lift (validate_task spec)) _ (λ u s _.
        bind-Yields _ (lift (clean_state m spec state)) _ (λ saved s1 clean.
          bind-Yields _
            (lift (
              raise_if (not (equals_text saved.status "blocked"))
                (value_error "blocked_state_required")))
            _
            (λ u2 s2 _.
              bind-Yields _
                (lift (
                  whole_from 0 (int (pos expected))
                    "expected_revision_must_be_non_negative_integer"))
                _
                (λ revision s3 whole.
                  bind-Yields _
                    (lift (whole_from 1 (int (pos generation)) "invalid_lease_generation")) _
                    (λ g s5 from_one.
                      bind-Yields _ (request str transport "queue_reconcile_expired" _) _
                        (λ response s7 _ s8.
                          Ensures-mono _ (ReconcileFits m expected generation) _
                            (λ lease kept.
                              ReconcileFits-at m revision expected g generation lease
                                (whole_from-lem m 0 expected revision _ whole).0
                                (whole_from-lem m 1 generation g _ from_one).0 kept)
                            (reconciled_lease-fits m spec revision g response)))))))

  -- The reconciliation of an expired row returns a blocked lease without owner and expiry, with the next
  -- revision and the same generation.
  pub reconcile_expired-fits :
      (spec : TaskSpec Json) (state : StoredState m) (expected generation : ℕ)
      (lease : HostedQueueLease m) (before : W)
      → (reconcile_expired m str transport spec state
          (int (pos expected))
          (int (pos generation))
          before).0
        ≡ ok lease
      → ReconcileFits m expected generation lease
  reconcile_expired-fits spec state expected generation lease before h =
      ensured _ _ lease (reconcile_expired-Yields spec state expected generation before) h

  -- A state with a forbidden key never leaves: neither `save` nor `reconcile_expired` changes the world outside.
  pub forbidden-unsent :
      (spec : TaskSpec Json) (state : StoredState m) (revision worker_id generation seconds : Json)
      (before : W)
      → ¬ IsClean (show_state m state)
      → ((save m str transport spec state revision worker_id generation seconds before).1 ≡ before)
        × ((reconcile_expired m str transport spec state revision generation before).1 ≡ before)
  unfolding save reconcile_expired
  forbidden-unsent spec state revision worker_id generation seconds before unclean =
      elim (Result-cases (validate_task spec)) [
        | inr (e, p) ↦ (rw p refl, rw p refl)
        | inl (u, p) ↦ elim (Result-cases (clean_state m spec state)) [
          | inr (e, q) ↦ (rw (p, q) refl, rw (p, q) refl)
          | inl (saved, q) ↦ absurd (unclean ((clean_state-lem m spec state saved q).1))
        ]
      ]
