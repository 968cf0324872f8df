-- ===== src/Tasks/Reconciling.antt =====
-- `reconcile_blocked_step` of agent_core/store.py, and what it means for the next run.
use keirin_ai_web.Prelude.{
  Bool, inl, inr, ap, ◌∙◌, String, ◌≡◌, ◌≢◌, refl, true, false, some, List, [], ◌∷◌, ◌++◌, ℕ,
  string_eq, nat_eq, arith, eq_iff, contains, contains-append_last,
}
use keirin_ai_web.Prelude.Dict.{Dict, lookup, insert, remove, lookup-insert_self}
use keirin_ai_web.Outcome.{Result, ok, err}
use keirin_ai_web.Outcome.Pure.{Result-cases, ◌>>◌}
use keirin_ai_web.Tasks.Model.{
  TaskState, blocked, pending, ArtifactUpdate, Resolution, not_applied, applied_and_verified,
  needs_manual_action, no_repeats,
}
use keirin_ai_web.Tasks.Artifacts.{apply_artifact_updates}
use keirin_ai_web.Tasks.Store.{
  Disk, add_completed, resolve, load_state, check_loaded, task_lock, reconciled_state,
  write_reconciled, reconcile_blocked_step, reconciliation_record,
}
use keirin_ai_web.Tasks.Runner.Entry.{unresolved}

abbrev pub keys : {V : Type 0} → Dict String V → List String
keys [] = []
keys ((k, v) ∷ d) = k ∷ keys d

unresolved-keys :
    (a : String) (c : List String) (d : Dict String ℕ)
    → contains a (keys d) ≡ false
    → contains a (unresolved c d) ≡ false
unfolding unresolved
unresolved-keys a c [] h = refl
unresolved-keys a c ((k, n) ∷ d) h = ground (arith, unresolved-keys a c d)

unresolved-remove :
    (a : String) (c : List String) (d : Dict String ℕ)
    → no_repeats (keys d) ≡ true
    → contains a (unresolved c (remove a d)) ≡ false
unfolding unresolved no_repeats
unresolved-remove a c [] h = refl
unresolved-remove a c ((k, n) ∷ d) h =
    ground
      (arith, eq_iff a k, unresolved-remove a c d, unresolved-keys a c d, unresolved-keys k c d)

unresolved-completed :
    (a : String) (c : List String) (d : Dict String ℕ)
    → contains a c ≡ true
    → contains a (unresolved c d) ≡ false
unfolding unresolved
unresolved-completed a c [] h = refl
unresolved-completed a c ((k, n) ∷ d) h = ground (arith, eq_iff a k, unresolved-completed a c d)

contains-add_completed : (a : String) (c : List String) → contains a (add_completed a c) ≡ true
contains-add_completed a c = ground (arith, contains-append_last a c)

resolved_step :
    (a : String) (r : Resolution) (s : TaskState)
    → r ≢ needs_manual_action
    → no_repeats (keys s.attempts) ≡ true
    → ((resolve r a s).status ≡ pending)
      × (contains a (unresolved (resolve r a s).completed_steps (resolve r a s).attempts) ≡ false)
unfolding resolve
resolved_step a not_applied s h k = (refl, unresolved-remove a s.completed_steps s.attempts k)
resolved_step a applied_and_verified s h k = (
  refl,
  unresolved-completed a (add_completed a s.completed_steps) s.attempts
      (contains-add_completed a s.completed_steps),
)
resolved_step a needs_manual_action s h k = absurd (h refl)

-- The state that is saved comes from a blocked one, with the attempts that were saved.
reconciled_state-from :
    (task_id step_id : String) (r : Resolution) (note : String) (updates : List ArtifactUpdate)
    (disk : Disk) (state saved : TaskState)
    → lookup task_id disk.states ≡ some state
    → reconciled_state task_id step_id r note updates disk ≡ ok saved
    → (state.status ≡ blocked)
      × (state.task_id ≡ task_id)
      × ((s : TaskState) × (s.attempts ≡ state.attempts)
          × (s.task_id ≡ state.task_id)
          × (saved ≡ resolve r step_id s))
unfolding reconciled_state load_state check_loaded
reconciled_state-from task_id step_id r note updates disk state saved found h =
    elim (Result-cases (apply_artifact_updates state.artifacts updates)) [
      | inl (artifacts, p) ↦ (
        ground (arith, p, found),
        ground (arith, p, found, eq_iff state.task_id task_id),
        (
          record state {
            artifacts = artifacts;
            reconciliations =
                state.reconciliations ++ reconciliation_record step_id r note state ∷ [];
          },
          refl,
          refl,
          ground (arith, p, found),
        ),
      )
      | inr (e, p) ↦ absurd (ground (arith, p, found))
    ]

write_reconciled-ok :
    (task_id step_id : String) (r : Result TaskState) (disk disk' : Disk) (saved : TaskState)
    → write_reconciled task_id step_id r disk ≡ (ok saved, disk')
    → (r ≡ ok saved) × (disk'.states ≡ insert saved.task_id saved disk.states)
write_reconciled-ok task_id step_id (err e) disk disk' saved h = absurd (ground arith)
write_reconciled-ok task_id step_id (ok s) disk disk' saved h = (ground arith, grind arith)

resolve-task_id :
    (r : Resolution) (a : String) (s : TaskState) → (resolve r a s).task_id ≡ s.task_id
unfolding resolve
resolve-task_id not_applied a s = refl
resolve-task_id applied_and_verified a s = refl
resolve-task_id needs_manual_action a s = refl

guarded : {A B : Type 0} (m : Result A) (k : Result B) (b : B) → m >> k ≡ ok b → k ≡ ok b
guarded (ok a) k b h = h
guarded (err e) k b h = absurd (ground arith)

-- Where a reconciliation of a task succeeds, with a resolution that asks for no manual action and with
-- saved attempts that name no step twice, the saved task was blocked, and the task that is then saved
-- is the one returned, is pending, and does not show the step as attempted and not completed.
pub reconciliation_settles_step :
    (locked : Bool) (task_id step_id : String) (r : Resolution) (note : String)
    (updates : List ArtifactUpdate) (disk disk' : Disk) (state saved : TaskState)
    → lookup task_id disk.states ≡ some state
    → no_repeats (keys state.attempts) ≡ true
    → r ≢ needs_manual_action
    → reconcile_blocked_step locked task_id step_id r note updates disk ≡ (ok saved, disk')
    → (state.status ≡ blocked)
      × (lookup task_id disk'.states ≡ some saved)
      × (saved.status ≡ pending)
      × (contains step_id (unresolved saved.completed_steps saved.attempts) ≡ false)
unfolding reconcile_blocked_step
reconciliation_settles_step locked task_id step_id r note updates disk disk' state saved found k m
      h =
    let (made, written) = write_reconciled-ok task_id step_id _ disk disk' saved h in
    let (was, named, (s, same, id, at)) =
      reconciled_state-from task_id step_id r note updates disk state saved found
        (guarded (task_lock locked task_id) _ saved made) in
    let (p, q) = resolved_step step_id r s m (ap (λ d. no_repeats (keys d)) same ∙ k) in
    let key = ap (λ t. t.task_id) at ∙ resolve-task_id r step_id s ∙ id ∙ named in
    (
      was,
      ap (lookup task_id) (written ∙ ap (λ i. insert i saved disk.states) key)
          ∙ lookup-insert_self task_id saved disk.states,
      ap (λ t. t.status) at ∙ p,
      ap (λ t. contains step_id (unresolved t.completed_steps t.attempts)) at ∙ q,
    )
