-- ===== src/Hosted/Releasing.antt =====
-- What the release of a lease in `inspect_next` of agent_core/hosted_worker.py saves.
use mathlib.Core.Path.{subst}
use keirin_ai_web.Prelude.{String, ◌≡◌, refl, ap, not, ◌||◌, none, string_eq, list_eq}
use keirin_ai_web.Outcome.{ok, runtime_error}
use keirin_ai_web.Outcome.Pure.{bind-ok, ok-injective, both-pass, raise_if}
use keirin_ai_web.Outcome.Method.{bind-returned, continue-returned, pure-returned}
use keirin_ai_web.Credentials.{pos}
use keirin_ai_web.Json.{Json, null, int, text}
use keirin_ai_web.Tools.Registry.{ToolRegistry}
use keirin_ai_web.Hosted.Model.{TaskModel, StoredState, copy_state}
use keirin_ai_web.Hosted.Clean.{is_clear-none}
use keirin_ai_web.Hosted.Lease.{blocked, HostedQueueLease, is_clear}
use keirin_ai_web.Hosted.Transport.{Transport}
use keirin_ai_web.Hosted.Replies.{is_blocked}
use keirin_ai_web.Hosted.Saves.{SaveFits, blocked-lem}
use keirin_ai_web.Hosted.Changes.{save-fits}
use keirin_ai_web.Hosted.Queue.{save}
use keirin_ai_web.Hosted.Worker.{blocked_state, release}

module _ (m : TaskModel) where
  -- The state says blocked, for the reason, with no error.
  pub record SaysBlocked (reason : String) (state : StoredState m) : Type 0 where
    pub status : state.status ≡ text "blocked"
    pub stated : state.blocked_reason ≡ text reason
    pub no_error : state.last_error ≡ null

  blocked_state-SaysBlocked :
      (lease : HostedQueueLease m) (reason : String) (state : StoredState m)
      → blocked_state m lease reason ≡ ok state
      → SaysBlocked reason state
  unfolding blocked_state
  blocked_state-SaysBlocked lease reason state h =
      let (copy, p, q) = bind-ok (copy_state m lease.state) _ state h in
      subst (SaysBlocked reason) (ok-injective _ state q)
        (record { status = refl; stated = refl; no_error = refl })

module _ (m : TaskModel) {W Action : Type 0} (str : Json → String) (queue activity : Transport W)
    (registry : ToolRegistry Action) where
  -- A lease was let go: the queue saved a state that says blocked from the lease's revision under its
  -- generation, and the row that came back is blocked, without an owner, one revision on.
  pub record Releases (worker_id lease_seconds : Json) (reason : String)
      (lease released : HostedQueueLease m) (before after : W) : Type 0 where
    pub state : StoredState m
    pub says : SaysBlocked m reason state
    pub saves :
        save m str queue lease.spec state
          (int (pos lease.revision))
          worker_id
          (int (pos lease.lease_generation))
          lease_seconds
          before
        ≡ (ok released, after)
    pub saved : SaveFits m (text "blocked") lease.revision worker_id lease.lease_generation released
    pub blocks : released.status ≡ blocked
    pub free : released.lease_owner ≡ none

  pub release-Releases :
      (worker_id lease_seconds : Json) (reason : String) (lease released : HostedQueueLease m)
      (before after : W)
      → release m str queue activity registry worker_id lease_seconds lease reason before
        ≡ (ok released, after)
      → Releases worker_id lease_seconds reason lease released before after
  unfolding release
  release-Releases worker_id lease_seconds reason lease released before after h =
      let (state, p, h1) =
        continue-returned _ (blocked_state m lease reason) before after released h in
      let (row, s1, q, h2) =
        bind-returned
          (save m str queue lease.spec state (int (pos lease.revision)) worker_id
            (int (pos lease.lease_generation)) lease_seconds)
          _ before after released h1 in
      let (u, r, h3) =
        continue-returned _
          (raise_if (not (is_blocked row.status) || not (is_clear row.lease_owner))
            (runtime_error "worker_preflight_failed_to_release_lease"))
          s1 after released h2 in
      let (e, f) = pure-returned row released s1 after h3 in
      let (b, o) = both-pass (is_blocked row.status) (is_clear row.lease_owner) _ u r in
      let says = blocked_state-SaysBlocked m lease reason state p in
      subst (λ w. Releases worker_id lease_seconds reason lease released before w) f
        (subst (λ x. Releases worker_id lease_seconds reason lease x before s1) e
          (record {
            state = state;
            says = says;
            saves = q;
            saved =
                subst (λ t. SaveFits m t lease.revision worker_id lease.lease_generation row)
                  says.status
                  (save-fits m str queue lease.spec state lease.revision worker_id
                    lease.lease_generation lease_seconds row before (ap (λ x. x.0) q)).0;
            blocks = blocked-lem m row.status b;
            free = is_clear-none row.lease_owner o;
          }))
