-- ===== src/Hosted/Decision.antt =====
-- What the decision of `inspect_next` of agent_core/hosted_worker.py tells.
use mathlib.Core.Path.{subst}
use keirin_ai_web.Prelude.{
  String, ◌≡◌, ◌⊎◌, sym, ap, ◌∙◌, Bool, true, ◌&&◌, Option, none, some, List, [], ◌==◌, string_eq,
  list_eq, list_beq_iff, Each, inl, inr, arith,
}
use keirin_ai_web.Outcome.{ok}
use keirin_ai_web.Outcome.Method.{bind-returned, continue-returned, pure-returned}
use keirin_ai_web.Json.{Json}
use keirin_ai_web.Tools.Registry.{ToolRegistry}
use keirin_ai_web.Hosted.Model.{TaskModel}
use keirin_ai_web.Hosted.Lease.{HostedQueueLease}
use keirin_ai_web.Hosted.Transport.{Transport}
use keirin_ai_web.Hosted.Promises.{ClaimFits, claim-fits}
use keirin_ai_web.Hosted.Queue.{claim}
use keirin_ai_web.Hosted.Worker.{
  HostedWorkerDecision, queue_empty, decided, preflight, block_reason, announce, report, release,
  inspect_lease, inspect_claimed, inspect_next,
}
use keirin_ai_web.Hosted.Releasing.{Releases, release-Releases}
use keirin_ai_web.Hosted.Preflight.{PreflightFits, preflight-fits, StepAllowed, ready-StepAllowed}

both : (a b : Bool) → (a && b) ≡ true → (a ≡ true) × (b ≡ true)
both a b h = ground arith

unready : (d : HostedWorkerDecision) → d ≡ queue_empty → d.ready ≡ true → ⊥
unready d p h = absurd (ground (arith, sym (ap {A = HostedWorkerDecision} (λ x. x.ready) p) ∙ h))

module _ (m : TaskModel) {W Action : Type 0} (str : Json → String) (queue activity : Transport W)
    (registry : ToolRegistry Action) where
  -- A decision about a claimed task: the queue gave the lease to the worker, its steps were checked against
  -- the registry between two events of the ledger, and it was let go as blocked for the reason that the
  -- decision names.
  pub record ClaimDecided (worker_id lease_seconds : Json) (allowed : List String)
      (decision : HostedWorkerDecision) (before after : W) : Type 0 where
    pub lease : HostedQueueLease m
    pub released : HostedQueueLease m
    pub missing : List String
    pub forbidden : List String
    pub claimed_world : W
    pub announced_world : W
    pub released_world : W
    pub claims : claim m str queue worker_id lease_seconds before ≡ (ok (some lease), claimed_world)
    pub claimed : ClaimFits m worker_id lease
    pub announces :
        announce m str queue activity registry worker_id lease claimed_world
        ≡ (ok tt, announced_world)
    pub checked : PreflightFits registry allowed lease.spec.steps missing forbidden
    pub lets_go :
        Releases m str queue activity registry worker_id lease_seconds
          (block_reason missing forbidden)
          lease
          released
          announced_world
          released_world
    pub reports :
        report m str queue activity registry worker_id lease released missing forbidden
          released_world
        ≡ (ok tt, after)
    pub decides : decision ≡ decided m lease released missing forbidden

  abbrev pub DecisionFits : Json → Json → List String → HostedWorkerDecision → W → W → Type 0
  DecisionFits worker_id lease_seconds allowed decision before after =
      ((decision ≡ queue_empty)
        × (claim m str queue worker_id lease_seconds before ≡ (ok none, after)))
      ⊎ ClaimDecided worker_id lease_seconds allowed decision before after

  inspect_lease-fits :
      (worker_id lease_seconds : Json) (allowed : List String) (lease : HostedQueueLease m)
      (decision : HostedWorkerDecision) (before s after : W)
      → claim m str queue worker_id lease_seconds before ≡ (ok (some lease), s)
      → inspect_lease m str queue activity registry worker_id lease_seconds allowed lease s
        ≡ (ok decision, after)
      → ClaimDecided worker_id lease_seconds allowed decision before after
  unfolding inspect_lease
  inspect_lease-fits worker_id lease_seconds allowed lease decision before s after c h =
      let (u, s1, p, h1) =
        bind-returned (announce m str queue activity registry worker_id lease) _ s after decision
          h in
      let (found, q, h2) =
        continue-returned _ (preflight m registry lease allowed) s1 after decision h1 in
      let (released, s2, r, h3) =
        bind-returned
          (release m str queue activity registry worker_id lease_seconds lease
            (block_reason found.0 found.1))
          _ s1 after decision h2 in
      let (u2, s3, t, h4) =
        bind-returned
          (report m str queue activity registry worker_id lease released found.0 found.1) _ s2 after
          decision h3 in
      let (e, f) = pure-returned (decided m lease released found.0 found.1) decision s3 after h4 in
      record {
        lease = lease;
        released = released;
        missing = found.0;
        forbidden = found.1;
        claimed_world = s;
        announced_world = s1;
        released_world = s2;
        claims = c;
        claimed = claim-fits m str queue worker_id lease_seconds lease before (ap (λ x. x.0) c);
        announces = p;
        checked = preflight-fits registry allowed m lease found.0 found.1 q;
        lets_go =
            release-Releases m str queue activity registry worker_id lease_seconds
              (block_reason found.0 found.1) lease released s1 s2 r;
        reports = t ∙ ap (λ w. (ok tt, w)) f;
        decides = sym e;
      }

  inspect_claimed-fits :
      (worker_id lease_seconds : Json) (allowed : List String)
      (claimed : Option (HostedQueueLease m)) (decision : HostedWorkerDecision) (before s after : W)
      → claim m str queue worker_id lease_seconds before ≡ (ok claimed, s)
      → inspect_claimed m str queue activity registry worker_id lease_seconds allowed claimed s
        ≡ (ok decision, after)
      → DecisionFits worker_id lease_seconds allowed decision before after
  unfolding inspect_claimed
  inspect_claimed-fits worker_id lease_seconds allowed none decision before s after c h =
      let (e, f) = pure-returned queue_empty decision s after h in
      inl (sym e, c ∙ ap (λ w. (ok none, w)) f)
  inspect_claimed-fits worker_id lease_seconds allowed (some lease) decision before s after c h =
      inr (inspect_lease-fits worker_id lease_seconds allowed lease decision before s after c h)

  pub inspect_next-fits :
      (worker_id lease_seconds : Json) (allowed : List String) (decision : HostedWorkerDecision)
      (before after : W)
      → inspect_next m str queue activity registry worker_id lease_seconds allowed before
        ≡ (ok decision, after)
      → DecisionFits worker_id lease_seconds allowed decision before after
  unfolding inspect_next
  inspect_next-fits worker_id lease_seconds allowed decision before after h =
      let (claimed, s, p, q) =
        bind-returned (claim m str queue worker_id lease_seconds) _ before after decision h in
      inspect_claimed-fits worker_id lease_seconds allowed claimed decision before s after p q

  -- A task that the queue gave to the worker, whose steps' actions are registered with an access that is
  -- allowed.
  pub record ReadyTask (worker_id lease_seconds : Json) (allowed : List String)
      (decision : HostedWorkerDecision) (before : W) : Type 0 where
    pub lease : HostedQueueLease m
    pub claimed_world : W
    pub claims : claim m str queue worker_id lease_seconds before ≡ (ok (some lease), claimed_world)
    pub claimed : ClaimFits m worker_id lease
    pub names : decision.task_id ≡ some lease.task_id
    pub allows : Each (StepAllowed registry allowed) lease.spec.steps

  decided-ready :
      (worker_id lease_seconds : Json) (allowed : List String) (decision : HostedWorkerDecision)
      (before after : W)
      → ClaimDecided worker_id lease_seconds allowed decision before after
      → decision.ready ≡ true
      → ReadyTask worker_id lease_seconds allowed decision before
  decided-ready worker_id lease_seconds allowed decision before after d h =
      let (p, q) =
        both (d.missing == []) (d.forbidden == [])
          (sym (ap {A = HostedWorkerDecision} (λ x. x.ready) d.decides) ∙ h) in
      record {
        lease = d.lease;
        claimed_world = d.claimed_world;
        claims = d.claims;
        claimed = d.claimed;
        names = ap {A = HostedWorkerDecision} (λ x. x.task_id) d.decides;
        allows = ready-StepAllowed registry allowed d.lease.spec.steps (
            subst (λ l. PreflightFits registry allowed d.lease.spec.steps l [])
              ((list_beq_iff d.missing []).0 p)
              (subst (λ l. PreflightFits registry allowed d.lease.spec.steps d.missing l)
                ((list_beq_iff d.forbidden []).0 q) d.checked));
      }

  -- A decision that says ready names a task that the queue's claim gave to the worker, of which each step's
  -- action, and its verification where it has one, is registered with an access that the caller allows.
  pub inspect_next-ready :
      (worker_id lease_seconds : Json) (allowed : List String) (decision : HostedWorkerDecision)
      (before after : W)
      → inspect_next m str queue activity registry worker_id lease_seconds allowed before
        ≡ (ok decision, after)
      → decision.ready ≡ true
      → ReadyTask worker_id lease_seconds allowed decision before
  inspect_next-ready worker_id lease_seconds allowed decision before after h ready =
      elim (inspect_next-fits worker_id lease_seconds allowed decision before after h) [
        | inl p ↦ absurd (unready decision p.0 ready)
        | inr d ↦ decided-ready worker_id lease_seconds allowed decision before after d ready
      ]
