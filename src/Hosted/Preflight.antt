-- ===== src/Hosted/Preflight.antt =====
-- What `_preflight` of agent_core/hosted_worker.py finds.
use mathlib.Core.Path.{subst}
use keirin_ai_web.Prelude.{
  String, ◌≡◌, ◌↔◌, inl, inr, Bool-cases, refl, true, false, not, some, List, [], ◌∷◌, string_eq,
  list_eq, contains, Each, arith,
}
use keirin_ai_web.Outcome.{ok}
use keirin_ai_web.Outcome.Pure.{bind-ok, ok-injective}
use keirin_ai_web.Credentials.{sorted_set}
use keirin_ai_web.Credentials.Names.{sorted_set-Increasing, Increasing}
use keirin_ai_web.Tools.Registry.{ToolRegistry, keys, capability_of}
use keirin_ai_web.Json.{Json}
use keirin_ai_web.Tasks.Model.{StepSpec, validate_task}
use keirin_ai_web.Tasks.Uses.{used_names, Uses, used-Uses, Uses-used}
use keirin_ai_web.Hosted.Model.{TaskModel}
use keirin_ai_web.Hosted.Lease.{HostedQueueLease}
use keirin_ai_web.Hosted.Found.{
  IsAllowed, IsAllowed-or, missing-exact, forbidden-exact, keep-Increasing,
}
use keirin_ai_web.Hosted.Worker.{keep, is_refused, missing_of, forbidden_of, preflight}

Each-used :
    {J : Type 0} {P : StepSpec J → Type 0} (steps : List (StepSpec J))
    → ((step : StepSpec J) → ((a : String) → Uses a (step ∷ []) → Uses a steps) → P step)
    → Each P steps
Each-used [] h = tt
Each-used (step ∷ steps) h = (
  h step (λ a u. elim u [ inl v ↦ inl v | inr v ↦ absurd v ]),
  Each-used steps (λ other k. h other (λ a u. inr (k a u))),
)

module _ {Action : Type 0} (registry : ToolRegistry Action) (allowed : List String) where
  -- The missing and the forbidden among the actions that the steps use, in order and each once.
  pub record PreflightFits (steps : List (StepSpec Json)) (missing forbidden : List String)
      : Type 0 where
    pub missing_order : Increasing missing
    pub forbidden_order : Increasing forbidden
    pub missing_exact :
        (a : String)
        → (contains a missing ≡ true)
          ↔ (Uses a steps × (contains a (keys registry.actions) ≡ false))
    pub forbidden_exact :
        (a : String)
        → (contains a forbidden ≡ true) ↔ (
            Uses a steps
            × (contains a (keys registry.actions) ≡ true)
            × (¬ IsAllowed registry allowed a))

  found-fits :
      (steps : List (StepSpec Json))
      → PreflightFits steps
          (missing_of registry (used_names steps))
          (forbidden_of registry allowed (used_names steps))
  unfolding missing_of forbidden_of
  found-fits steps =
      let registered = keep (λ b. contains b (keys registry.actions)) (used_names steps) in
      record {
        missing_order =
            sorted_set-Increasing
              (keep (λ a. not (contains a (keys registry.actions))) (used_names steps));
        forbidden_order =
            keep-Increasing (λ b. is_refused allowed (capability_of registry b))
              (sorted_set registered) (sorted_set-Increasing registered);
        missing_exact = (λ a.
            let (f, g) = missing-exact registry allowed (used_names steps) a in
            ((λ h. (used-Uses a steps (f h).0, (f h).1)), (λ h. g (Uses-used a steps h.0, h.1))));
        forbidden_exact = (λ a.
            let (f, g) = forbidden-exact registry allowed (used_names steps) a in
            (
              (λ h. let (u, k, n) = f h in (used-Uses a steps u, k, n)),
              (λ (u, k, n). g (Uses-used a steps u, k, n)),
            ));
      }

  -- The preflight of a lease finds, in increasing order, exactly the actions and verifications of its task's
  -- steps that are not registered, and exactly those that are registered without an access that the caller
  -- allows.
  pub preflight-fits :
      (m : TaskModel) (lease : HostedQueueLease m) (missing forbidden : List String)
      → preflight m registry lease allowed ≡ ok (missing, forbidden)
      → PreflightFits lease.spec.steps missing forbidden
  unfolding preflight
  preflight-fits m lease missing forbidden h =
      let (u, p, q) = bind-ok (validate_task lease.spec) _ (missing, forbidden) h in
      let found = ok-injective _ _ q in
      subst (λ r. PreflightFits lease.spec.steps r.0 r.1) found (found-fits lease.spec.steps)

  -- The action of the step, and its verification, are registered with an access that is allowed, unless empty.
  abbrev pub StepAllowed : StepSpec Json → Type 0
  StepAllowed step =
      (¬ (step.action ≡ "") → IsAllowed registry allowed step.action)
      × ((v : String) → step.verify_action ≡ some v → ¬ (v ≡ "") → IsAllowed registry allowed v)

  step-IsAllowed :
      (steps : List (StepSpec Json)) (a : String)
      → PreflightFits steps [] []
      → Uses a steps
      → IsAllowed registry allowed a
  step-IsAllowed steps a fits u = elim (Bool-cases (contains a (keys registry.actions))) [
    | inr k ↦ absurd (ground (arith, (fits.missing_exact a).1 (u, k)))
    | inl k ↦
        IsAllowed-or registry allowed a
          (λ n. absurd (ground (arith, (fits.forbidden_exact a).1 (u, k, n))))
  ]

  -- Where nothing is missing or forbidden, each step's actions are registered, with an access that is allowed.
  pub ready-StepAllowed :
      (steps : List (StepSpec Json)) → PreflightFits steps [] [] → Each StepAllowed steps
  ready-StepAllowed steps fits = Each-used steps (λ step within. (
    (λ n. step-IsAllowed steps step.action fits (within step.action (inl (n, inl refl)))),
    (λ v p n. step-IsAllowed steps v fits (within v (inl (n, inr p)))),
  ))
