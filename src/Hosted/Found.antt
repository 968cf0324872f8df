-- ===== src/Hosted/Found.antt =====
-- The missing and the forbidden among the names that a task uses, for `_preflight` of
-- agent_core/hosted_worker.py and `preflight` of agent_core/orchestrator.py.
use mathlib.Core.Path.{subst}
use keirin_ai_web.Prelude.{
  String, ◌≡◌, ◌↔◌, inl, inr, Bool-cases, refl, sym, ap, ◌∙◌, Bool, true, false, not, ◌&&◌, ◌||◌,
  Option, none, some, List, [], ◌∷◌, ◌==◌, string_eq, list_eq, contains, if-cases, arith, eq_iff,
  if◌then◌else◌,
}
use keirin_ai_web.Credentials.Names.{contains-sorted_set, Increasing, Precedes, text_lt_trans}
use keirin_ai_web.Tools.Registry.{Capability, ToolRegistry, keys, capability_of}
use keirin_ai_web.Hosted.Worker.{keep, is_refused, missing_of, forbidden_of}

contains-if :
    (a b : String) (l : List String) (t : Bool)
    → contains a (if t then b ∷ l else l) ≡ (if t then a == b || contains a l else contains a l)
contains-if a b l true = refl
contains-if a b l false = refl

kept_step :
    (e t u c k : Bool)
    → (e ≡ true → t ≡ u)
    → k ≡ (c && u)
    → (if t then e || k else k) ≡ ((e || c) && u)
kept_step e t u c k h p = ground arith

contains-keep :
    (test : String → Bool) (a : String) (l : List String)
    → contains a (keep test l) ≡ (contains a l && test a)
unfolding keep
contains-keep test a [] = refl
contains-keep test a (b ∷ l) =
    contains-if a b (keep test l) (test b)
    ∙ kept_step (a == b) (test b) (test a) (contains a l) (contains a (keep test l))
        (λ p. sym (ap test ((eq_iff a b).0 p))) (contains-keep test a l)

keep-Precedes :
    (test : String → Bool) (x : String) (l : List String)
    → Precedes x l
    → Increasing l
    → Precedes x (keep test l)
unfolding keep
keep-Precedes test x [] h k = tt
keep-Precedes test x (y ∷ []) h k = if-cases (Precedes x) (test y) (y ∷ []) [] (λ p. h) (λ p. tt)
keep-Precedes test x (y ∷ z ∷ l) h (i, k) =
    if-cases (Precedes x) (test y) (y ∷ keep test (z ∷ l)) (keep test (z ∷ l)) (λ p. h)
      (λ p. keep-Precedes test x (z ∷ l) (text_lt_trans x y z h i) k)

pub keep-Increasing :
    (test : String → Bool) (l : List String) → Increasing l → Increasing (keep test l)
unfolding keep
keep-Increasing test [] h = tt
keep-Increasing test (x ∷ l) (h, k) =
    if-cases Increasing (test x) (x ∷ keep test l) (keep test l)
      (λ p. (keep-Precedes test x l h k, keep-Increasing test l k)) (λ p. keep-Increasing test l k)

pub both : (a b : Bool) → (a && b) ≡ true → (a ≡ true) × (b ≡ true)
both a b h = ground arith

some-same : (c d : Capability) → some c ≡ some d → c ≡ d
some-same c d h = ground (arith, h)

abbrev access_of : Capability → String
access_of c = c.access

module _ {Action : Type 0} (registry : ToolRegistry Action) (allowed : List String) where
  -- The action is registered, with an access that the caller allows.
  abbrev pub IsAllowed : String → Type 0
  IsAllowed a =
      (c : Capability) × (capability_of registry a ≡ some c) × (contains c.access allowed ≡ true)

  abbrev IsFree : Option Capability → Type 0
  IsFree o = (c : Capability) × (o ≡ some c) × (contains c.access allowed ≡ true)

  accepted-IsFree : (o : Option Capability) → is_refused allowed o ≡ false → IsFree o
  unfolding is_refused
  accepted-IsFree none h = absurd (ground (arith, h))
  accepted-IsFree (some c) h = (c, refl, ground (arith, h))

  refused-lem : (o : Option Capability) → is_refused allowed o ≡ true → ¬ IsFree o
  unfolding is_refused
  refused-lem none h (c, p, q) = absurd (ground (arith, p))
  refused-lem (some c) h (d, p, q) = absurd (
      ground
        (arith, h, subst (λ x. contains (access_of x) allowed ≡ true) (sym (some-same c d p)) q))

  -- Whether an action is allowed is decided.
  pub IsAllowed-or : (a : String) → ((¬ IsAllowed a) → IsAllowed a) → IsAllowed a
  IsAllowed-or a h = elim (Bool-cases (is_refused allowed (capability_of registry a))) [
    | inr r ↦ accepted-IsFree (capability_of registry a) r
    | inl r ↦ h (refused-lem (capability_of registry a) r)
  ]

  -- The missing are the used that are not registered.
  pub missing-exact :
      (used : List String) (a : String)
      → (contains a (missing_of registry used) ≡ true)
        ↔ ((contains a used ≡ true) × (contains a (keys registry.actions) ≡ false))
  unfolding missing_of
  missing-exact used a =
      let same =
        contains-sorted_set a _
        ∙ contains-keep (λ b. not (contains b (keys registry.actions))) a used in
      (
        (λ h. let (u, k) = both _ _ (sym same ∙ h) in (u, ground (arith, k))),
        (λ h. same ∙ ground (arith, h.0, h.1)),
      )

  -- The forbidden are the used that are registered and not allowed.
  pub forbidden-exact :
      (used : List String) (a : String)
      → (contains a (forbidden_of registry allowed used) ≡ true)
        ↔ ((contains a used ≡ true) × (contains a (keys registry.actions) ≡ true) × (¬ IsAllowed a))
  unfolding forbidden_of
  forbidden-exact used a =
      let same =
        contains-keep (λ b. is_refused allowed (capability_of registry b)) a _
        ∙ ap (λ t. t && is_refused allowed (capability_of registry a))
            (contains-sorted_set a _
              ∙ contains-keep (λ b. contains b (keys registry.actions)) a used) in
      (
        (λ h.
            let (w, r) = both _ _ (sym same ∙ h) in
            let (u, k) = both _ _ w in (u, k, refused-lem (capability_of registry a) r)),
        (λ (u, k, n). elim (Bool-cases (is_refused allowed (capability_of registry a))) [
          | inl r ↦ same ∙ ground (arith, u, k, r)
          | inr r ↦ absurd (n (accepted-IsFree (capability_of registry a) r))
        ]),
      )

  -- Where nothing is missing, what is used is registered.
  pub used-registered :
      (used : List String) (a : String)
      → missing_of registry used ≡ []
      → contains a used ≡ true
      → contains a (keys registry.actions) ≡ true
  used-registered used a none_missing u = elim (Bool-cases (contains a (keys registry.actions))) [
    | inl k ↦ k
    | inr k ↦
        absurd
          (ground (arith, sym (ap (contains a) none_missing) ∙ (missing-exact used a).1 (u, k)))
  ]

  -- Where nothing is missing or forbidden, what is used is allowed.
  pub used-IsAllowed :
      (used : List String) (a : String)
      → missing_of registry used ≡ []
      → forbidden_of registry allowed used ≡ []
      → contains a used ≡ true
      → IsAllowed a
  used-IsAllowed used a none_missing none_forbidden u =
      elim (Bool-cases (is_refused allowed (capability_of registry a))) [
        | inr r ↦ accepted-IsFree (capability_of registry a) r
        | inl r ↦ absurd (
            ground (
              arith,
              sym (ap (contains a) none_forbidden)
                  ∙ (forbidden-exact used a).1 (
                    u,
                    used-registered used a none_missing u,
                    refused-lem (capability_of registry a) r,
                  ),
            ))
      ]
