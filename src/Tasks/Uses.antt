-- ===== src/Tasks/Uses.antt =====
-- The actions that a task uses: `used` in `preflight` of agent_core/orchestrator.py, and `_used_actions` of
-- agent_core/hosted_worker.py.
use keirin_ai_web.Prelude.{
  String, ◌≡◌, ◌⊎◌, sym, ap, ◌∙◌, true, Option, none, some, List, [], ◌∷◌, ◌++◌, ◌==◌, string_eq,
  contains, inl, inr, arith, eq_iff, if◌then◌else◌, Bool-cases,
}
use keirin_ai_web.Tasks.Model.{StepSpec}

-- `if action`
abbrev pub filled : Option String → List String
filled none = []
filled (some s) = if s == "" then [] else s ∷ []

-- The actions and verifications of the steps that are not empty.
unfoldable pub used_names : {J : Type 0} → List (StepSpec J) → List String
used_names [] = []
used_names (step ∷ steps) =
    filled (some step.action) ++ (filled step.verify_action ++ used_names steps)

-- The name is the action or the verification of one of the steps, and is not empty.
abbrev pub Uses : {J : Type 0} → String → List (StepSpec J) → Type 0
Uses a [] = ⊥
Uses a (step ∷ steps) =
    ((¬ (a ≡ "")) × ((step.action ≡ a) ⊎ (step.verify_action ≡ some a))) ⊎ Uses a steps

some-injective : (a b : String) → some a ≡ some b → a ≡ b
some-injective a b h = ground (arith, h)

-- A name that is not empty.
abbrev pub IsNamed : String → Option String → Type 0
IsNamed a o = (¬ (a ≡ "")) × (o ≡ some a)

filled-split :
    (a : String) (o : Option String) (l : List String)
    → contains a (filled o ++ l) ≡ true
    → IsNamed a o ⊎ (contains a l ≡ true)
filled-split a none l h = inr h
filled-split a (some s) l h = elim (Bool-cases (s == "")) [
  | inl p ↦ inr (ground (arith, h, p))
  | inr p ↦ elim (Bool-cases (a == s)) [
    | inl q ↦
        let e = (eq_iff a s).0 q in
        inl ((λ z. absurd (ground (arith, p, (eq_iff s "").1 (sym e ∙ z)))), ap some (sym e))
    | inr q ↦ inr (ground (arith, h, p, q))
  ]
]

filled-named :
    (a : String) (o : Option String) (l : List String)
    → IsNamed a o
    → contains a (filled o ++ l) ≡ true
filled-named a none l (n, e) = absurd (ground (arith, e))
filled-named a (some s) l (n, e) = elim (Bool-cases (s == "")) [
  | inl p ↦ absurd (n (sym (some-injective s a e) ∙ (eq_iff s "").0 p))
  | inr p ↦ ground (arith, p, (eq_iff a s).1 (sym (some-injective s a e)))
]

filled-rest :
    (a : String) (o : Option String) (l : List String)
    → contains a l ≡ true
    → contains a (filled o ++ l) ≡ true
filled-rest a none l h = h
filled-rest a (some s) l h = elim (Bool-cases (s == "")) [
  | inl p ↦ ground (arith, p, h)
  | inr p ↦ ground (arith, p, h)
]

module _ {J : Type 0} where
  pub used-Uses :
      (a : String) (steps : List (StepSpec J)) → contains a (used_names steps) ≡ true → Uses a steps
  unfolding used_names
  used-Uses a [] h = absurd (ground (arith, h))
  used-Uses a (step ∷ steps) h = elim (filled-split a (some step.action) _ h) [
    | inl (n, e) ↦ inl (n, inl (some-injective step.action a e))
    | inr k ↦ elim (filled-split a step.verify_action (used_names steps) k) [
      | inl (n, e) ↦ inl (n, inr e)
      | inr r ↦ inr (used-Uses a steps r)
    ]
  ]

  pub Uses-used :
      (a : String) (steps : List (StepSpec J)) → Uses a steps → contains a (used_names steps) ≡ true
  unfolding used_names
  Uses-used a [] u = absurd u
  Uses-used a (step ∷ steps) (inl (n, inl e)) = filled-named a (some step.action) _ (n, ap some e)
  Uses-used a (step ∷ steps) (inl (n, inr e)) =
      filled-rest a (some step.action) _
        (filled-named a step.verify_action (used_names steps) (n, e))
  Uses-used a (step ∷ steps) (inr u) =
      filled-rest a (some step.action) _
        (filled-rest a step.verify_action (used_names steps) (Uses-used a steps u))
