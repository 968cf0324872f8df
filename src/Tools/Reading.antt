-- ===== src/Tools/Reading.antt =====
-- What `register` of agent_core/adapters.py leaves alone, and what `require_read_only` makes sure of.
use mathlib.Core.Path.{subst}
use Prim.Native.String.{◌++◌ as joined}
use keirin_ai_web.Prelude.{
  String, ◌≡◌, ◌≢◌, ◌↔◌, refl, ◌∙◌, ap, true, false, not, ◌&&◌, Option, none, some, List, [], ◌∷◌,
  string_eq, list_eq, list_beq_iff, contains, Each, arith, eq_iff,
}
use keirin_ai_web.Prelude.Dict.{Dict, lookup, differ, lookup-insert_ne}
use keirin_ai_web.Outcome.{ok, value_error}
use keirin_ai_web.Outcome.Pure.{◌>>◌, raise_if, bind-ok, must}
use keirin_ai_web.Credentials.{sorted_set, insert_sorted}
use keirin_ai_web.Tools.Registry.{
  Capability, ToolAdapter, ToolRegistry, keys, by_action, common, enter, enter_all, check_adapter,
  register, capability_of, check_read, require_read_only, within,
}
use keirin_ai_web.Tools.Registered.{is_known}

insert_sorted-filled : (a : String) (l : List String) → insert_sorted a l ≢ []
unfolding insert_sorted
insert_sorted-filled a [] h = absurd (ground (arith, h))
insert_sorted-filled a (x ∷ l) h = absurd (ground (arith, h))

sorted_set-empty : (l : List String) → sorted_set l ≡ [] → l ≡ []
unfolding sorted_set
sorted_set-empty [] h = refl
sorted_set-empty (a ∷ l) h = absurd (insert_sorted-filled a (sorted_set l) h)

common-empty :
    (a : String) (names l : List String)
    → common names l ≡ []
    → contains a l ≡ true
    → contains a names ≡ false
unfolding common
common-empty a [] l h k = refl
common-empty a (b ∷ names) l h k = ground (arith, eq_iff a b, common-empty a names l)

known-contains :
    {A : Type 0} (a : String) (d : Dict String A) → contains a (keys d) ≡ is_known (lookup a d)
unfolding keys
known-contains a [] = refl
known-contains a ((b, v) ∷ d) = ground (arith, known-contains a d)

check_read-reads :
    (a : String) (o : Option Capability) (u : Unit {0})
    → check_read a o ≡ ok u
    → (c : Capability) × (o ≡ some c) × (c.access ≡ "read")
unfolding check_read
check_read-reads a none u h = absurd (ground arith)
check_read-reads a (some c) u h = (c, refl, (eq_iff c.access "read").0 (must _ _ u h))

reads-check_read :
    (a : String) (o : Option Capability) (c : Capability)
    → o ≡ some c
    → c.access ≡ "read"
    → check_read a o ≡ ok tt
unfolding check_read
reads-check_read a o c p q = rw p (rw ((eq_iff c.access "read").1 q) refl)

module _ {Action : Type 0} where
  check_adapter-disjoint :
      (adapter : ToolAdapter Action) (registry : ToolRegistry Action) (u : Unit {0}) (a : String)
      → check_adapter adapter registry ≡ ok u
      → is_known (lookup a registry.actions) ≡ true
      → contains a (keys adapter.actions) ≡ false
  unfolding check_adapter
  check_adapter-disjoint adapter registry u a h k =
      let (u1, p, q) =
        bind-ok
          (raise_if
            (not (
              within (keys (by_action adapter.capabilities [])) (keys adapter.actions)
              && within (keys adapter.actions) (keys (by_action adapter.capabilities []))))
            (value_error (joined "adapter_capability_action_mismatch:" adapter.name)))
          _ u h in
      common-empty a (keys adapter.actions) (keys registry.actions)
        (sorted_set-empty _ ((list_beq_iff _ []).0 (must _ _ u q)))
        (known-contains a registry.actions ∙ k)

  -- Two registries have the same under an action.
  abbrev pub SameAt : String → ToolRegistry Action → ToolRegistry Action → Type 0
  SameAt a registry after =
      (lookup a after.actions ≡ lookup a registry.actions)
      × (lookup a after.capabilities ≡ lookup a registry.capabilities)
      × (lookup a after.adapter_for_action ≡ lookup a registry.adapter_for_action)

  enter-others :
      (adapter action : String) (f : Action) (o : Option Capability)
      (registry after : ToolRegistry Action) (a : String)
      → a ≢ action
      → enter adapter action f o registry ≡ ok after
      → SameAt a registry after
  unfolding enter
  enter-others adapter action f none registry after a h p = absurd (ground arith)
  enter-others adapter action f (some c) registry after a h p =
      subst (SameAt a registry) (ground (arith, p)) (
        lookup-insert_ne action a f registry.actions h,
        lookup-insert_ne action a c registry.capabilities h,
        lookup-insert_ne action a adapter registry.adapter_for_action h,
      )

  enter_all-others :
      (adapter : String) (actions : Dict String Action) (capabilities : Dict String Capability)
      (registry after : ToolRegistry Action) (a : String)
      → contains a (keys actions) ≡ false
      → enter_all adapter actions capabilities registry ≡ ok after
      → SameAt a registry after
  unfolding enter_all keys
  enter_all-others adapter [] capabilities registry after a h p =
      subst (SameAt a registry) (ground (arith, p)) (refl, refl, refl)
  enter_all-others adapter ((action, f) ∷ actions) capabilities registry after a h p =
      let (next, q, r) =
        bind-ok (enter adapter action f (lookup action capabilities) registry)
          (enter_all adapter actions capabilities) after p in
      let (x, y, z) =
        enter-others adapter action f (lookup action capabilities) registry next a
          (differ a action (ground (arith, h))) q in
      let (x1, y1, z1) =
        enter_all-others adapter actions capabilities next after a (ground (arith, h)) r in
      (x1 ∙ x, y1 ∙ y, z1 ∙ z)

  -- A registration that raises nothing leaves every action that was registered before as it was: its
  -- implementation, its capability and its adapter.
  pub register-keeps :
      (adapter : ToolAdapter Action) (registry after : ToolRegistry Action) (a : String)
      → is_known (lookup a registry.actions) ≡ true
      → register adapter registry ≡ ok after
      → SameAt a registry after
  unfolding register
  register-keeps adapter registry after a h p =
      let (u, q, r) =
        bind-ok (check_adapter adapter registry)
          (λ u. enter_all adapter.name adapter.actions (by_action adapter.capabilities []) registry)
          after p in
      enter_all-others adapter.name adapter.actions (by_action adapter.capabilities []) registry
        after a (check_adapter-disjoint adapter registry u a q h) r

  -- The action is registered, as one that only reads.
  abbrev pub IsReadOnly : ToolRegistry Action → String → Type 0
  IsReadOnly registry a =
      (c : Capability) × (capability_of registry a ≡ some c) × (c.access ≡ "read")

  require-reads :
      (registry : ToolRegistry Action) (actions : List String) (u : Unit {0})
      → require_read_only registry actions ≡ ok u
      → Each (IsReadOnly registry) actions
  unfolding require_read_only
  require-reads registry [] u h = tt
  require-reads registry (b ∷ actions) u h =
      let (v, p, q) =
        bind-ok (check_read b (capability_of registry b)) (λ v. require_read_only registry actions)
          u h in
      (check_read-reads b (capability_of registry b) v p, require-reads registry actions u q)

  reads-require :
      (registry : ToolRegistry Action) (actions : List String)
      → Each (IsReadOnly registry) actions
      → require_read_only registry actions ≡ ok tt
  unfolding require_read_only
  reads-require registry [] h = refl
  reads-require registry (b ∷ actions) ((c, p, q), h) =
      ap (λ r. r >> require_read_only registry actions)
        (reads-check_read b (capability_of registry b) c p q)
      ∙ reads-require registry actions h

  -- `require_read_only` passes exactly where each of the actions is registered, as one that only reads.
  pub require_read_only-exact :
      (registry : ToolRegistry Action) (actions : List String)
      → (require_read_only registry actions ≡ ok tt) ↔ Each (IsReadOnly registry) actions
  require_read_only-exact registry actions =
      (require-reads registry actions tt, reads-require registry actions)
