-- ===== src/Tools/Registered.antt =====
-- What a registration of agent_core/adapters.py leaves registered, and what `require_read_only` makes sure of.
use mathlib.Core.Path.{subst}
use keirin_ai_web.Prelude.{
  String, ◌≡◌, refl, sym, ◌∙◌, ap, Bool, true, false, ◌||◌, Option, none, some, List, [], ◌∷◌, ◌==◌,
  string_eq, list_eq, arith, eq_iff,
}
use keirin_ai_web.Prelude.Dict.{Dict, lookup, insert, lookup-insert_cases}
use keirin_ai_web.Outcome.{ok}
use keirin_ai_web.Outcome.Pure.{bind-ok}
use keirin_ai_web.Tools.Registry.{
  Capability, ToolAdapter, ToolRegistry, by_action, entered, enter, enter_all, check_adapter,
  register,
}

-- The capability of each name is one of that name.
abbrev pub Named : Dict String Capability → Type 0
Named d = (a : String) (c : Capability) → lookup a d ≡ some c → c.action ≡ a

same_action : (c b : Capability) → some c ≡ some b → c.action ≡ b.action
same_action c b p = ap (λ o. elim o [ some x ↦ x.action | none ↦ "" ]) p

insert-Named : (c : Capability) (d : Dict String Capability) → Named d → Named (insert c.action c d)
insert-Named c d h a b =
    lookup-insert_cases (λ o. o ≡ some b → b.action ≡ a) c.action a c d
      (λ q p. sym (same_action c b p) ∙ sym q) (λ q. h a b)

by_action-Named :
    (l : List Capability) (d : Dict String Capability) → Named d → Named (by_action l d)
unfolding by_action
by_action-Named [] d h = h
by_action-Named (c ∷ l) d h = by_action-Named l (insert c.action c d) (insert-Named c d h)

abbrev pub is_known {ℓ} : {A : Type ℓ} → Option A → Bool
is_known none = false
is_known (some a) = true

known-insert :
    {A : Type 0} (k j : String) (v : A) (d : Dict String A)
    → is_known (lookup j (insert k v d)) ≡ (j == k || is_known (lookup j d))
known-insert k j v d =
    lookup-insert_cases (λ o. is_known o ≡ (j == k || is_known (lookup j d))) k j v d
      (λ q. ap (λ t. t || is_known (lookup j d)) (sym ((eq_iff j k).1 q)))
      (λ q. ground (arith, eq_iff j k))

module _ {Action : Type 0} where
  -- The three tables of a registry name the same actions, and each capability is one of its action.
  pub record IsRegistry (registry : ToolRegistry Action) : Type 0 where
    pub named : Named registry.capabilities
    pub same_names :
        (a : String)
        → is_known (lookup a registry.capabilities) ≡ is_known (lookup a registry.actions)
    pub same_adapters :
        (a : String)
        → is_known (lookup a registry.adapter_for_action) ≡ is_known (lookup a registry.actions)

  entered-IsRegistry :
      (adapter action : String) (f : Action) (c : Capability) (registry : ToolRegistry Action)
      → c.action ≡ action
      → IsRegistry registry
      → IsRegistry (entered adapter action f c registry)
  entered-IsRegistry adapter action f c registry q h = record {
    named = (λ a b.
        lookup-insert_cases (λ o. o ≡ some b → b.action ≡ a) action a c registry.capabilities
          (λ e p. sym (same_action c b p) ∙ q ∙ sym e) (λ e. h.named a b));
    same_names = (λ a.
        known-insert action a c registry.capabilities
        ∙ ap (λ t. a == action || t) (h.same_names a)
        ∙ sym (known-insert action a f registry.actions));
    same_adapters = (λ a.
        known-insert action a adapter registry.adapter_for_action
        ∙ ap (λ t. a == action || t) (h.same_adapters a)
        ∙ sym (known-insert action a f registry.actions));
  }

  enter-IsRegistry :
      (adapter action : String) (f : Action) (o : Option Capability)
      (registry after : ToolRegistry Action)
      → ((c : Capability) → o ≡ some c → c.action ≡ action)
      → IsRegistry registry
      → enter adapter action f o registry ≡ ok after
      → IsRegistry after
  unfolding enter
  enter-IsRegistry adapter action f none registry after n h p = absurd (ground arith)
  enter-IsRegistry adapter action f (some c) registry after n h p =
      subst IsRegistry (ground (arith, p))
        (entered-IsRegistry adapter action f c registry (n c refl) h)

  enter_all-IsRegistry :
      (adapter : String) (actions : Dict String Action) (capabilities : Dict String Capability)
      (registry after : ToolRegistry Action)
      → Named capabilities
      → IsRegistry registry
      → enter_all adapter actions capabilities registry ≡ ok after
      → IsRegistry after
  unfolding enter_all
  enter_all-IsRegistry adapter [] capabilities registry after n h p =
      subst IsRegistry (ground (arith, p)) h
  enter_all-IsRegistry adapter ((action, f) ∷ actions) capabilities registry after n h p =
      let (next, q, r) =
        bind-ok (enter adapter action f (lookup action capabilities) registry) _ after p in
      enter_all-IsRegistry adapter actions capabilities next after n
        (enter-IsRegistry adapter action f (lookup action capabilities) registry next (n action) h
          q)
        r

  -- A registration that raises nothing leaves a registry whose three tables name the same actions, each with
  -- a capability of its name, where they did before.
  pub register-IsRegistry :
      (adapter : ToolAdapter Action) (registry after : ToolRegistry Action)
      → IsRegistry registry
      → register adapter registry ≡ ok after
      → IsRegistry after
  unfolding register
  register-IsRegistry adapter registry after h p =
      let (u, q, r) =
        bind-ok (check_adapter adapter registry)
          (λ u. enter_all adapter.name adapter.actions (by_action adapter.capabilities []) registry)
          after p in
      enter_all-IsRegistry adapter.name adapter.actions (by_action adapter.capabilities []) registry
        after (by_action-Named adapter.capabilities [] (λ a c e. absurd (ground (arith, e)))) h r
