-- ===== src/Tools/Registry.antt =====
-- `Capability` and `ToolRegistry` of agent_core/adapters.py. An adapter is what its three members give.
use Prim.Native.String.{◌++◌ as joined}
use keirin_ai_web.Prelude.{
  String, Bool, true, not, ◌&&◌, Option, none, some, List, [], ◌∷◌, ◌==◌, string_eq, list_eq,
  contains, if◌then◌else◌,
}
use keirin_ai_web.Prelude.Dict.{Dict, lookup, insert}
use keirin_ai_web.Outcome.{Result, ok, err, value_error, other_error}
use keirin_ai_web.Outcome.Pure.{◌>>=◌, ◌>>◌, raise_if}
use keirin_ai_web.Credentials.{sorted_set}

pub record Capability : Type 0 where
  pub action : String
  pub access : String
  pub required_permissions : List String
  pub supports_dry_run : Bool
  pub description : String

module _ (Action : Type 0) where
  -- `ToolAdapter`: what `name`, `capabilities` and `actions` give.
  pub record ToolAdapter : Type 0 where
    pub name : String
    pub capabilities : List Capability
    pub actions : Dict String Action

  pub record ToolRegistry : Type 0 where
    pub actions : Dict String Action
    pub capabilities : Dict String Capability
    pub adapter_for_action : Dict String String

  -- `ToolRegistry()`
  abbrev pub new_registry : ToolRegistry
  new_registry = record { actions = []; capabilities = []; adapter_for_action = [] }

-- `list(d)`
unfoldable pub keys {ℓ} : {V : Type ℓ} → Dict String V → List String
keys [] = []
keys ((k, v) ∷ d) = k ∷ keys d

-- `{cap.action: cap for cap in capabilities}`
unfoldable pub by_action : List Capability → Dict String Capability → Dict String Capability
by_action [] d = d
by_action (c ∷ l) d = by_action l (insert c.action c d)

-- Each text of the first list is in the second.
unfoldable pub within : List String → List String → Bool
within [] l = true
within (a ∷ names) l = contains a l && within names l

-- The texts of the first list that are in the second.
unfoldable pub common : List String → List String → List String
common [] l = []
common (a ∷ names) l = let rest = common names l in if contains a l then a ∷ rest else rest

-- `",".join(names)`
unfoldable pub join_names : List String → String
join_names [] = ""
join_names (a ∷ []) = a
join_names (a ∷ names) = joined a (joined "," (join_names names))

-- The tests of `require_read_only` on the capability of an action.
unfoldable pub check_read : String → Option Capability → Result (Unit {0})
check_read action none = err (value_error (joined "action_not_registered:" action))
check_read action (some c) =
    raise_if (not (c.access == "read")) (value_error (joined "non_read_action_forbidden:" action))

module _ {Action : Type 0} where
  -- The three assignments of a registration, for one action.
  abbrev pub entered :
      String → String → Action → Capability → ToolRegistry Action → ToolRegistry Action
  entered adapter action implementation c registry = record {
    actions = insert action implementation registry.actions;
    capabilities = insert action c registry.capabilities;
    adapter_for_action = insert action adapter registry.adapter_for_action;
  }

  -- `capabilities[action]` raises where the name is missing.
  unfoldable pub enter :
      String
      → String
      → Action
      → Option Capability
      → ToolRegistry Action
      → Result (ToolRegistry Action)
  enter adapter action implementation none registry = err other_error
  enter adapter action implementation (some c) registry =
      ok (entered adapter action implementation c registry)

  unfoldable pub enter_all :
      String
      → Dict String Action
      → Dict String Capability
      → ToolRegistry Action
      → Result (ToolRegistry Action)
  unfolding enter
  enter_all adapter [] capabilities registry = ok registry
  enter_all adapter ((action, implementation) ∷ actions) capabilities registry =
      enter adapter action implementation (lookup action capabilities) registry
      >>= enter_all adapter actions capabilities

  -- The tests of `register`, before its first assignment.
  unfoldable pub check_adapter : ToolAdapter Action → ToolRegistry Action → Result (Unit {0})
  unfolding by_action keys within common join_names sorted_set
  check_adapter adapter registry =
      let described = keys (by_action adapter.capabilities []) in
      let names = keys adapter.actions in
      let collisions = sorted_set (common names (keys registry.actions)) in
      do
        raise_if (not (within described names && within names described))
            (value_error (joined "adapter_capability_action_mismatch:" adapter.name))
        raise_if (not (collisions == []))
            (value_error (joined "duplicate_registered_action:" (join_names collisions)))

  -- `register`: the registry that it leaves.
  unfoldable pub register : ToolAdapter Action → ToolRegistry Action → Result (ToolRegistry Action)
  unfolding check_adapter by_action enter_all
  register adapter registry =
      check_adapter adapter registry
      >> enter_all adapter.name adapter.actions (by_action adapter.capabilities []) registry

  -- `capability`
  abbrev pub capability_of : ToolRegistry Action → String → Option Capability
  capability_of registry action = lookup action registry.capabilities

  -- `require_read_only`
  unfoldable pub require_read_only : ToolRegistry Action → List String → Result (Unit {0})
  unfolding check_read
  require_read_only registry [] = ok tt
  require_read_only registry (action ∷ actions) =
      check_read action (capability_of registry action) >> require_read_only registry actions
