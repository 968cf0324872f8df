-- ===== src/Tools/Tests.antt =====
-- The registry of agent_core/adapters.py, with its GitHub adapter.
use keirin_ai_web.Prelude.{String, ◌≡◌, ◌↔◌, refl, true, false, [], ◌∷◌, Each, arith}
use keirin_ai_web.Outcome.{ok, err, value_error}
use keirin_ai_web.Credentials.{sorted_set, insert_sorted}
use keirin_ai_web.Tools.Registry.{
  Capability, ToolAdapter, ToolRegistry, new_registry, keys, by_action, within, common, join_names,
  enter, enter_all, entered, check_adapter, register, check_read, require_read_only,
}
use keirin_ai_web.Tools.Registered.{IsRegistry, register-IsRegistry}
use keirin_ai_web.Tools.Reading.{SameAt, register-keeps, IsReadOnly, require_read_only-exact}

abbrev read_main : Capability
read_main = record {
  action = "github.read_main";
  access = "read";
  required_permissions = "contents:read" ∷ [];
  supports_dry_run = true;
  description = "Read required files from an explicit repository ref.";
}

abbrev publish : Capability
publish = record {
  action = "note.publish";
  access = "write";
  required_permissions = [];
  supports_dry_run = false;
  description = "Publish a note.";
}

-- An action is told by a name.
abbrev github : ToolAdapter String
github = record {
  name = "github-readonly";
  capabilities = read_main ∷ [];
  actions = ("github.read_main", "reader") ∷ [];
}

abbrev notes : ToolAdapter String
notes = record {
  name = "notes";
  capabilities = publish ∷ [];
  actions = ("note.publish", "writer") ∷ [];
}

abbrev one : ToolRegistry String
one = entered "github-readonly" "github.read_main" "reader" read_main (new_registry String)

abbrev two : ToolRegistry String
two = entered "notes" "note.publish" "writer" publish one

register_first : register github (new_registry String) ≡ ok one
unfolding register check_adapter by_action keys within common join_names sorted_set enter_all enter
register_first = refl

register_second : register notes one ≡ ok two
unfolding register check_adapter by_action keys within common join_names sorted_set enter_all enter
register_second = refl

register_again :
    register github one ≡ err (value_error "duplicate_registered_action:github.read_main")
unfolding register check_adapter by_action keys within common join_names sorted_set insert_sorted
    enter_all enter
register_again = refl

require_read : require_read_only two ("github.read_main" ∷ []) ≡ ok tt
unfolding require_read_only check_read
require_read = refl

require_write :
    require_read_only two ("github.read_main" ∷ "note.publish" ∷ [])
    ≡ err (value_error "non_read_action_forbidden:note.publish")
unfolding require_read_only check_read
require_write = refl

empty-IsRegistry : IsRegistry (new_registry String)
empty-IsRegistry = record {
  named = (λ a c h. absurd (ground (arith, h)));
  same_names = (λ a. refl);
  same_adapters = (λ a. refl);
}

register-IsRegistry_example : IsRegistry one
register-IsRegistry_example =
    register-IsRegistry github (new_registry String) one empty-IsRegistry register_first

register-keeps_example : SameAt "github.read_main" one two
register-keeps_example = register-keeps notes one two "github.read_main" refl register_second

require_read_only-exact_example :
    (require_read_only two ("github.read_main" ∷ "note.publish" ∷ []) ≡ ok tt)
    ↔ Each (IsReadOnly two) ("github.read_main" ∷ "note.publish" ∷ [])
require_read_only-exact_example =
    require_read_only-exact two ("github.read_main" ∷ "note.publish" ∷ [])
