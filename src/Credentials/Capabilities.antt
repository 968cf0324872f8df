-- ===== src/Credentials/Capabilities.antt =====
-- `_capabilities` of agent_core/credential_provider.py: `tuple(sorted({v.strip() for v in items}))`.
use Prim.Native.Char.{code}
use keirin_ai_web.Prelude.{
  String, Bool, true, false, ◌&&◌, ◌||◌, List, [], ◌∷◌, ltb, ◌==◌, nat_eq, if◌then◌else◌,
}
use keirin_ai_web.Prelude.Text.{is_blank, strip}
use keirin_ai_web.Outcome.{Result, ok, err, value_error}
use keirin_ai_web.Credentials.Values.{Value, text}

-- The argument: a single text, what `tuple` refuses, or what it lists.
pub data Collection : Type 0 where
  single_text not_iterable : Collection
  items : List Value → Collection

-- Python's `<` on texts: by code points, a proper prefix first.
unfoldable pub text_lt : String → String → Bool
text_lt String.[] String.[] = false
text_lt String.[] (String.◌∷◌ d t) = true
text_lt (String.◌∷◌ c s) String.[] = false
text_lt (String.◌∷◌ c s) (String.◌∷◌ d t) =
    ltb (code c) (code d) || (code c == code d && text_lt s t)

-- One more element of a sorted list without duplicates.
unfoldable pub insert_sorted : String → List String → List String
insert_sorted a [] = a ∷ []
insert_sorted a (x ∷ l) =
    if text_lt a x then a ∷ x ∷ l else if text_lt x a then x ∷ insert_sorted a l else x ∷ l

-- `sorted(set(l))`
unfoldable pub sorted_set : List String → List String
unfolding insert_sorted
sorted_set [] = []
sorted_set (a ∷ l) = insert_sorted a (sorted_set l)

-- `isinstance(v, str) and v.strip()` for each item, with the stripped texts.
unfoldable pub stripped : List Value → Result (List String)
stripped [] = ok []
stripped (text s ∷ l) =
    let rest = stripped l in
    if is_blank s
    then err (value_error "credential_capabilities_required")
    else elim rest [ ok names ↦ ok (strip s ∷ names) | err e ↦ err e ]
stripped (_ ∷ l) = err (value_error "credential_capabilities_required")

unfoldable pub capabilities : Collection → Result (List String)
unfolding stripped sorted_set
capabilities single_text = err (value_error "credential_capabilities_must_be_collection")
capabilities not_iterable = err (value_error "credential_capabilities_must_be_collection")
capabilities (items []) = err (value_error "credential_capabilities_required")
capabilities (items (v ∷ l)) = elim (stripped (v ∷ l)) [
  | ok names ↦ ok (sorted_set names)
  | err e ↦ err e
]
