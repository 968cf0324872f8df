-- ===== src/Json.antt =====
-- JSON values, as the program's records, rows and replies hold them. Of a number that is no
-- integer, `float` tells whether it is other than zero.
use keirin_ai_web.Prelude.{
  String, Bool, Option, none, some, List, [], ◌∷◌, ◌==◌, string_eq, nat_eq, not, true, false,
  if◌then◌else◌,
}
use keirin_ai_web.Credentials.{Value, ℤ, pos, negsuc}

mutual
  pub data Json : Type 0 where
    null : Json
    boolean : Bool → Json
    int : ℤ → Json
    float : Bool → Json
    text : String → Json
    arr : Items → Json
    obj : Fields → Json

  pub data Items : Type 0 where
    nil : Items
    cons : Json → Items → Items

  pub data Fields : Type 0 where
    end : Fields
    field : String → Json → Fields → Fields

-- `d.get(key)`, which is `None` where the key is missing.
unfoldable pub get : String → Fields → Json
get key end = null
get key (field name value rest) = if name == key then value else get key rest

-- The value, as far as the checks of untrusted values tell it apart.
abbrev pub value_of : Json → Value
value_of null = Value.null
value_of (boolean b) = Value.truth b
value_of (int n) = Value.int n
value_of (float b) = Value.opaque_object
value_of (text s) = Value.text s
value_of (arr l) = Value.opaque_object
value_of (obj fs) = Value.opaque_object

abbrev pub text_items : List String → Items
text_items [] = nil
text_items (s ∷ l) = cons (text s) (text_items l)

-- A text, or `None`.
abbrev pub optional_text : Option String → Json
optional_text none = null
optional_text (some s) = text s

-- `bool(value)`
unfoldable pub is_truthy : Json → Bool
is_truthy null = false
is_truthy (boolean b) = b
is_truthy (int (pos n)) = not (n == 0)
is_truthy (int (negsuc n)) = true
is_truthy (float b) = b
is_truthy (text s) = not (s == "")
is_truthy (arr nil) = false
is_truthy (arr (cons v l)) = true
is_truthy (obj end) = false
is_truthy (obj (field k v fs)) = true

abbrev pub is_object : Json → Bool
is_object (obj fs) = true
is_object _ = false
