-- ===== src/Hosted/Forbidden.antt =====
-- `_forbidden_secret_path` of agent_core/hosted_queue.py and of agent_core/hosted_activity.py, which are the
-- same. A path lists its parts, where the source joins them in a text.
use Prim.Native.Char.{code}
use keirin_ai_web.Prelude.{
  ℕ, ◌+◌, String, ◌≡◌, Bool, false, ◌&&◌, ◌||◌, Option, none, some, List, [], ◌∷◌, leb, ◌==◌,
  nat_eq, string_eq, list_eq, if◌then◌else◌,
}
use keirin_ai_web.Json.{
  Json, Items, Fields, null, boolean, int, float, text, arr, obj, nil, cons, end, field,
}

-- `_FORBIDDEN_KEYS`
abbrev pub forbidden_keys : List String
forbidden_keys =
    "token" ∷ "access_token" ∷ "refresh_token" ∷ "password" ∷ "secret" ∷ "service_role"
    ∷ "service_role_key" ∷ "api_key" ∷ "apikey" ∷ "authorization" ∷ []

-- `lower` of a character, as far as its result is in ASCII: besides the capitals, the Kelvin sign.
unfoldable pub lower : ℕ → ℕ
lower c = if leb b'A' c && leb c b'Z' then c + 32 else if c == 0x212a then b'k' else c

unfoldable pub lower_codes : String → List ℕ
unfolding lower
lower_codes String.[] = []
lower_codes (String.◌∷◌ c s) = lower (code c) ∷ lower_codes s

unfoldable pub codes : String → List ℕ
codes String.[] = []
codes (String.◌∷◌ c s) = code c ∷ codes s

unfoldable pub among : List ℕ → List String → Bool
unfolding codes
among k [] = false
among k (name ∷ l) = k == codes name || among k l

-- `key_text.lower() in _FORBIDDEN_KEYS`
unfoldable pub is_forbidden : String → Bool
unfolding among lower_codes
is_forbidden key = among (lower_codes key) forbidden_keys

pub data PathPart : Type 0 where
  member : String → PathPart
  index : ℕ → PathPart

abbrev pub either {ℓ} : {A : Type ℓ} → Option A → Option A → Option A
either none b = b
either (some a) b = some a

abbrev pub under : PathPart → Option (List PathPart) → Option (List PathPart)
under part none = none
under part (some path) = some (part ∷ path)

-- The path to the first forbidden key, from the value on.
unfoldable mutual
  unfolding is_forbidden

  pub forbidden_path : Json → Option (List PathPart)
  forbidden_path null = none
  forbidden_path (boolean b) = none
  forbidden_path (int n) = none
  forbidden_path (float b) = none
  forbidden_path (text s) = none
  forbidden_path (arr l) = forbidden_in_items 0 l
  forbidden_path (obj fs) = forbidden_in_fields fs

  pub forbidden_in_items : ℕ → Items → Option (List PathPart)
  forbidden_in_items i nil = none
  forbidden_in_items i (cons v l) =
      either (under (index i) (forbidden_path v)) (forbidden_in_items (i + 1) l)

  pub forbidden_in_fields : Fields → Option (List PathPart)
  forbidden_in_fields end = none
  forbidden_in_fields (field key v fs) =
      if is_forbidden key
      then some (member key ∷ [])
      else either (under (member key) (forbidden_path v)) (forbidden_in_fields fs)

-- No key in the value, at any depth, is forbidden.
unfoldable mutual
  pub IsClean : Json → Type 0
  IsClean null = Unit
  IsClean (boolean b) = Unit
  IsClean (int n) = Unit
  IsClean (float b) = Unit
  IsClean (text s) = Unit
  IsClean (arr l) = AreClean l
  IsClean (obj fs) = FieldsAreClean fs

  pub AreClean : Items → Type 0
  AreClean nil = Unit
  AreClean (cons v l) = IsClean v × AreClean l

  pub FieldsAreClean : Fields → Type 0
  FieldsAreClean end = Unit
  FieldsAreClean (field key v fs) = (is_forbidden key ≡ false) × IsClean v × FieldsAreClean fs
