-- ===== src/Json.antt =====
-- Decoded JSON, as encoding/json builds it in an `any`: the fields of an object stand in the
-- order of one iteration over its map. A number keeps its literal.
use ai_agent_go_service.Prelude.{
  String, ◌==◌, Bool, false, List, [], ◌∷◌, Option, some, none, if◌then◌else◌,
}

mutual
  pub data Fields : Type 0 where
    no_fields : Fields
    field : String → Value → Fields → Fields

  pub data Items : Type 0 where
    item : Value → Items → Items
    no_items : Items

  -- What an `any` can hold: map[string]any, []any, string, json.Number, bool and nil.
  pub data Value : Type 0 where
    object : Fields → Value
    array : Items → Value
    text number : String → Value
    boolean : Bool → Value
    null : Value

-- A field of an object.
pub data HasField : String → Value → Fields → Type 0 where
  first : {k : String} {v : Value} {fs : Fields} → HasField k v (field k v fs)
  later : {k l : String} {v u : Value} {fs : Fields} → HasField k v fs → HasField k v (field l u fs)

-- m[k], `m[k] = v` and `delete(m, k)`
unfoldable pub get : String → Fields → Option Value
get k no_fields = none
get k (field l v fs) = if l == k then some v else get k fs

unfoldable pub set : String → Value → Fields → Fields
set k v no_fields = field k v no_fields
set k v (field l u fs) = let rest = set k v fs in if l == k then field k v fs else field l u rest

unfoldable pub remove : String → Fields → Fields
remove k no_fields = no_fields
remove k (field l u fs) = let rest = remove k fs in if l == k then rest else field l u rest

-- `s, _ := m[k].(string)` and the like: the zero value if the field is absent or of another type
unfoldable pub as_text : Option Value → String
as_text (some (text s)) = s
as_text _ = ""

unfoldable pub as_object : Option Value → Option Fields
as_object (some (object fs)) = some fs
as_object _ = none

as_bool : Option Value → Bool
as_bool (some (boolean b)) = b
as_bool _ = false

objects_of : Items → List Fields
objects_of no_items = []
objects_of (item (object fs) xs) = fs ∷ objects_of xs
objects_of (item _ xs) = objects_of xs

unfoldable pub get_text : String → Fields → String
unfolding as_text
get_text k fs = as_text (get k fs)

unfoldable pub get_bool : String → Fields → Bool
unfolding as_bool
get_bool k fs = as_bool (get k fs)

unfoldable pub get_object : String → Fields → Option Fields
unfolding as_object
get_object k fs = as_object (get k fs)

unfoldable pub as_object_list : Option Value → List Fields
unfolding objects_of
as_object_list (some (array xs)) = objects_of xs
as_object_list _ = []

pub data HasItem : Value → Items → Type 0 where
  head : {v : Value} {xs : Items} → HasItem v (item v xs)
  tail : {v u : Value} {xs : Items} → HasItem v xs → HasItem v (item u xs)

-- `Within u v`: the value u stands somewhere in v.
pub data Within : Value → Value → Type 0 where
  whole : {v : Value} → Within v v
  in_field :
      {k : String} {u w : Value} {fs : Fields} → HasField k w fs → Within u w → Within u (object fs)
  in_item : {u w : Value} {xs : Items} → HasItem w xs → Within u w → Within u (array xs)
