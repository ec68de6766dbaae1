-- ===== src/Json.antt =====
-- lib/configTree.ts: the untyped JSON tree that VyOS returns for a config section, and the
-- helpers by which every parser reads it. A number is held as the text that `String` gives for it,
-- an object as the list of its entries in the order of `Object.entries`.
pub mod Paths
use vyos_client.Base.{
  String, Bool, true, false, Option, none, some, List, [], ◌∷◌, map, ◌==◌, if◌then◌else◌, or_else,
}
use vyos_client.Base.Text.{join}

mutual
  pub data Fields : Type 0 where
    empty_obj : Fields
    field : String → Value → Fields → Fields

  pub data Value : Type 0 where
    undefined null : Value
    boolean : Bool → Value
    number str : String → Value
    obj : Fields → Value
    arr : Items → Value

  pub data Items : Type 0 where
    empty_arr : Items
    item : Value → Items → Items

-- `typeof v === 'object' && v !== null && !Array.isArray(v)`
unfoldable pub is_record : Value → Bool
is_record (obj fields) = true
is_record _ = false

-- `String(v)`; an array is joined by commas, with nothing for null and undefined.
unfoldable mutual
  pub to_text : Value → String
  to_text undefined = "undefined"
  to_text null = "null"
  to_text (boolean true) = "true"
  to_text (boolean false) = "false"
  to_text (number text) = text
  to_text (str text) = text
  to_text (arr items) = join "," (part_texts items)
  to_text (obj fields) = "[object Object]"

  pub part_texts : Items → List String
  part_texts empty_arr = []
  part_texts (item undefined rest) = "" ∷ part_texts rest
  part_texts (item null rest) = "" ∷ part_texts rest
  part_texts (item v rest) = to_text v ∷ part_texts rest

unfoldable pub as_string : Value → Option String
as_string undefined = none
as_string null = none
as_string v = some (to_text v)

-- `v.map(String)`
unfoldable pub item_texts : Items → List String
item_texts empty_arr = []
item_texts (item v rest) = to_text v ∷ item_texts rest

unfoldable pub as_array : Value → List String
unfolding item_texts
as_array undefined = []
as_array null = []
as_array (arr items) = item_texts items
as_array v = to_text v ∷ []

unfoldable pub as_string_array : Value → List String
unfolding item_texts
as_string_array (arr items) = item_texts items
as_string_array (str text) = text ∷ []
as_string_array _ = []

-- `fields[key]` and `key in fields`
unfoldable pub entry : Fields → String → Option Value
entry empty_obj key = none
entry (field k v rest) key = if k == key then some v else entry rest key

unfoldable pub has_key : Fields → String → Bool
has_key empty_obj key = false
has_key (field k v rest) key = if k == key then true else has_key rest key

unfoldable pub child : Value → String → Value
unfolding entry
child (obj fields) key = or_else (entry fields key) undefined
child _ key = undefined

unfoldable pub is_flag_present : Value → String → Bool
unfolding has_key
is_flag_present (obj fields) key = has_key fields key
is_flag_present _ key = false

-- `Object.entries(fields)`
unfoldable pub entries : Fields → List (String × Value)
entries empty_obj = []
entries (field k v rest) = (k, v) ∷ entries rest

-- `x !== undefined`
abbrev pub is_defined : Value → Bool
is_defined undefined = false
is_defined _ = true

-- `asString(v) ?? ''`, the text that a form shows for a leaf.
abbrev pub shown : Value → String
shown v = or_else (as_string v) ""
