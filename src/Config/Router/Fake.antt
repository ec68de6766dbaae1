-- ===== src/Config/Router/Fake.antt =====
-- backend/internal/testutil/fakevyos.go: the in-memory router of the tests. A Go map is held as the
-- entries of a JSON object; the empty text is Go's value of a command without one.
pub mod Laws
use vyos_client.Base.{
  String, Bool, true, false, Option, none, some, List, ◌≡◌, refl, ◌==◌, eq_iff, arith,
  if◌then◌else◌, or_else,
}
use mathlib.Core.List
use vyos_client.Json.{Value, str, obj, Fields, empty_obj, field, entry, has_key}
use vyos_client.Config.Op.{ConfigOpKind, set, delete, comment}

-- `cur[seg] = v` and `delete(cur, seg)`
put : Fields → String → Value → Fields
put empty_obj k v = field k v empty_obj
put (field j w rest) k v = if j == k then field k v rest else field j w (put rest k v)

remove : Fields → String → Fields
remove empty_obj k = empty_obj
remove (field j w rest) k = let kept = remove rest k in if j == k then kept else field j w kept

entry-put :
    (fs : Fields) (k j : String) (v : Value)
    → entry (put fs k v) j ≡ (if k == j then some v else entry fs j)
unfolding entry put
entry-put empty_obj k j v = refl
entry-put (field i w rest) k j v =
    ground (arith, eq_iff k j, eq_iff i k, eq_iff i j, entry-put rest k j v)

has_key-put :
    (fs : Fields) (k j : String) (v : Value)
    → has_key (put fs k v) j ≡ (if k == j then true else has_key fs j)
unfolding has_key put
has_key-put empty_obj k j v = refl
has_key-put (field i w rest) k j v =
    ground (arith, eq_iff k j, eq_iff i k, eq_iff i j, has_key-put rest k j v)

entry-remove :
    (fs : Fields) (k j : String) → entry (remove fs k) j ≡ (if k == j then none else entry fs j)
unfolding entry remove
entry-remove empty_obj k j = ground arith
entry-remove (field i w rest) k j =
    ground (arith, eq_iff k j, eq_iff i k, eq_iff i j, entry-remove rest k j)

has_key-remove :
    (fs : Fields) (k j : String)
    → has_key (remove fs k) j ≡ (if k == j then false else has_key fs j)
unfolding has_key remove
has_key-remove empty_obj k j = ground arith
has_key-remove (field i w rest) k j =
    ground (arith, eq_iff k j, eq_iff i k, eq_iff i j, has_key-remove rest k j)

-- `cur[seg].(map[string]any)`, and the empty map where that is no map
abbrev as_map : Option Value → Option Fields
as_map (some (obj fields)) = some fields
as_map _ = none

abbrev next_map : Fields → String → Fields
next_map fs seg = or_else (as_map (entry fs seg)) empty_obj

set_nested : Fields → List String → String → Fields
set_nested m List.[] value = m
set_nested m (List.◌∷◌ seg List.[]) value =
    if value == ""
    then if has_key m seg then m else put m seg (obj empty_obj)
    else put m seg (str value)
set_nested m (List.◌∷◌ seg (List.◌∷◌ next rest)) value =
    put m seg (obj (set_nested (next_map m seg) (List.◌∷◌ next rest) value))

-- The map that a deletion goes down into; it stops where there is none.
delete_in : Fields → String → Option Fields → (Fields → Fields) → Fields
delete_in m seg none go = m
delete_in m seg (some inner) go = put m seg (obj (go inner))

delete_nested : Fields → List String → Fields
unfolding delete_in
delete_nested m List.[] = m
delete_nested m (List.◌∷◌ seg List.[]) = remove m seg
delete_nested m (List.◌∷◌ seg (List.◌∷◌ next rest)) =
    delete_in m seg (as_map (entry m seg)) (λ inner. delete_nested inner (List.◌∷◌ next rest))

-- The commands' loop of `handleConfigure`, for commands with a path.
pub run_command : Fields → ConfigOpKind → List String → Option String → Fields
run_command m set path value = set_nested m path (or_else value "")
run_command m delete path value = delete_nested m path
run_command m comment path value = m
