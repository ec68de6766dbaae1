-- ===== src/Config/Router/Fake/Laws.antt =====
-- The fake server is a `Router`.
use Prim.Native.String.{String}
use vyos_client.Base.{
  true, false, Option, none, some, List, [], ◌∷◌, ◌≡◌, ◌≢◌, refl, subst, ◌∙◌, ap, inl, inr, ◌==◌,
  eq_iff, eq_refl, arith, or_else, Bool-cases,
}
use vyos_client.Base.Text.{eq-false_of_ne}
use vyos_client.Json.{
  Value, undefined, str, obj, Fields, empty_obj, entry, has_key, child, is_flag_present,
}
use vyos_client.Json.Paths.{get_path, has_path, apart, is_nonempty}
use vyos_client.Config.Op.{ConfigOp, ConfigOpKind, set, delete, comment}
use vyos_client.Config.Router.{Router}
use vyos_client.Config.Router.Fake.{
  put, remove, entry-put, has_key-put, entry-remove, has_key-remove, as_map, next_map, set_nested,
  delete_in, delete_nested, run_command,
}

child-put_self : (fs : Fields) (k : String) (v : Value) → child (obj (put fs k v)) k ≡ v
unfolding child
child-put_self fs k v = rw (entry-put fs k k v, eq_refl k)

child-put_ne :
    (fs : Fields) (k j : String) (v : Value)
    → (k == j) ≡ false
    → child (obj (put fs k v)) j ≡ child (obj fs) j
unfolding child
child-put_ne fs k j v h = rw (entry-put fs k j v, h)

get_path-set_nested :
    (m : Fields) (p : List String) (v : String)
    → is_nonempty p ≡ true
    → v ≢ ""
    → get_path (obj (set_nested m p v)) p ≡ str v
unfolding set_nested
get_path-set_nested m [] v h n = cc
get_path-set_nested m (k ∷ []) v h n = rw (eq-false_of_ne v "" n) (child-put_self m k (str v))
get_path-set_nested m (k ∷ l ∷ p) v h n =
    rw child-put_self (get_path-set_nested (next_map m k) (l ∷ p) v refl n)

has_path-set_nested :
    (m : Fields) (p : List String) (v : String)
    → is_nonempty p ≡ true
    → has_path (obj (set_nested m p v)) p ≡ true
unfolding set_nested is_flag_present
has_path-set_nested m [] v h = cc
has_path-set_nested m (k ∷ []) v h =
    ground (arith, eq_iff k k, has_key-put m k k (obj empty_obj), has_key-put m k k (str v))
has_path-set_nested m (k ∷ l ∷ p) v h =
    rw child-put_self (has_path-set_nested (next_map m k) (l ∷ p) v refl)

-- A node that is no map has nothing below it, like an empty map.
get_path-next_map :
    (m : Fields) (k l : String) (q : List String)
    → get_path (obj (next_map m k)) (l ∷ q) ≡ get_path (child (obj m) k) (l ∷ q)
unfolding child
get_path-next_map m k l q = go (entry m k)
  where
    go :
        (o : Option Value)
        → get_path (obj (or_else (as_map o) empty_obj)) (l ∷ q)
          ≡ get_path (or_else o undefined) (l ∷ q)
    go none = refl
    go (some (obj fields)) = refl
    go (some _) = refl

has_path-next_map :
    (m : Fields) (k l : String) (q : List String)
    → has_path (obj (next_map m k)) (l ∷ q) ≡ has_path (child (obj m) k) (l ∷ q)
unfolding child is_flag_present
has_path-next_map m k l [] = go (entry m k)
  where
    go :
        (o : Option Value)
        → is_flag_present (obj (or_else (as_map o) empty_obj)) l
          ≡ is_flag_present (or_else o undefined) l
    go none = refl
    go (some (obj fields)) = refl
    go (some _) = refl
has_path-next_map m k l (i ∷ q) = go (entry m k)
  where
    go :
        (o : Option Value)
        → has_path (obj (or_else (as_map o) empty_obj)) (l ∷ i ∷ q)
          ≡ has_path (or_else o undefined) (l ∷ i ∷ q)
    go none = refl
    go (some (obj fields)) = refl
    go (some _) = refl

-- Two maps read alike at a path.
abbrev pub Same : Fields → Fields → List String → Type 0
Same m n q = (get_path (obj m) q ≡ get_path (obj n) q) × (has_path (obj m) q ≡ has_path (obj n) q)

Same-put_ne :
    (m : Fields) (k j : String) (v : Value) (q : List String)
    → (k == j) ≡ false
    → Same (put m k v) m (j ∷ q)
unfolding is_flag_present
Same-put_ne m k j v [] h = (child-put_ne m k j v h, rw (has_key-put m k j v, h))
Same-put_ne m k j v (i ∷ q) h =
    let e = child-put_ne m k j v h in
    (ap (λ c. get_path c (i ∷ q)) e, ap (λ c. has_path c (i ∷ q)) e)

Same-put_self :
    (m n : Fields) (k i : String) (q : List String)
    → Same n (next_map m k) (i ∷ q)
    → Same (put m k (obj n)) m (k ∷ i ∷ q)
Same-put_self m n k i q (e, f) = (
  ap (λ c. get_path c (i ∷ q)) (child-put_self m k (obj n)) ∙ e ∙ get_path-next_map m k i q,
  ap (λ c. has_path c (i ∷ q)) (child-put_self m k (obj n)) ∙ f ∙ has_path-next_map m k i q,
)

-- Writing a map at `k` that reads like the one there, where that is asked for.
Same-put :
    (m n : Fields) (k l j : String) (p q : List String)
    → (apart (l ∷ p) q ≡ true → Same n (next_map m k) q)
    → apart (k ∷ l ∷ p) (j ∷ q) ≡ true
    → Same (put m k (obj n)) m (j ∷ q)
Same-put m n k l j p q ih h = elim (Bool-cases (k == j)) [
  | inr other ↦ Same-put_ne m k j (obj n) q other
  | inl same ↦
      subst (λ x. Same (put m k (obj n)) m (x ∷ q)) ((eq_iff k j).0 same)
        (below q ih (ground (arith, eq_iff k j)))
]
  where
    below :
        (q : List String)
        → (apart (l ∷ p) q ≡ true → Same n (next_map m k) q)
        → apart (l ∷ p) q ≡ true
        → Same (put m k (obj n)) m (k ∷ q)
    below [] ih a = cc
    below (i ∷ q') ih a = Same-put_self m n k i q' (ih a)

set_nested-apart :
    (m : Fields) (p : List String) (v : String) (q : List String)
    → apart p q ≡ true
    → Same (set_nested m p v) m q
unfolding set_nested
set_nested-apart m [] v q h = cc
set_nested-apart m (k ∷ []) v [] h = cc
set_nested-apart m (k ∷ []) v (j ∷ q) h =
    let other : (k == j) ≡ false = ground arith in
    elim (Bool-cases (v == "")) [
      | inr text ↦ rw text (Same-put_ne m k j (str v) q other)
      | inl none_given ↦ rw none_given (elim (Bool-cases (has_key m k)) [
        | inl there ↦ rw there (refl, refl)
        | inr missing ↦ rw missing (Same-put_ne m k j (obj empty_obj) q other)
      ])
    ]
set_nested-apart m (k ∷ l ∷ p) v [] h = cc
set_nested-apart m (k ∷ l ∷ p) v (j ∷ q) h =
    Same-put m (set_nested (next_map m k) (l ∷ p) v) k l j p q
      (set_nested-apart (next_map m k) (l ∷ p) v q) h

remove-apart :
    (m : Fields) (k j : String) (q : List String) → (k == j) ≡ false → Same (remove m k) m (j ∷ q)
unfolding child is_flag_present
remove-apart m k j [] h = ground (arith, entry-remove m k j, has_key-remove m k j)
remove-apart m k j (i ∷ q) h =
    let e : child (obj (remove m k)) j ≡ child (obj m) j = rw (entry-remove m k j, h) in
    (ap (λ c. get_path c (i ∷ q)) e, ap (λ c. has_path c (i ∷ q)) e)

delete_in-apart :
    (m : Fields) (k l j : String) (p q : List String) (o : Option Value)
    → ((inner : Fields) → apart (l ∷ p) q ≡ true → Same (delete_nested inner (l ∷ p)) inner q)
    → apart (k ∷ l ∷ p) (j ∷ q) ≡ true
    → entry m k ≡ o
    → Same (delete_in m k (as_map o) (λ inner. delete_nested inner (l ∷ p))) m (j ∷ q)
unfolding delete_in
delete_in-apart m k l j p q (some (obj inner)) ih h e =
    Same-put m (delete_nested inner (l ∷ p)) k l j p q (λ a. rw e (ih inner a)) h
delete_in-apart m k l j p q _ ih h e = (refl, refl)

delete_nested-apart :
    (m : Fields) (p q : List String) → apart p q ≡ true → Same (delete_nested m p) m q
unfolding delete_nested
delete_nested-apart m [] q h = cc
delete_nested-apart m (k ∷ []) [] h = cc
delete_nested-apart m (k ∷ []) (j ∷ q) h = remove-apart m k j q (ground arith)
delete_nested-apart m (k ∷ l ∷ p) [] h = cc
delete_nested-apart m (k ∷ l ∷ p) (j ∷ q) h =
    delete_in-apart m k l j p q (entry m k) (λ inner. delete_nested-apart inner (l ∷ p) q) h refl

-- Nothing is left at a path that was deleted.
abbrev pub Gone : Fields → List String → Type 0
Gone m p = (get_path (obj m) p ≡ undefined) × (has_path (obj m) p ≡ false)

-- There is nothing below a value that is no object.
no_children :
    (v : Value) (l : String) (p : List String)
    → as_map (some v) ≡ none
    → (get_path v (l ∷ p) ≡ undefined) × (has_path v (l ∷ p) ≡ false)
unfolding child is_flag_present
no_children (obj fields) l p h = cc
no_children v l [] h = (refl, refl)
no_children v l (i ∷ p) h = no_children undefined i p refl

child_of_entry :
    (m : Fields) (k : String) (o : Option Value)
    → entry m k ≡ o
    → child (obj m) k ≡ or_else o undefined
unfolding child
child_of_entry m k o e = rw e

delete_in-Gone :
    (m : Fields) (k l : String) (p : List String) (o : Option Value)
    → ((inner : Fields) → Gone (delete_nested inner (l ∷ p)) (l ∷ p))
    → entry m k ≡ o
    → Gone (delete_in m k (as_map o) (λ inner. delete_nested inner (l ∷ p))) (k ∷ l ∷ p)
unfolding delete_in
delete_in-Gone m k l p (some (obj inner)) ih e = rw child-put_self (ih inner)
delete_in-Gone m k l p none ih e =
    let c : child (obj m) k ≡ undefined = child_of_entry m k none e in
    rw c (no_children undefined l p refl)
delete_in-Gone m k l p (some v) ih e =
    let c : child (obj m) k ≡ v = child_of_entry m k (some v) e in rw c (no_children v l p refl)

delete_nested-Gone :
    (m : Fields) (p : List String) → is_nonempty p ≡ true → Gone (delete_nested m p) p
unfolding delete_nested
delete_nested-Gone m [] h = cc
delete_nested-Gone m (k ∷ []) h =
    unfold child is_flag_present in
    ground (arith, eq_iff k k, entry-remove m k k, has_key-remove m k k)
delete_nested-Gone m (k ∷ l ∷ p) h =
    delete_in-Gone m k l p (entry m k) (λ inner. delete_nested-Gone inner (l ∷ p) refl) refl

pub run-apart :
    (m : Fields) (op : ConfigOp) (q : List String)
    → apart op.path q ≡ true
    → Same (run_command m op.op op.path op.value) m q
unfolding run_command
run-apart m op q h = go op.op
  where
    go : (k : ConfigOpKind) → Same (run_command m k op.path op.value) m q
    go set = set_nested-apart m op.path (or_else op.value "") q h
    go delete = delete_nested-apart m op.path q h
    go comment = (refl, refl)

pub run_set-get_path :
    (m : Fields) (p : List String) (v : String)
    → is_nonempty p ≡ true
    → v ≢ ""
    → get_path (obj (run_command m set p (some v))) p ≡ str v
unfolding run_command
run_set-get_path m p v h n = get_path-set_nested m p v h n

pub run_set-has_path :
    (m : Fields) (p : List String)
    → is_nonempty p ≡ true
    → has_path (obj (run_command m set p none)) p ≡ true
unfolding run_command
run_set-has_path m p h = has_path-set_nested m p "" h

pub run_delete-Gone :
    (m : Fields) (p : List String) → is_nonempty p ≡ true → Gone (run_command m delete p none) p
unfolding run_command
run_delete-Gone m p h = delete_nested-Gone m p h

-- The fake server as a `Router`: each of its paths holds one value.
unfoldable pub fake_router : Router
fake_router = record {
  State = Fields;
  tree = obj;
  run = λ m op. run_command m op.op op.path op.value;
  single_valued = is_nonempty;
  run-set_value = run_set-get_path;
  run-set_node = run_set-has_path;
  run-delete_node = run_delete-Gone;
  run-apart = run-apart;
}
