-- ===== src/HashTable/Lookup.antt =====
-- src/utils/utils.c: the hash table is a map from keys to values.
use taos_connector_odbc.Prelude.{
  ℕ, ◌<◌, if◌then◌else◌, ◌==◌, ==_iff, Bool, true, false, Option, none, some, List, length, set,
  ◌≡◌, ◌≢◌, refl, sym, ap, ◌∙◌, arith, Bool-cases, inl, inr, get_elem?-set_self, get_elem?-set_ne,
  length-set,
}
use native.Mathlib.Nat.{mod-lt}
use mathlib.Core.Path.{subst}
use taos_connector_odbc.Odbc.{Text, Pointer}
use taos_connector_odbc.HashTable.{
  Node, HashTable, text_eq, slot_of, nodes_at, bkdr_hash_from, find_node, change_node, put_nodes,
  release, set_found, hash_table_new, hash_table_set, hash_table_get, value_of,
}
use taos_connector_odbc.HashTable.Nodes.{
  text_eq_sound, changed, value_of-change_node, value_of-append, changed-other,
}

-- A table has its 17 slots.
pub IsValid : HashTable → Type 0
IsValid t = length t.slots ≡ 17

nodes_at-set_self :
    (slots : List (List Node)) (i : ℕ) (nodes : List Node)
    → i < length slots
    → nodes_at (set slots i nodes) i ≡ nodes
unfolding nodes_at
nodes_at-set_self slots i nodes h = rw (nodes_at, get_elem?-set_self slots i nodes h) refl

nodes_at-set_ne :
    (slots : List (List Node)) (i j : ℕ) (nodes : List Node)
    → i ≢ j
    → nodes_at (set slots i nodes) j ≡ nodes_at slots j
unfolding nodes_at
nodes_at-set_ne slots i j nodes h = rw (nodes_at, get_elem?-set_ne slots i j nodes h) refl

-- A slot replaced by one that changes the value of `key` alone.
find-set :
    (slots : List (List Node)) (i j : ℕ) (key : Text) (val : Pointer) (nodes : List Node) (k : Text)
    → i < length slots
    → ((i ≡ j → ⊥) → text_eq key k ≡ false)
    → value_of (find_node k nodes) ≡ changed key val k (value_of (find_node k (nodes_at slots i)))
    → value_of (find_node k (nodes_at (set slots i nodes) j))
      ≡ changed key val k (value_of (find_node k (nodes_at slots j)))
find-set slots i j key val nodes k h apart step = elim (Bool-cases (i == j)) [
  | inl e ↦
      subst
        (λ j.
          value_of (find_node k (nodes_at (set slots i nodes) j))
          ≡ changed key val k (value_of (find_node k (nodes_at slots j))))
        ((==_iff i j).0 e)
        (ap (λ ns. value_of (find_node k ns)) (nodes_at-set_self slots i nodes h) ∙ step)
  | inr e ↦
      let ne = not_same e in
      ap (λ ns. value_of (find_node k ns)) (nodes_at-set_ne slots i j nodes ne)
      ∙ sym (changed-other key val k _ (apart ne))
]
  where
    not_same : (i == j) ≡ false → i ≢ j
    not_same e same = let t = (==_iff i j).1 same in absurd cc

get-put_nodes :
    (t : HashTable) (key : Text) (val : Pointer) (nodes : List Node) (k : Text)
    → IsValid t
    → value_of (find_node k nodes)
      ≡ changed key val k (value_of (find_node k (nodes_at t.slots (slot_of key))))
    → hash_table_get (put_nodes t key nodes) k ≡ changed key val k (hash_table_get t k)
unfolding hash_table_get put_nodes IsValid
get-put_nodes t key val nodes k v step =
    find-set t.slots (slot_of key) (slot_of k) key val nodes k in_range apart step
  where
    in_range : slot_of key < length t.slots
    in_range =
        unfold slot_of in omega (arith, v, mod-lt (bkdr_hash_from 0 key) {m = 17} (omega arith))

    apart : (slot_of key ≢ slot_of k) → text_eq key k ≡ false
    apart ne = elim (Bool-cases (text_eq key k)) [
      | inl e ↦ absurd (ne (ap slot_of (text_eq_sound key k e)))
      | inr e ↦ e
    ]

-- What hash_table_get should find for each key behind hash_table_set.
pub expected : Bool → HashTable → Text → Pointer → Text → Option Pointer
unfolding changed
expected done t key val k =
    if done then changed key val k (hash_table_get t k) else hash_table_get t k

release-slots : (val : Pointer) (t : HashTable) → (release val t).slots ≡ t.slots
unfolding release
release-slots val t = elim (Bool-cases t.release_cb) [ inl e ↦ rw e refl | inr e ↦ rw e refl ]

get-release :
    (val : Pointer) (t : HashTable) (k : Text)
    → hash_table_get (release val t) k ≡ hash_table_get t k
unfolding hash_table_get
get-release val t k =
    ap (λ slots. value_of (find_node k (nodes_at slots (slot_of k)))) (release-slots val t)

same_value :
    (t : HashTable) (key : Text) (val : Pointer) (k : Text)
    → hash_table_get t key ≡ some val
    → hash_table_get t k ≡ changed key val k (hash_table_get t k)
unfolding changed
same_value t key val k h = elim (Bool-cases (text_eq key k)) [
  | inl e ↦ rw e (ap (λ j. hash_table_get t j) (sym (text_eq_sound key k e)) ∙ h)
  | inr e ↦ rw e refl
]

set_found-get :
    (memory : Bool) (t : HashTable) (key : Text) (val : Pointer) (o : Option Node) (k : Text)
    → IsValid t
    → find_node key (nodes_at t.slots (slot_of key)) ≡ o
    → hash_table_get (set_found memory t key val (nodes_at t.slots (slot_of key)) o).0 k
      ≡ expected (set_found memory t key val (nodes_at t.slots (slot_of key)) o).1 t key val k
unfolding set_found expected
set_found-get true t key val none k v e =
    get-put_nodes t key val _ k v (value_of-append key val _ k e)
set_found-get false t key val none k v e = refl
set_found-get memory t key val (some p) k v e = elim (Bool-cases (p.val == val)) [
  | inl same ↦ rw same (
      same_value t key val k
        (unfold hash_table_get in ap value_of e ∙ ap some ((==_iff p.val val).0 same)))
  | inr new ↦ rw new (replaced memory)
]
  where
    nodes : List Node
    nodes = change_node key val (nodes_at t.slots (slot_of key))

    result : Bool → HashTable × Bool
    result memory = if memory then (release p.val (put_nodes t key nodes), true) else (t, false)

    replaced :
        (memory : Bool)
        → hash_table_get (result memory).0 k ≡ (
            if (result memory).1
            then changed key val k (hash_table_get t k)
            else hash_table_get t k)
    replaced true =
        get-release p.val _ k ∙ get-put_nodes t key val _ k v (value_of-change_node key val _ p k e)
    replaced false = refl

-- hash_table_set on a table with its 17 slots, when it returns 0, changes what hash_table_get
-- finds for its key to the value and for no other key; when it returns -1 it changes nothing.
pub get-set :
    (memory : Bool) (t : HashTable) (key : Text) (val : Pointer) (k : Text)
    → IsValid t
    → hash_table_get (hash_table_set memory t key val).0 k
      ≡ expected (hash_table_set memory t key val).1 t key val k
unfolding hash_table_set
get-set memory t key val k v = set_found-get memory t key val _ k v refl

length-put_nodes :
    (t : HashTable) (key : Text) (nodes : List Node)
    → length (put_nodes t key nodes).slots ≡ length t.slots
unfolding put_nodes
length-put_nodes t key nodes = length-set t.slots (slot_of key) nodes

set_found-IsValid :
    (memory : Bool) (t : HashTable) (key : Text) (val : Pointer) (nodes : List Node)
    (o : Option Node)
    → IsValid t
    → IsValid (set_found memory t key val nodes o).0
unfolding set_found IsValid
set_found-IsValid true t key val nodes none v = length-put_nodes t key _ ∙ v
set_found-IsValid false t key val nodes none v = v
set_found-IsValid memory t key val nodes (some p) v = elim (Bool-cases (p.val == val)) [
  | inl same ↦ rw same v
  | inr new ↦ rw new (elim (Bool-cases memory) [
    | inl e ↦ rw e (ap length (release-slots p.val _) ∙ length-put_nodes t key _ ∙ v)
    | inr e ↦ rw e v
  ])
]

pub new-IsValid : (release_cb : Bool) → IsValid (hash_table_new release_cb)
unfolding hash_table_new IsValid
new-IsValid release_cb = refl
