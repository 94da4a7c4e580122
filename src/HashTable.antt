-- ===== src/HashTable.antt =====
-- The hash table of src/utils/utils.c: 17 slots, each with a list of nodes. A value is a pointer;
-- `released` has the values that release_cb was called with, newest first.

pub mod Nodes
pub mod Lookup
mod Tests
use taos_connector_odbc.Prelude.{
  ℕ, zero, suc, ◌+◌, ◌-◌, ◌*◌, ltb, ◌%◌, ◌^◌, if◌then◌else◌, ◌==◌, Bool, true, false, Option, none,
  some, List, [], ◌∷◌, ◌++◌, length, get_elem?, set, replicate,
}
use taos_connector_odbc.Odbc.{Text, Pointer}

pub record Node : Type 0 where
  pub key : Text
  pub val : Pointer

pub record HashTable : Type 0 where
  pub release_cb : Bool
  pub slots : List (List Node)
  pub released : List Pointer

-- strcmp(a, b) == 0
unfoldable pub text_eq : Text → Text → Bool
text_eq [] [] = true
text_eq [] (b ∷ ys) = false
text_eq (a ∷ xs) [] = false
text_eq (a ∷ xs) (b ∷ ys) = if a == b then text_eq xs ys else false

-- A char, which is signed, as a uint32_t.
char_value : ℕ → ℕ
char_value c = if ltb c 128 then c else 2 ^ 32 - 256 + c

-- BKDRHash, a uint32_t.
bkdr_hash_from : ℕ → Text → ℕ
unfolding char_value
bkdr_hash_from hash [] = hash
bkdr_hash_from hash (c ∷ cs) = bkdr_hash_from ((hash * 131 + char_value c) % 2 ^ 32) cs

unfoldable pub slot_of : Text → ℕ
unfolding bkdr_hash_from
slot_of key = bkdr_hash_from 0 key % 17

unfoldable pub hash_table_new : Bool → HashTable
hash_table_new release_cb = record {
  release_cb = release_cb;
  slots = replicate 17 [];
  released = [];
}

-- The nodes of a slot.
unfoldable pub nodes_at : List (List Node) → ℕ → List Node
nodes_at slots i = elim (get_elem? slots i) [ none ↦ [] | some nodes ↦ nodes ]

-- The loop of _hash_table_get.
unfoldable pub find_node : Text → List Node → Option Node
unfolding text_eq
find_node key [] = none
find_node key (p ∷ ps) = if text_eq p.key key then some p else find_node key ps

-- The node that find_node finds, changed.
unfoldable pub change_node : Text → Pointer → List Node → List Node
unfolding text_eq
change_node key val [] = []
change_node key val (p ∷ ps) =
    if text_eq p.key key then record { key = key; val = val } ∷ ps else p ∷ change_node key val ps

put_nodes : HashTable → Text → List Node → HashTable
unfolding slot_of
put_nodes t key nodes = record t { slots = set t.slots (slot_of key) nodes }

release : Pointer → HashTable → HashTable
release val t = if t.release_cb then record t { released = val ∷ t.released } else t

-- `memory` tells whether the allocations of this call succeed; the Boolean is the result 0.
set_found : Bool → HashTable → Text → Pointer → List Node → Option Node → HashTable × Bool
unfolding put_nodes release change_node
set_found memory t key val nodes none =
    if memory
    then (put_nodes t key (nodes ++ (record { key = key; val = val } ∷ [])), true)
    else (t, false)
set_found memory t key val nodes (some p) =
    if p.val == val
    then (t, true)
    else if memory
    then (release p.val (put_nodes t key (change_node key val nodes)), true)
    else (t, false)

unfoldable pub hash_table_set : Bool → HashTable → Text → Pointer → HashTable × Bool
unfolding set_found find_node slot_of nodes_at
hash_table_set memory t key val =
    let nodes = nodes_at t.slots (slot_of key) in
    set_found memory t key val nodes (find_node key nodes)

-- The value of a node; `none` is NULL.
abbrev pub value_of : Option Node → Option Pointer
value_of none = none
value_of (some p) = some p.val

unfoldable pub hash_table_get : HashTable → Text → Option Pointer
unfolding find_node slot_of nodes_at
hash_table_get t key = value_of (find_node key (nodes_at t.slots (slot_of key)))
