-- ===== src/Wildcard.antt =====
-- src/utils/utils.c: the patterns of the catalog functions, compiled to nodes (_wild_comp) and run
-- over a string (_wild_exec and the functions that it calls). Strings are lists of UCS-4 code
-- points, which mem_conv ends with a zero.
pub mod Like
pub mod Steps
pub mod Rounds
pub mod Compiled
pub mod Executed
mod Tests
use taos_connector_odbc.Prelude.{
  ℕ, zero, suc, ◌+◌, ◌%◌, ◌==◌, if◌then◌else◌, Bool, true, false, not, ◌&&◌, Option, none, some,
  List, [], ◌∷◌, ◌++◌, length,
}

-- wildex_node_t: the function that matches, with `base` and `nr`.
pub data Node : Type 0 where
  match_all : Node
  match_one : ℕ → Node
  match_specific : List ℕ → Node

-- The function that `prev` points to, if any.
pub data Prev : Type 0 where
  no_prev prev_all prev_one : Prev

abbrev pub backslash : ℕ
backslash = 92

abbrev pub percent : ℕ
percent = 37

abbrev pub underscore : ℕ
underscore = 95

-- The state of the loop of _wild_comp: the nodes, newest first, and what lies between `s` and `p`.
pub record Comp : Type 0 where
  pub nodes : List Node
  pub prev : Prev
  pub escaping : Bool
  pub span : List ℕ

-- `realloc_ok` is the outcome of the realloc when the nodes fill their capacity, a multiple of 16.
pub wild_append : Bool → Node → List Node → Option (List Node)
wild_append realloc_ok n nodes =
    if (length nodes % 16 == 0) && not realloc_ok then none else some (n ∷ nodes)

-- `if (p > s)`: a node for what lies between.
pub flush : Bool → List ℕ → List Node → Option (List Node)
unfolding wild_append
flush realloc_ok [] nodes = some nodes
flush realloc_ok (c ∷ cs) nodes = wild_append realloc_ok (match_specific (c ∷ cs)) nodes

abbrev pub bind : {A B : Type 0} → Option A → (A → Option B) → Option B
bind none f = none
bind (some a) f = f a

-- ++node->nr of the last node.
pub lengthen : List Node → List Node
lengthen (match_one n ∷ nodes) = match_one (suc n) ∷ nodes
lengthen nodes = nodes

-- An escaped character.
pub comp_escaped : Bool → ℕ → Comp → Option Comp
unfolding wild_append
comp_escaped realloc_ok c st =
    bind (wild_append realloc_ok (match_specific (c ∷ [])) st.nodes)
      λ nodes. some (record { nodes = nodes; prev = no_prev; escaping = false; span = [] })

-- A node of another kind behind what lies between.
pub comp_new : Bool → Node → Prev → Comp → Option Comp
unfolding wild_append flush
comp_new realloc_ok n prev st = bind (flush realloc_ok st.span st.nodes) λ nodes.
    bind (wild_append realloc_ok n nodes)
      λ nodes'. some (record { nodes = nodes'; prev = prev; escaping = false; span = [] })

pub comp_percent : Bool → Prev → Comp → Option Comp
unfolding comp_new
comp_percent realloc_ok prev_all st = some (record st { span = [] })
comp_percent realloc_ok _ st = comp_new realloc_ok match_all prev_all st

pub comp_underscore : Bool → Prev → Comp → Option Comp
unfolding comp_new lengthen
comp_underscore realloc_ok prev_one st = some (record st { nodes = lengthen st.nodes; span = [] })
comp_underscore realloc_ok _ st = comp_new realloc_ok (match_one 1) prev_one st

pub comp_backslash : Bool → Comp → Option Comp
unfolding flush
comp_backslash realloc_ok st =
    bind (flush realloc_ok st.span st.nodes)
      λ nodes. some (record st { nodes = nodes; escaping = true; span = [] })

-- One round of the loop of _wild_comp, with `escaping` as it is.
pub comp_char : Bool → Bool → ℕ → Comp → Option Comp
unfolding comp_escaped comp_percent comp_underscore comp_backslash
comp_char realloc_ok escaping c st =
    if c == backslash
    then if escaping then none else comp_backslash realloc_ok st
    else if c == percent
    then if escaping then comp_escaped realloc_ok c st else comp_percent realloc_ok st.prev st
    else if c == underscore
    then if escaping then comp_escaped realloc_ok c st else comp_underscore realloc_ok st.prev st
    else if escaping
    then none
    else some (record st { prev = no_prev; span = st.span ++ c ∷ [] })

pub comp_step : Bool → ℕ → Comp → Option Comp
unfolding comp_char
comp_step realloc_ok c st = comp_char realloc_ok st.escaping c st

abbrev pub in_order : List Node → List Node → List Node
in_order [] later = later
in_order (n ∷ nodes) later = in_order nodes (n ∷ later)

-- The rest of the loop, and what follows it.
pub comp_from : Bool → List ℕ → Comp → Option (List Node)
unfolding comp_step flush
comp_from realloc_ok [] st =
    bind (flush realloc_ok st.span st.nodes) λ nodes. some (in_order nodes [])
comp_from realloc_ok (c ∷ cs) st = bind (comp_step realloc_ok c st) (comp_from realloc_ok cs)

abbrev pub start_comp : Comp
start_comp = record { nodes = []; prev = no_prev; escaping = false; span = [] }

-- _wild_comp
unfoldable pub wild_comp : Bool → List ℕ → Option (List Node)
unfolding comp_from
wild_comp realloc_ok ex = comp_from realloc_ok ex start_comp

-- What is left behind `n` characters, unless the string ends before.
pub skip_chars : ℕ → List ℕ → Option (List ℕ)
skip_chars zero s = some s
skip_chars (suc n) [] = none
skip_chars (suc n) (c ∷ s) = if c == 0 then none else skip_chars n s

-- What is left behind the characters of a node, if the string starts with them (memcmp).
pub skip_specific : List ℕ → List ℕ → Option (List ℕ)
skip_specific [] s = some s
skip_specific (c ∷ cs) [] = none
skip_specific (c ∷ cs) (c' ∷ s) = if c == c' then skip_specific cs s else none

-- The loop of _wild_match_all over the places where the rest of the pattern may start.
pub match_from : (List ℕ → Bool) → List ℕ → Bool
match_from exec [] = false
match_from exec (c ∷ s) =
    let later = match_from exec s in if c == 0 then false else if exec (c ∷ s) then true else later

abbrev pub is_end : List ℕ → Bool
is_end [] = true
is_end (c ∷ s) = false

abbrev pub and_then : Option (List ℕ) → (List ℕ → Bool) → Bool
and_then none f = false
and_then (some s) f = f s

-- The test of the first character and the loop of _wild_match_one, then the rest of the pattern.
pub one_chars : ℕ → (List ℕ → Bool) → List ℕ → Bool
unfolding skip_chars
one_chars k exec [] = false
one_chars k exec (c ∷ s) = if c == 0 then false else and_then (skip_chars k (c ∷ s)) exec

-- _wild_exec with _wild_match_all, _wild_match_one and _wild_match_specific: what `matched` is for
-- the nodes from `inode` on.
unfoldable pub wild_exec : List Node → List ℕ → Bool
unfolding one_chars skip_specific match_from
wild_exec [] s = is_end s
wild_exec (match_all ∷ []) s = true
wild_exec (match_all ∷ n ∷ nodes) s = match_from (wild_exec (n ∷ nodes)) s
wild_exec (match_one k ∷ []) s = one_chars k is_end s
wild_exec (match_one k ∷ n ∷ nodes) s = one_chars k (wild_exec (n ∷ nodes)) s
wild_exec (match_specific cs ∷ []) s = and_then (skip_specific cs s) (λ rest. true)
wild_exec (match_specific cs ∷ n ∷ nodes) s = and_then (skip_specific cs s) (wild_exec (n ∷ nodes))
