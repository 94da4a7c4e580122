-- ===== src/HashTable/Nodes.antt =====
-- src/utils/utils.c: keys, and the nodes of one slot of the hash table.
use taos_connector_odbc.Prelude.{
  if◌then◌else◌, ◌==◌, ==_iff, Bool, true, false, Option, none, some, List, [], ◌∷◌, ◌++◌, ◌≡◌,
  refl, ap, ◌∙◌, Bool-cases, inl, inr,
}
use mathlib.Core.Path.{subst}
use taos_connector_odbc.Odbc.{Text, Pointer}
use taos_connector_odbc.HashTable.{Node, text_eq, find_node, change_node, value_of}

both : (x y : Bool) → (if x then y else false) ≡ true → (x ≡ true) × (y ≡ true)
both true y h = (refl, h)
both false y h = absurd cc

pub text_eq_sound : (j k : Text) → text_eq j k ≡ true → j ≡ k
unfolding text_eq
text_eq_sound [] [] h = refl
text_eq_sound [] (b ∷ ys) h = absurd cc
text_eq_sound (a ∷ xs) [] h = absurd cc
text_eq_sound (a ∷ xs) (b ∷ ys) h =
    let (first, others) = both (a == b) (text_eq xs ys) h in
    let rest = text_eq_sound xs ys others in λ i. (==_iff a b).0 first i ∷ rest i

-- Two different keys are not both equal to a third.
other : (j key k : Text) → text_eq j k ≡ true → text_eq j key ≡ false → text_eq key k ≡ false
other j key k e e' = elim (Bool-cases (text_eq key k)) [
  | inl t ↦ let same = ap (λ x. text_eq j x) (text_eq_sound key k t) in absurd cc
  | inr f ↦ f
]

-- What a lookup finds behind a change of the value of `key`.
unfoldable pub changed : Text → Pointer → Text → Option Pointer → Option Pointer
unfolding text_eq
changed key val k before = if text_eq key k then some val else before

-- A node that has the key of the change and is looked up.
pub value_of-change_node :
    (key : Text) (val : Pointer) (nodes : List Node) (p : Node) (k : Text)
    → find_node key nodes ≡ some p
    → value_of (find_node k (change_node key val nodes))
      ≡ changed key val k (value_of (find_node k nodes))
unfolding find_node change_node changed
value_of-change_node key val [] p k h = absurd cc
value_of-change_node key val (q ∷ qs) p k h = elim (Bool-cases (text_eq q.key key)) [
  | inl e ↦ rw e (elim (Bool-cases (text_eq key k)) [
    | inl e' ↦ rw e' refl
    | inr e' ↦
        rw e' (ap value_of (skip q qs k (ap (λ j. text_eq j k) (text_eq_sound q.key key e) ∙ e')))
  ])
  | inr e ↦ rw e (elim (Bool-cases (text_eq q.key k)) [
    | inl e' ↦ rw (e', other q.key key k e' e) refl
    | inr e' ↦ rw e' (
        value_of-change_node key val qs p k
          (subst (λ b. (if b then some q else find_node key qs) ≡ some p) e h))
  ])
]
  where
    skip :
        (q : Node) (qs : List Node) (k : Text)
        → text_eq q.key k ≡ false
        → find_node k qs ≡ find_node k (q ∷ qs)
    skip q qs k e = unfold find_node in rw e refl

head_differs :
    (key : Text) (q : Node) (qs : List Node)
    → find_node key (q ∷ qs) ≡ none
    → (text_eq q.key key ≡ false) × (find_node key qs ≡ none)
unfolding find_node
head_differs key q qs h = elim (Bool-cases (text_eq q.key key)) [
  | inl e ↦
      let found = subst (λ b. (if b then some q else find_node key qs) ≡ none) e h in absurd cc
  | inr e ↦ (e, subst (λ b. (if b then some q else find_node key qs) ≡ none) e h)
]

pub value_of-append :
    (key : Text) (val : Pointer) (nodes : List Node) (k : Text)
    → find_node key nodes ≡ none
    → value_of (find_node k (nodes ++ (record { key = key; val = val } ∷ [])))
      ≡ changed key val k (value_of (find_node k nodes))
unfolding find_node changed
value_of-append key val [] k h = elim (Bool-cases (text_eq key k)) [
  | inl e ↦ rw e refl
  | inr e ↦ rw e refl
]
value_of-append key val (q ∷ qs) k h =
    let (differs, rest) = head_differs key q qs h in
    elim (Bool-cases (text_eq q.key k)) [
      | inl e ↦ rw (e, other q.key key k e differs) refl
      | inr e ↦ rw e (value_of-append key val qs k rest)
    ]

pub changed-other :
    (key : Text) (val : Pointer) (k : Text) (o : Option Pointer)
    → text_eq key k ≡ false
    → changed key val k o ≡ o
unfolding changed
changed-other key val k o e = rw e refl
