-- ===== src/Handles/Counts.antt =====
-- Counting the handles of a connection (src/core/conn.c, src/core/desc.c) that refer to an object.
use taos_connector_odbc.Prelude.{
  ℕ, zero, suc, ◌+◌, ◌≤◌, if◌then◌else◌, Bool, true, Option, none, some, List, [], ◌∷◌, ◌++◌,
  get_elem?, length, set, get_elem?-set_ne, ◌≢◌, ◌⊎◌, ◌≡◌, refl, sym, ap, arith, Bool-cases, inl,
  inr,
}
use mathlib.Core.Path.{subst}
use taos_connector_odbc.Handles.{
  StmtHandle, Role, associated, is_desc, first_associated, next_index, alive, bind,
}

module _ {A : Type 0} where
  abbrev pub total : (A → ℕ) → List A → ℕ
  total f [] = 0
  total f (x ∷ xs) = f x + total f xs

  pub total-append : (f : A → ℕ) (xs ys : List A) → total f (xs ++ ys) ≡ total f xs + total f ys
  total-append f [] ys = omega arith
  total-append f (x ∷ xs) ys = omega (arith, total-append f xs ys)

  -- An element is replaced.
  pub total-set :
      (f : A → ℕ) (xs : List A) (i : ℕ) (x y : A)
      → get_elem? xs i ≡ some x
      → total f (set xs i y) + f x ≡ total f xs + f y
  total-set f [] i x y h = absurd (cc h)
  total-set f (x' ∷ xs) zero x y h = let e : f x' ≡ f x = ground (arith, h) in omega (arith, e)
  total-set f (x' ∷ xs) (suc i) x y h = omega (arith, total-set f xs i x y h)

  pub total_at :
      (f : A → ℕ) (xs : List A) (i : ℕ) (x : A) → get_elem? xs i ≡ some x → f x ≤ total f xs
  total_at f [] i x h = absurd (cc h)
  total_at f (x' ∷ xs) zero x h = let e : f x' ≡ f x = ground (arith, h) in omega (arith, e)
  total_at f (x' ∷ xs) (suc i) x h = omega (arith, total_at f xs i x h)

  -- The objects that are there.
  abbrev pub present : Option A → ℕ
  present none = 0
  present (some x) = 1

abbrev pub flag : Bool → ℕ
flag b = if b then 1 else 0

-- The references of a statement to descriptor `d`, in a role.
abbrev pub refers : Role → ℕ → Option StmtHandle → ℕ
refers role d none = 0
refers role d (some st) = flag (is_desc d (associated role st))

-- The statements associated with descriptor `d`.
abbrev pub users : Role → ℕ → List (Option StmtHandle) → ℕ
users role d = total (refers role d)

refers_le : (role : Role) (d : ℕ) (x : Option StmtHandle) → refers role d x ≤ 1
refers_le role d none = omega arith
refers_le role d (some st) = ground arith

pub users_le :
    (role : Role) (d : ℕ) (sts : List (Option StmtHandle)) → users role d sts ≤ length sts
users_le role d [] = omega arith
users_le role d (x ∷ sts) = omega (arith, refers_le role d x, users_le role d sts)

-- What the search for a statement finds.
abbrev pub Finds : Role → ℕ → List (Option StmtHandle) → Option ℕ → Type 0
Finds role d sts none = users role d sts ≡ 0
Finds role d sts (some i) =
    (st : StmtHandle) × (alive sts i ≡ some st) × (associated role st ≡ some d)

Finds-next :
    (role : Role) (d : ℕ) (x : Option StmtHandle) (sts : List (Option StmtHandle)) (o : Option ℕ)
    → refers role d x ≡ 0
    → Finds role d sts o
    → Finds role d (x ∷ sts) (next_index o)
Finds-next role d x sts none e h = omega (arith, e, h)
Finds-next role d x sts (some i) e h = h

is_desc→eq : (d : ℕ) (o : Option ℕ) → is_desc d o ≡ true → o ≡ some d
is_desc→eq d none h = absurd (cc h)
is_desc→eq d (some e) h = ground (arith, h)

pub first_associated-Finds :
    (role : Role) (d : ℕ) (sts : List (Option StmtHandle))
    → Finds role d sts (first_associated role d sts)
unfolding first_associated
first_associated-Finds role d [] = refl
first_associated-Finds role d (none ∷ sts) =
    Finds-next role d none sts (first_associated role d sts) refl
      (first_associated-Finds role d sts)
first_associated-Finds role d (some st ∷ sts) = elim (Bool-cases (is_desc d (associated role st))) [
  | inl e ↦ rw e (st, refl, is_desc→eq d (associated role st) e)
  | inr e ↦
      let search = first_associated role d sts in
      subst (λ b. Finds role d (some st ∷ sts) (if b then some 0 else next_index search)) (sym e)
        (Finds-next role d (some st) sts search (rw e refl) (first_associated-Finds role d sts))
]

pub alive→get_elem? :
    {A : Type 0} (xs : List (Option A)) (i : ℕ) (x : A)
    → alive xs i ≡ some x
    → get_elem? xs i ≡ some (some x)
alive→get_elem? [] i x h = absurd (cc h)
alive→get_elem? (x' ∷ xs) zero x h = ap some h
alive→get_elem? (x' ∷ xs) (suc i) x h = alive→get_elem? xs i x h

pub alive-set_self :
    {A : Type 0} (xs : List (Option A)) (i : ℕ) (x y : A)
    → alive xs i ≡ some x
    → alive (set xs i (some y)) i ≡ some y
alive-set_self [] i x y h = absurd (cc h)
alive-set_self (x' ∷ xs) zero x y h = refl
alive-set_self (x' ∷ xs) (suc i) x y h = alive-set_self xs i x y h

pub alive-set_ne :
    {A : Type 0} (xs : List (Option A)) (i j : ℕ) (y : Option A)
    → i ≢ j
    → alive (set xs i y) j ≡ alive xs j
alive-set_ne xs i j y h = ap (λ o. bind o (λ x. x)) (get_elem?-set_ne xs i j y h)

pub alive-set-none : {A : Type 0} (xs : List (Option A)) (i : ℕ) → alive (set xs i none) i ≡ none
alive-set-none [] i = refl
alive-set-none (x ∷ xs) zero = refl
alive-set-none (x ∷ xs) (suc i) = alive-set-none xs i

-- A new object behind the others.
pub alive-append :
    {A : Type 0} (xs : List (Option A)) (y : Option A) (i : ℕ)
    → (alive (xs ++ y ∷ []) i ≡ alive xs i) ⊎ ((alive xs i ≡ none) × (alive (xs ++ y ∷ []) i ≡ y))
alive-append [] y zero = inr (refl, refl)
alive-append [] y (suc i) = inl refl
alive-append (x ∷ xs) y zero = inl refl
alive-append (x ∷ xs) y (suc i) = alive-append xs y i
