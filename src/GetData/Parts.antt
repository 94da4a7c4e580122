-- ===== src/GetData/Parts.antt =====
-- SQLGetData called until it reports no more data puts the whole value together again: the
-- application's loop, and what each call must do for it.
use taos_connector_odbc.Prelude.{
  refl, ℕ, zero, suc, ◌<◌, Option, none, some, List, [], ◌++◌, length, ◌≡◌, sym, ap, ◌∙◌, arith,
  inl, inr, ◌⊎◌,
}
use mathlib.Core.List.{append-nil}
use taos_connector_odbc.Odbc.{SqlReturn, sql_success, sql_success_with_info, Pointer}
use taos_connector_odbc.GetData.State.{Stmt, Value, bytes, value_of}

join : List ℕ → Option (List ℕ) → Option (List ℕ)
join part none = none
join part (some rest) = some (part ++ rest)

-- What the application makes of a part by its return code, given what later calls bring.
gather : SqlReturn → List ℕ → Option (List ℕ) → Option (List ℕ)
unfolding join
gather sql_success part rest = some part
gather sql_success_with_info part rest = join part rest
gather _ part rest = none

module _ {F : Type 0} where
  -- The bytes that a call left in the application's buffer.
  abbrev pub received : Option (Value F) → List ℕ
  received (some (bytes bs)) = bs
  received _ = []

  -- The application's loop around SQLGetData: it appends the parts until the last one.
  unfoldable pub read_all : ℕ → (Stmt F → Stmt F × SqlReturn) → Pointer → Stmt F → Option (List ℕ)
  unfolding gather
  read_all zero call p s = none
  read_all (suc fuel) call p s =
      gather (call s).1 (received (value_of p (call s).0.writes)) (read_all fuel call p (call s).0)

  -- What one call does to the bytes that are pending: it delivers all of them and succeeds, or
  -- delivers some, keeps the others, and says so.
  pub record Part (p : Pointer) (pending : List ℕ) (after : Stmt F → Option (List ℕ))
      (out : Stmt F × SqlReturn) : Type 0 where
    pub left : List ℕ
    pub split : received (value_of p out.0.writes) ++ left ≡ pending
    pub last :
        (out.1 ≡ sql_success) × (left ≡ [])
        ⊎ (out.1 ≡ sql_success_with_info)
          × (after out.0 ≡ some left)
          × (length left < length pending)

  -- States from which the first calls agree are read alike.
  pub read_all-same :
      (call : Stmt F → Stmt F × SqlReturn) (p : Pointer) (s s' : Stmt F)
      → call s ≡ call s'
      → (fuel : ℕ) → read_all fuel call p s ≡ read_all fuel call p s'
  unfolding read_all
  read_all-same call p s s' e zero = refl
  read_all-same call p s s' e (suc fuel) =
      ap (λ out. gather out.1 (received (value_of p out.0.writes)) (read_all fuel call p out.0)) e

  -- Any calls of this kind put the pending bytes together, given a call for each byte.
  pub read_all-Part :
      (call : Stmt F → Stmt F × SqlReturn) (p : Pointer) (after : Stmt F → Option (List ℕ))
      → ((s : Stmt F) (pending : List ℕ) → after s ≡ some pending → Part p pending after (call s))
      → (fuel : ℕ) (s : Stmt F) (pending : List ℕ) → after s ≡ some pending
      → length pending < fuel
      → read_all fuel call p s ≡ some pending
  unfolding read_all
  read_all-Part call p after parts zero s pending e h = elim h [ ]
  read_all-Part call p after parts (suc fuel) s pending e h =
      let part = parts s pending e in
      let got = received (value_of p (call s).0.writes) in
      elim part.last [
        | inl (r, none_left) ↦
            rw (r, read_all)
              (ap some (sym (append-nil got) ∙ ap (λ l. got ++ l) (sym none_left) ∙ part.split))
        | inr (r, e', less) ↦
            let rest =
              read_all-Part call p after parts fuel (call s).0 part.left e' (omega arith) in
            rw (r, rest) (ap some part.split)
      ]
