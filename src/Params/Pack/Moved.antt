-- ===== src/Params/Pack/Moved.antt =====
-- src/core/stmt.c: a row of a column of variable length is moved down to the packed ones.
use taos_connector_odbc.Prelude.{
  ℕ, zero, suc, ◌+◌, ◌*◌, ◌≤◌, ◌==◌, leb, some, List, [], ◌∷◌, ◌++◌, length, take, drop,
  length-take, length-drop, length-append, ◌≡◌, refl, sym, ap, ◌∙◌, Bool-cases, inl, inr, arith,
  ==_iff,
}
use mathlib.Core.List.{append_assoc, append-nil}
use taos_connector_odbc.Params.Pack.{VarRow, row_bytes, memmove, memcpy, move_row}

pub zero_plus : (n : ℕ) → 0 + n ≡ n
zero_plus n = omega arith

pub suc_plus : (m n : ℕ) → suc m + n ≡ suc (m + n)
suc_plus m n = omega arith

module _ {ℓ} {A : Type ℓ} where
  take-append : (xs ys : List A) (n : ℕ) → take (length xs + n) (xs ++ ys) ≡ xs ++ take n ys
  take-append [] ys n = ap (λ k. take k ys) (zero_plus n)
  take-append (x ∷ xs) ys n =
      ap (λ k. take k ((x ∷ xs) ++ ys)) (suc_plus (length xs) n)
      ∙ ap (λ zs. x ∷ zs) (take-append xs ys n)

  drop-append : (xs ys : List A) (n : ℕ) → drop (length xs + n) (xs ++ ys) ≡ drop n ys
  drop-append [] ys n = ap (λ k. drop k ys) (zero_plus n)
  drop-append (x ∷ xs) ys n =
      ap (λ k. drop k ((x ∷ xs) ++ ys)) (suc_plus (length xs) n) ∙ drop-append xs ys n

  take-nil : (n : ℕ) → take {A = A} n [] ≡ []
  take-nil zero = refl
  take-nil (suc n) = refl

  drop-nil : (n : ℕ) → drop {A = A} n [] ≡ []
  drop-nil zero = refl
  drop-nil (suc n) = refl

  drop-drop : (m n : ℕ) (xs : List A) → drop m (drop n xs) ≡ drop (n + m) xs
  drop-drop m zero xs = sym (ap (λ k. drop k xs) (zero_plus m))
  drop-drop m (suc n) [] = drop-nil m ∙ sym (drop-nil (suc n + m))
  drop-drop m (suc n) (x ∷ xs) = drop-drop m n xs ∙ sym (ap (λ k. drop k (x ∷ xs)) (suc_plus n m))

  take-add : (m n : ℕ) (xs : List A) → take (m + n) xs ≡ take m xs ++ take n (drop m xs)
  take-add zero n xs = ap (λ k. take k xs) (zero_plus n)
  take-add (suc m) n [] = take-nil (suc m + n) ∙ sym (take-nil n)
  take-add (suc m) n (x ∷ xs) =
      ap (λ k. take k (x ∷ xs)) (suc_plus m n) ∙ ap (λ ys. x ∷ ys) (take-add m n xs)

-- What the rows from `i` on stand for, in the buffer at a stride.
unfoldable pub packed_text : ℕ → List VarRow → ℕ → List ℕ → List ℕ
unfolding row_bytes
packed_text stride [] i buf = []
packed_text stride (r ∷ rs) i buf =
    take (row_bytes r) (drop (stride * i) buf) ++ packed_text stride rs (suc i) buf

-- What moving a row leaves of the buffer.
pub record Moved (dst src n : ℕ) (buf buf' : List ℕ) : Type 0 where
  pub same_length : length buf' ≡ length buf
  pub front : take (dst + n) buf' ≡ take dst buf ++ take n (drop src buf)
  pub behind : (k : ℕ) → drop (dst + n + k) buf' ≡ drop (dst + n + k) buf

pub memmove-Moved :
    (dst src n : ℕ) (buf : List ℕ)
    → dst ≤ src
    → src + n ≤ length buf
    → Moved dst src n buf (memmove dst src n buf)
unfolding memmove
memmove-Moved dst src n buf h room = record {
  same_length = omega (
    arith,
    length-append front (rest ++ tail),
    length-append rest tail,
    length-drop (dst + n) buf,
    in_front,
    in_rest,
  );
  front = rw (sym (append_assoc front rest tail)) (
      ap (λ k. take k ((front ++ rest) ++ tail)) both
      ∙ take-append (front ++ rest) tail 0
      ∙ append-nil (front ++ rest));
  behind = λ k. rw (sym (append_assoc front rest tail)) (
      ap (λ m. drop m ((front ++ rest) ++ tail)) (farther k)
      ∙ drop-append (front ++ rest) tail k
      ∙ drop-drop k (dst + n) buf);
}
  where
    front : List ℕ
    front = take dst buf

    rest : List ℕ
    rest = take n (drop src buf)

    tail : List ℕ
    tail = drop (dst + n) buf

    in_front : length (take dst buf) ≡ dst
    in_front = omega (arith, length-take dst buf)

    in_rest : length (take n (drop src buf)) ≡ n
    in_rest = omega (arith, length-take n (drop src buf), length-drop src buf)

    both : dst + n ≡ length (take dst buf ++ take n (drop src buf)) + 0
    both = omega (arith, length-append front rest, in_front, in_rest)

    farther : (k : ℕ) → dst + n + k ≡ length (take dst buf ++ take n (drop src buf)) + k
    farther k = omega (arith, both)

pub move_row-Moved :
    (dst src n : ℕ) (buf : List ℕ)
    → dst ≤ src
    → src + n ≤ length buf
    → (buf' : List ℕ) × (move_row dst src n buf ≡ some buf') × Moved dst src n buf buf'
unfolding move_row memcpy
move_row-Moved dst src n buf h room = elim (Bool-cases (dst == src)) [
  | inl same ↦ rw same (
    buf,
    refl,
    record {
      same_length = refl;
      front =
          take-add dst n buf
          ∙ ap (λ k. take dst buf ++ take n (drop k buf)) ((==_iff dst src).0 same);
      behind = λ k. refl;
    },
  )
  | inr other ↦ rw other (elim (Bool-cases (leb (dst + n) src)) [
    | inl apart ↦ rw apart (memmove dst src n buf, refl, memmove-Moved dst src n buf h room)
    | inr near ↦ rw near (memmove dst src n buf, refl, memmove-Moved dst src n buf h room)
  ])
]

-- The text is read behind the packed rows.
pub packed_text-agree :
    (stride : ℕ) (rs : List VarRow) (i : ℕ) (buf buf' : List ℕ)
    → drop (stride * i) buf' ≡ drop (stride * i) buf
    → packed_text stride rs i buf' ≡ packed_text stride rs i buf
unfolding packed_text
packed_text-agree stride [] i buf buf' same = refl
packed_text-agree stride (r ∷ rs) i buf buf' same =
    λ j. take (row_bytes r) (same j) ++ packed_text-agree stride rs (suc i) buf buf' next j
  where
    step : stride * suc i ≡ stride * i + stride
    step = omega arith

    next : drop (stride * suc i) buf' ≡ drop (stride * suc i) buf
    next =
        ap (λ k. drop k buf') step
        ∙ sym (drop-drop stride (stride * i) buf')
        ∙ ap (drop stride) same
        ∙ drop-drop stride (stride * i) buf
        ∙ ap (λ k. drop k buf) (sym step)
