-- ===== src/Buffer/Grown.antt =====
-- src/utils/utils.c: appending to a buffer stays within its memory.
use taos_connector_odbc.Prelude.{
  ℕ, suc, ◌+◌, ◌*◌, ◌/◌, ◌≤◌, ◌<◌, ◌==◌, leb, leb→le, if◌then◌else◌, Bool, true, false, List, [],
  ◌∷◌, ◌++◌, length, length-append, take, All, ◌≡◌, ◌≢◌, ◌⊎◌, refl, sym, ap, ◌∙◌, arith, Bool-cases,
  inl, inr,
}
use mathlib.Core.Path.{subst}
use taos_connector_odbc.Buffer.{
  TextBuffer, buffer_expand, append_if, strncpy, buffer_concat_n, and_then, concat_span, quote,
  replace_from, roll_back, buffer_concat_replacement_n,
}

-- The text and the zero behind it lie within the `sz` bytes; a new buffer has neither.
abbrev pub IsValid : TextBuffer → Type 0
IsValid b = (length b.text < b.sz) ⊎ (b.text ≡ [])

-- A call that appends `want`, or fails with some of it appended; with memory it does not fail.
pub record Appends (realloc_ok : ℕ → Bool) (b : TextBuffer) (want : List ℕ) (r : TextBuffer × Bool)
    : Type 0 where
  pub valid : IsValid r.0
  pub whole : r.1 ≡ true → r.0.text ≡ b.text ++ want
  pub part : (x : List ℕ) × (r.0.text ≡ b.text ++ x)
  pub able : ((n : ℕ) → realloc_ok n ≡ true) → r.1 ≡ true

-- A call that appends `want` as a whole, or fails and leaves the text as it was.
pub record Replaced (realloc_ok : ℕ → Bool) (b : TextBuffer) (want : List ℕ) (r : TextBuffer × Bool)
    : Type 0 where
  pub valid : IsValid r.0
  pub whole : r.1 ≡ true → r.0.text ≡ b.text ++ want
  pub unchanged : r.1 ≡ false → r.0.text ≡ b.text
  pub able : ((n : ℕ) → realloc_ok n ≡ true) → r.1 ≡ true

pub append_nil : {A : Type 0} (xs : List A) → xs ++ [] ≡ xs
append_nil [] = refl
append_nil (x ∷ xs) = ap (λ ys. x ∷ ys) (append_nil xs)

pub append_assoc : {A : Type 0} (xs ys zs : List A) → (xs ++ ys) ++ zs ≡ xs ++ (ys ++ zs)
append_assoc [] ys zs = refl
append_assoc (x ∷ xs) ys zs = ap (λ us. x ∷ us) (append_assoc xs ys zs)

-- Bytes without a zero.
abbrev pub NoZero : List ℕ → Type 0
NoZero s = All (λ c. c ≢ 0) s

strncpy_all : (s : List ℕ) → NoZero s → strncpy (length s) s ≡ s
strncpy_all [] t = refl
strncpy_all (c ∷ s) t =
    let e : (c == 0) ≡ false = ground (arith, t.0) in rw e (ap (λ us. c ∷ us) (strncpy_all s t.1))

-- The string that C sees in bytes.
abbrev pub c_string : List ℕ → List ℕ
c_string [] = []
c_string (c ∷ s) = if c == 0 then [] else c ∷ c_string s

-- A text as it stands in a literal of SQL.
abbrev pub quoted : List ℕ → List ℕ
quoted [] = []
quoted (c ∷ s) = if c == quote then quote ∷ quote ∷ quoted s else c ∷ quoted s

NoZero-snoc : (span : List ℕ) (c : ℕ) → NoZero span → c ≢ 0 → NoZero (span ++ c ∷ [])
NoZero-snoc [] c t h = (h, tt)
NoZero-snoc (d ∷ span) c t h = (t.0, NoZero-snoc span c t.1 h)

take_append : {A : Type 0} (xs ys : List A) → take (length xs) (xs ++ ys) ≡ xs
take_append [] ys = refl
take_append (x ∷ xs) ys = ap (λ us. x ∷ us) (take_append xs ys)

nil_prefix : (xs ys : List ℕ) → xs ++ ys ≡ [] → xs ≡ []
nil_prefix [] ys e = refl
nil_prefix (x ∷ xs) ys e = absurd (cc e)

module _ (realloc_ok : ℕ → Bool) where
  pub concat_n-Appends :
      (b : TextBuffer) (s : List ℕ)
      → IsValid b
      → NoZero s
      → Appends realloc_ok b s (buffer_concat_n realloc_ok b s (length s))
  unfolding buffer_concat_n buffer_expand append_if
  concat_n-Appends b s v t =
      let n = length b.text + suc (length s) in
      let size = (n + 15) / 16 * 16 in
      let grown : n ≤ size = omega arith in
      let e = strncpy_all s t in
      let total : length (b.text ++ strncpy (length s) s) < n =
        omega (arith, length-append b.text (strncpy (length s) s), ap length e) in
      let put : b.text ++ strncpy (length s) s ≡ b.text ++ s = ap (λ x. b.text ++ x) e in
      elim (Bool-cases (leb n b.sz)) [
        | inl h ↦ rw h (record {
          valid = inl (omega (arith, total, leb→le n b.sz h));
          whole = λ _. put;
          part = (s, put);
          able = λ _. refl;
        })
        | inr h ↦ elim (Bool-cases (realloc_ok size)) [
          | inl k ↦
              rw (h, k)
                (record {
                  valid = inl (omega (arith, total, grown));
                  whole = λ _. put;
                  part = (s, put);
                  able = λ _. refl;
                })
          | inr k ↦
              rw (h, k)
                (record {
                  valid = v;
                  whole = λ q. absurd (cc q);
                  part = ([], sym (append_nil b.text));
                  able = λ q. absurd (cc (q size, k));
                })
        ]
      ]

  then-Appends :
      (b : TextBuffer) (x y : List ℕ) (r : TextBuffer × Bool) (f : TextBuffer → TextBuffer × Bool)
      → Appends realloc_ok b x r
      → ((b1 : TextBuffer) → IsValid b1 → Appends realloc_ok b1 y (f b1))
      → Appends realloc_ok b (x ++ y) (and_then r f)
  unfolding and_then
  then-Appends b x y (b1, true) f a g =
      let h = g b1 a.valid in
      let e = a.whole refl in
      record {
        valid = h.valid;
        whole = λ q. h.whole q ∙ ap (λ us. us ++ y) e ∙ append_assoc b.text x y;
        part = (
          x ++ h.part.0,
          h.part.1 ∙ ap (λ us. us ++ h.part.0) e ∙ append_assoc b.text x h.part.0,
        );
        able = h.able;
      }
  then-Appends b x y (b1, false) f a g = record {
    valid = a.valid;
    whole = λ q. absurd (cc q);
    part = a.part;
    able = a.able;
  }

  concat_span-Appends :
      (b : TextBuffer) (span : List ℕ)
      → IsValid b
      → NoZero span
      → Appends realloc_ok b span (concat_span realloc_ok b span)
  unfolding concat_span
  concat_span-Appends b [] v t = record {
    valid = v;
    whole = λ _. sym (append_nil b.text);
    part = ([], sym (append_nil b.text));
    able = λ _. refl;
  }
  concat_span-Appends b (c ∷ cs) v t = concat_n-Appends b (c ∷ cs) v t

  replace_from-Appends :
      (rest span : List ℕ) (b : TextBuffer)
      → IsValid b
      → NoZero span
      → Appends realloc_ok b (span ++ quoted (c_string rest)) (replace_from realloc_ok rest span b)
  unfolding replace_from
  replace_from-Appends [] span b v t =
      subst (λ x. Appends realloc_ok b x (concat_span realloc_ok b span)) (sym (append_nil span))
        (concat_span-Appends b span v t)
  replace_from-Appends (c ∷ rest) span b v t = elim (Bool-cases (c == 0)) [
    | inl z ↦ rw z (
        subst (λ x. Appends realloc_ok b x (concat_span realloc_ok b span)) (sym (append_nil span))
          (concat_span-Appends b span v t))
    | inr z ↦ elim (Bool-cases (c == quote)) [
      | inl q ↦
          let two : NoZero (quote ∷ quote ∷ []) = (omega arith, (omega arith, tt)) in
          let all =
            then-Appends b _ _ _ (replace_from realloc_ok rest [])
              (then-Appends b _ _ _ (λ b1. buffer_concat_n realloc_ok b1 (quote ∷ quote ∷ []) 2)
                (concat_span-Appends b span v t)
                (λ b1 v1. concat_n-Appends b1 (quote ∷ quote ∷ []) v1 two))
              (λ b2 v2. replace_from-Appends rest [] b2 v2 tt) in
          let run =
            and_then
              (and_then (concat_span realloc_ok b span)
                (λ b1. buffer_concat_n realloc_ok b1 (quote ∷ quote ∷ []) 2))
              (replace_from realloc_ok rest []) in
          rw (z, q)
            (subst (λ x. Appends realloc_ok b x run)
              (append_assoc span (quote ∷ quote ∷ []) (quoted (c_string rest))) all)
      | inr q ↦
          let later =
            replace_from-Appends rest (span ++ c ∷ []) b v
              (NoZero-snoc span c t (ground (arith, z))) in
          let run = replace_from realloc_ok rest (span ++ c ∷ []) b in
          rw (z, q)
            (subst (λ x. Appends realloc_ok b x run)
              (append_assoc span (c ∷ []) (quoted (c_string rest))) later)
    ]
  ]

  no_longer :
      (b b1 : TextBuffer) (x : List ℕ)
      → b1.text ≡ b.text ++ x
      → IsValid b1
      → IsValid (record b1 { text = b.text })
  no_longer b b1 x e (inl h) = inl (omega (arith, h, ap length e, length-append b.text x))
  no_longer b b1 x e (inr h) = inr (nil_prefix b.text x (sym e ∙ h))

  roll_back-Replaced :
      (b : TextBuffer) (want : List ℕ) (r : TextBuffer × Bool)
      → Appends realloc_ok b want r
      → Replaced realloc_ok b want (roll_back (length b.text) r)
  unfolding roll_back
  roll_back-Replaced b want (b1, true) a = record {
    valid = a.valid;
    whole = a.whole;
    unchanged = λ q. absurd (cc q);
    able = a.able;
  }
  roll_back-Replaced b want (b1, false) a =
      let e = ap (take (length b.text)) a.part.1 ∙ take_append b.text a.part.0 in
      record {
        valid =
            subst (λ x. IsValid (record b1 { text = x })) (sym e)
              (no_longer b b1 a.part.0 a.part.1 a.valid);
        whole = λ q. absurd (cc q);
        unchanged = λ _. e;
        able = a.able;
      }

  -- buffer_concat_replacement_n on a buffer within its memory appends the string of at most `len`
  -- bytes with every quote doubled and stays within the memory; or, where memory is short, it
  -- fails and the text is as it was; with memory it does not fail.
  pub buffer_concat_replacement_n-Replaced :
      (b : TextBuffer) (s : List ℕ) (len : ℕ)
      → IsValid b
      → Replaced realloc_ok b
          (quoted (c_string (take len s)))
          (buffer_concat_replacement_n realloc_ok b s len)
  unfolding buffer_concat_replacement_n
  buffer_concat_replacement_n-Replaced b s len v =
      roll_back-Replaced b _ _ (replace_from-Appends (take len s) [] b v tt)
