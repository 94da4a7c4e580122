-- ===== src/Buffer/Quoted.antt =====
-- src/utils/utils.c: a text that buffer_concat_replacement_n quotes is one literal of SQL.
use taos_connector_odbc.Prelude.{
  ℕ, ◌==◌, if◌then◌else◌, Bool, true, false, Option, none, some, List, [], ◌∷◌, ◌++◌, ◌≡◌, refl, ap,
  sym, ◌∙◌, drop, take, length, All, ==_iff, Bool-cases, inl, inr,
}
use taos_connector_odbc.Buffer.{TextBuffer, quote, buffer_concat_replacement_n}
use taos_connector_odbc.Buffer.Grown.{
  quoted, c_string, IsValid, buffer_concat_replacement_n-Replaced,
}

abbrev add_char : ℕ → Option (List ℕ × List ℕ) → Option (List ℕ × List ℕ)
add_char c none = none
add_char c (some (text, rest)) = some (c ∷ text, rest)

abbrev pub backslash : ℕ
backslash = 92

-- Where a reader of SQL is in a literal: in its text, behind a quote, or behind a backslash.
pub data Place : Type 0 where
  in_text behind_quote behind_backslash : Place

-- What a reader of SQL takes behind the quote that opens a literal: the text, in which two quotes
-- are one and a backslash takes the next character with it, and what follows the quote that ends it.
abbrev pub read_literal : Place → List ℕ → Option (List ℕ × List ℕ)
read_literal in_text [] = none
read_literal behind_quote [] = some ([], [])
read_literal behind_backslash [] = none
read_literal in_text (c ∷ s) =
    let literal_goes_on = add_char c (read_literal in_text s) in
    let after_quote = read_literal behind_quote s in
    let escaped = read_literal behind_backslash s in
    if c == quote then after_quote else if c == backslash then escaped else literal_goes_on
read_literal behind_quote (c ∷ s) =
    let doubled = add_char quote (read_literal in_text s) in
    if c == quote then doubled else some ([], c ∷ s)
read_literal behind_backslash (c ∷ s) = add_char c (read_literal in_text s)

abbrev pub NoBackslash : List ℕ → Type 0
NoBackslash s = All (λ c. (c == backslash) ≡ false) s

-- What follows a literal does not begin with a quote.
abbrev pub NoQuote : List ℕ → Type 0
NoQuote [] = Unit
NoQuote (c ∷ s) = (c == quote) ≡ false

read_end : (rest : List ℕ) → NoQuote rest → read_literal behind_quote rest ≡ some ([], rest)
read_end [] h = refl
read_end (c ∷ rest) h = rw h refl

read_literal-quoted :
    (s rest : List ℕ)
    → NoBackslash s
    → NoQuote rest
    → read_literal in_text (quoted s ++ quote ∷ rest) ≡ some (s, rest)
read_literal-quoted [] rest plain h = read_end rest h
read_literal-quoted (c ∷ s) rest (plain, more) h = elim (Bool-cases (c == quote)) [
  | inl q ↦
      let eq : c ≡ quote = (==_iff c quote).0 q in
      rw q (
        ap (add_char quote) (read_literal-quoted s rest more h)
        ∙ ap (λ x. some (x ∷ s, rest)) (sym eq))
  | inr q ↦ rw (q, q, plain) (ap (add_char c) (read_literal-quoted s rest more h))
]

drop_append : {A : Type 0} (xs ys : List A) → drop (length xs) (xs ++ ys) ≡ ys
drop_append [] ys = refl
drop_append (x ∷ xs) ys = drop_append xs ys

-- What buffer_concat_replacement_n appended, when it succeeded on a buffer within its memory, is
-- read back from between two quotes of SQL as the string that was given, if that has no backslash,
-- by a reader for whom a backslash takes the next character with it: whatever but a quote follows,
-- the literal ends at the quote that is put behind it.
pub buffer_concat_replacement_n-read_literal :
    (realloc_ok : ℕ → Bool) (b : TextBuffer) (s rest : List ℕ) (len : ℕ)
    → IsValid b
    → (buffer_concat_replacement_n realloc_ok b s len).1 ≡ true
    → NoBackslash (c_string (take len s))
    → NoQuote rest
    → read_literal in_text (
        drop (length b.text) (buffer_concat_replacement_n realloc_ok b s len).0.text
        ++ quote ∷ rest)
      ≡ some (c_string (take len s), rest)
buffer_concat_replacement_n-read_literal realloc_ok b s rest len v ok plain h =
    let text = quoted (c_string (take len s)) in
    let put = (buffer_concat_replacement_n-Replaced realloc_ok b s len v).whole ok in
    let added = ap (drop (length b.text)) put ∙ drop_append b.text text in
    ap (λ x. read_literal in_text (x ++ quote ∷ rest)) added
    ∙ read_literal-quoted (c_string (take len s)) rest plain h
