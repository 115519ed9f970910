-- ===== src/Worker/Metrics.antt =====
-- `_escape_label` of metrics.py, over the code points of a text.
pub mod Render
use pilot_langgraph.Prelude.{
  ℕ, ◌≡◌, refl, ap, ◌∙◌, Option, none, some, List, [], ◌∷◌, ◌++◌, append_assoc, ◌==◌, if◌then◌else◌,
  arith,
}

-- `str.replace` of one character by a text.
unfoldable pub replace : ℕ → List ℕ → List ℕ → List ℕ
replace c new [] = []
replace c new (x ∷ xs) = if x == c then new ++ replace c new xs else x ∷ replace c new xs

abbrev pub backslash : ℕ
backslash = 92

abbrev pub quote : ℕ
quote = 34

abbrev pub newline : ℕ
newline = 10

abbrev pub letter_n : ℕ
letter_n = 110

unfoldable pub escape_label : List ℕ → List ℕ
unfolding replace
escape_label value =
    replace newline (backslash ∷ letter_n ∷ []) (
      replace quote (backslash ∷ quote ∷ []) (replace backslash (backslash ∷ backslash ∷ []) value))

abbrev pub cons_value : ℕ → Option (List ℕ × List ℕ) → Option (List ℕ × List ℕ)
cons_value c none = none
cons_value c (some (value, rest)) = some (c ∷ value, rest)

-- How a reader of the text format takes a label's value up to the closing quote: the value, and
-- what is behind the quote. A raw newline ends the line, so it is no value.
pub read_label : List ℕ → Option (List ℕ × List ℕ)
read_label [] = none
read_label (c ∷ []) = if c == quote then some ([], []) else none
read_label (c ∷ d ∷ text) =
    let escaped = read_label text in
    let plain = read_label (d ∷ text) in
    if c == quote
    then some ([], d ∷ text)
    else if c == newline
    then none
    else if c == backslash
    then (if d == letter_n
        then cons_value newline escaped
        else if (d == quote)
        then cons_value quote escaped
        else if d == backslash
        then cons_value backslash escaped
        else none)
    else cons_value c plain

escaped_one : ℕ → List ℕ
escaped_one c =
    if c == backslash
    then backslash ∷ backslash ∷ []
    else if c == quote
    then backslash ∷ quote ∷ []
    else if c == newline
    then backslash ∷ letter_n ∷ []
    else c ∷ []

escape_label-cons :
    (c : ℕ) (value : List ℕ) → escape_label (c ∷ value) ≡ escaped_one c ++ escape_label value
unfolding escape_label escaped_one
escape_label-cons c value = ground arith

read_label-end : (rest : List ℕ) → read_label (quote ∷ rest) ≡ some ([], rest)
unfolding read_label
read_label-end [] = refl
read_label-end (d ∷ rest) = refl

read_label-escaped :
    (c : ℕ) (value text rest : List ℕ)
    → read_label (text ++ quote ∷ rest) ≡ some (value, rest)
    → read_label (escaped_one c ++ (text ++ quote ∷ rest)) ≡ some (c ∷ value, rest)
unfolding read_label escaped_one
read_label-escaped c value [] rest h = ground (arith, h)
read_label-escaped c value (d ∷ text) rest h = ground (arith, h)

read_label_start : (rest : List ℕ) → read_label (escape_label [] ++ quote ∷ rest) ≡ some ([], rest)
unfolding escape_label
read_label_start rest = read_label-end rest

-- A label's value that is escaped and put before a closing quote is read back as it was, with what
-- is behind the quote: quotes, backslashes and line ends in a handler's name cannot break out of
-- its label.
pub read_label-escape_label :
    (value rest : List ℕ) → read_label (escape_label value ++ quote ∷ rest) ≡ some (value, rest)
read_label-escape_label [] rest = read_label_start rest
read_label-escape_label (c ∷ value) rest =
    ap read_label (
      ap (λ l. l ++ quote ∷ rest) (escape_label-cons c value)
      ∙ append_assoc (escaped_one c) (escape_label value) (quote ∷ rest))
    ∙ read_label-escaped c value (escape_label value) rest (read_label-escape_label value rest)
