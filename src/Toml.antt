-- ===== src/Toml.antt =====
-- The parser of the TOML subset, daemon/src/toml.rs. A message is modelled by its kind. The inner
-- `while` of `parse`, which joins the lines of an array, is the state `joining`.
pub mod Strings
pub mod Faults
pub mod Headers
use sundown.Base.{
  ℕ, suc, ◌+◌, Bool, true, false, ◌&&◌, ◌||◌, not, Option, none, some, List, [], ◌∷◌, ◌++◌, Text,
  str, ◌==◌, nat_eq, text_eq, trim, is_empty, concat_elem, split_once, contains, count, ends_with,
  begins_with, inside, segments, lines, parse_i64, length, ltb, zero, ◌%◌, ℤ, if◌then◌else◌,
}

pub data TomlValue : Type 0 where
  string : Text → TomlValue
  boolean : Bool → TomlValue
  int : ℤ → TomlValue
  str_array : List Text → TomlValue

pub record TomlEntry : Type 0 where
  pub table : List Text
  pub key : Text
  pub value : TomlValue

-- the messages of the errors
pub data Fault : Type 0 where
  header_open missing_equals empty_key array_open empty_value : Fault
  bad_element string_open bad_escape last_backslash bad_value : Fault

-- `Result<A, (usize, String)>`
pub data Parsed {ℓ} (A : Type ℓ) : Type ℓ where
  ok : A → Parsed A
  refused : ℕ → Fault → Parsed A

-- unescape: 92 is a backslash, 34 a quote, 110 and 116 stand for a newline and a tab
abbrev onto_text : ℕ → Parsed Text → Parsed Text
onto_text c (ok s) = ok (c ∷ s)
onto_text c (refused n f) = refused n f

abbrev escape_of : ℕ → Option ℕ
escape_of c =
    if c == 34
    then some 34
    else if c == 92
    then some 92
    else if c == 110
    then some 10
    else if c == 116
    then some 9
    else none

unfoldable pub unescape : Text → ℕ → Parsed Text
unescape [] lineno = ok []
unescape (c ∷ []) lineno = if c == 92 then refused lineno last_backslash else ok (c ∷ [])
unescape (c ∷ d ∷ s) lineno =
    let behind = unescape s lineno in
    let next = unescape (d ∷ s) lineno in
    if c == 92
    then elim (escape_of d) [ none ↦ refused lineno bad_escape | some e ↦ onto_text e behind ]
    else onto_text c next

-- strip_comment: 35 is `#`
abbrev cut : Text → Option (Text × Text) → Text
cut line none = line
cut line (some (before, behind)) = if count 34 before % 2 == 0 then before else line

unfoldable pub strip_comment : Text → Text
strip_comment line = cut line (split_once 35 line)

-- split_table_header; each quoted segment takes its two quotes, so the length bounds the rounds
abbrev quoted_rest : (Text → List Text) → Text → Option (Text × Text) → List Text
quoted_rest again unclosed none = segments 46 unclosed
quoted_rest again unclosed (some (seg, rest)) = seg ∷ again rest

abbrev header_rest : (Text → List Text) → Text → Option (Text × Text) → List Text
header_rest again rest none = segments 46 rest
header_rest again rest (some (bare, behind)) =
    segments 46 bare ++ quoted_rest again (34 ∷ behind) (split_once 34 behind)

unfoldable pub split_header : ℕ → Text → List Text
split_header zero rest = []
split_header (suc fuel) rest = header_rest (split_header fuel) rest (split_once 34 rest)

unfoldable pub split_table_header : Text → List Text
unfolding split_header
split_table_header inner = split_header (suc (length inner)) inner

-- parse_value: 91 and 93 are the brackets, 44 is a comma
abbrev onto_items : Parsed Text → Parsed (List Text) → Parsed (List Text)
onto_items (refused n f) items = refused n f
onto_items (ok s) (refused n f) = refused n f
onto_items (ok s) (ok ss) = ok (s ∷ ss)

abbrev is_quoted : Text → Bool
is_quoted p = ltb 1 (length p) && (begins_with 34 p && ends_with 34 p)

unfoldable pub parse_items : List Text → ℕ → Parsed (List Text)
parse_items [] lineno = ok []
parse_items (p ∷ ps) lineno =
    let rest = parse_items ps lineno in
    if not (is_quoted p)
    then refused lineno bad_element
    else onto_items (unescape (inside p) lineno) rest

abbrev as_array : Parsed (List Text) → Parsed TomlValue
as_array (ok ss) = ok (str_array ss)
as_array (refused n f) = refused n f

abbrev as_string : Parsed Text → Parsed TomlValue
as_string (ok s) = ok (string s)
as_string (refused n f) = refused n f

abbrev as_int : Option ℤ → ℕ → Parsed TomlValue
as_int (some n) lineno = ok (int n)
as_int none lineno = refused lineno bad_value

unfoldable pub parse_value : Text → ℕ → Parsed TomlValue
unfolding parse_items
parse_value s lineno =
    if is_empty s
    then refused lineno empty_value
    else if begins_with 91 s
    then (if not (ends_with 93 s)
        then refused lineno array_open
        else as_array (parse_items (segments 44 (inside s)) lineno))
    else if begins_with 34 s
    then (if not (ends_with 34 s) || ltb (length s) 2
        then refused lineno string_open
        else as_string (unescape (inside s) lineno))
    else if s == str "true"
    then ok (boolean true)
    else if s == str "false"
    then ok (boolean false)
    else as_int (parse_i64 s) lineno

-- the state of the loop in `parse`: the table of the last header, the array that is being joined,
-- the number of the next line, and what has been read
pub record Reading : Type 0 where
  pub table : List Text
  pub joining : Option (Text × Text × ℕ)
  pub lineno : ℕ
  pub out : List TomlEntry

abbrev push_value : Text → Parsed TomlValue → Reading → Parsed Reading
push_value key (refused n f) r = refused n f
push_value key (ok v) r = ok (record r {
  joining = none;
  out = concat_elem r.out (record { table = r.table; key = key; value = v });
})

-- a value that is complete
unfoldable pub read_value : Text → Text → ℕ → Reading → Parsed Reading
read_value key val at r = push_value key (parse_value val at) r

-- an array whose lines have ended
unfoldable pub close_array : Text → Text → ℕ → Reading → Parsed Reading
unfolding read_value
close_array key val at r =
    if not (ends_with 93 val) then refused at array_open else read_value key val at r

unfoldable pub read_assignment : Text → Text → Reading → Parsed Reading
unfolding read_value
read_assignment key val r =
    if is_empty key
    then refused r.lineno empty_key
    else if begins_with 91 val && not (ends_with 93 val)
    then ok (record r { joining = some (key, val, r.lineno) })
    else read_value key val r.lineno r

abbrev assignment : Option (Text × Text) → Reading → Parsed Reading
assignment none r = refused r.lineno missing_equals
assignment (some (k, v)) r = read_assignment (trim k) (trim v) r

unfoldable pub read_line : Text → Reading → Parsed Reading
unfolding read_assignment split_table_header
read_line line r =
    if is_empty line
    then ok r
    else if begins_with 91 line
    then (if not (ends_with 93 line)
        then refused r.lineno header_open
        else ok (record r { table = split_table_header (inside line) }))
    else assignment (split_once 61 line) r

unfoldable pub join_line : Text → Text × Text × ℕ → Reading → Parsed Reading
unfolding close_array
join_line line (key, val, at) r =
    if is_empty line
    then ok r
    else if contains 93 line
    then close_array key (val ++ line) at r
    else ok (record r { joining = some (key, val ++ line, at) })

abbrev take_line : Text → Reading → Parsed Reading
take_line line r = elim r.joining [ none ↦ read_line line r | some j ↦ join_line line j r ]

abbrev next_line : Parsed Reading → Parsed Reading
next_line (refused n f) = refused n f
next_line (ok r) = ok (record r { lineno = r.lineno + 1 })

unfoldable pub step : Text → Parsed Reading → Parsed Reading
unfolding read_line join_line strip_comment
step line (refused n f) = refused n f
step line (ok r) = next_line (take_line (trim (strip_comment line)) r)

unfoldable pub read_lines : List Text → Parsed Reading → Parsed Reading
unfolding step
read_lines [] st = st
read_lines (l ∷ ls) st = read_lines ls (step l st)

-- the end of the text: an array that is still joined is closed, or refused
abbrev finished : Parsed Reading → Parsed (List TomlEntry)
finished (refused n f) = refused n f
finished (ok r) = ok r.out

abbrev end_of_text : Reading → Parsed Reading
end_of_text r = elim r.joining [ none ↦ ok r | some (key, val, at) ↦ close_array key val at r ]

abbrev finish : Parsed Reading → Parsed (List TomlEntry)
finish (refused n f) = refused n f
finish (ok r) = finished (end_of_text r)

abbrev first_line : Reading
first_line = record { table = []; joining = none; lineno = 1; out = [] }

-- parse
unfoldable pub parse : Text → Parsed (List TomlEntry)
unfolding read_lines close_array
parse src = finish (read_lines (lines src) (ok first_line))
