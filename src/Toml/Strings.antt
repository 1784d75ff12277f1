-- ===== src/Toml/Strings.antt =====
-- Quoted strings: what is written with escapes is read back.
use sundown.Base.{
  ℕ, false, ◌≡◌, refl, arith, [], ◌∷◌, Text, ◌==◌, nat_eq, ends_with-concat, drop_last-concat,
  length-append, concat_elem, if◌then◌else◌,
}
use sundown.Toml.{Parsed, TomlValue, unescape, onto_text, parse_value}

-- the text of a string between its quotes
abbrev pub escape : Text → Text
escape [] = []
escape (c ∷ s) =
    if c == 34
    then 92 ∷ 34 ∷ escape s
    else if c == 92
    then 92 ∷ 92 ∷ escape s
    else if c == 10
    then 92 ∷ 110 ∷ escape s
    else if c == 9
    then 92 ∷ 116 ∷ escape s
    else c ∷ escape s

unescape_plain :
    (c : ℕ) (s : Text) (n : ℕ) → (c == 92) ≡ false → unescape (c ∷ s) n ≡ onto_text c (unescape s n)
unfolding unescape
unescape_plain c [] n h = rw h refl
unescape_plain c (d ∷ s) n h = rw h refl

-- Reading undoes the escapes.
pub unescape-escape : (s : Text) (n : ℕ) → unescape (escape s) n ≡ Parsed.ok s
unfolding unescape
unescape-escape [] n = refl
unescape-escape (c ∷ s) n = ground (arith, unescape-escape s n, unescape_plain c (escape s) n)

-- the text between quotes
abbrev pub quoted : Text → Text
quoted s = 34 ∷ concat_elem (escape s) 34

-- A string that is written between quotes, with quotes, backslashes, newlines and tabs escaped,
-- is read back by parse_value as that string.
pub parse_value-quoted :
    (s : Text) (n : ℕ) → parse_value (quoted s) n ≡ Parsed.ok (TomlValue.string s)
unfolding parse_value
parse_value-quoted s n =
    let size = length-append (escape s) (34 ∷ []) in
    ground (
      arith,
      ends_with-concat 34 (34 ∷ escape s),
      drop_last-concat 34 (escape s),
      unescape-escape s n,
      size,
    )
