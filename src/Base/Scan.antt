-- ===== src/Base/Scan.antt =====
-- What the parsers use of `str`: searches, splits, lines, and numbers. Characters are code points.
use Prim.Native.Nat.{ℕ, zero, suc, ◌+◌, ◌-◌, ◌*◌, ◌^◌}
use mathlib.Core.Bool.{Bool, true, false, ◌&&◌}
use mathlib.Core.Option.{Option, none, some}
use mathlib.Core.List.{List, [], ◌∷◌, ◌++◌, map}
use sundown.Base.Int.{ℤ, pos, negsuc}
use mathlib.Core.Path.{◌≡◌, refl, ap}
use native.Mathlib.Omega.{arith}
use mathlib.Core.Logic.{inl, inr}
use sundown.Base.Lists.{length-append, length, concat_elem, filterb, is_empty}
use sundown.Base.Tests.{Bool-cases, nat_eq, ◌==◌, leb, if◌then◌else◌}
use sundown.Base.Texts.{text_eq, text_beq_iff, starts_with, is_whitespace, Text, trim}

-- `s.find(c)`, with what stands before and behind it; `split_once`
abbrev pub onto_before : ℕ → Option (Text × Text) → Option (Text × Text)
onto_before d none = none
onto_before d (some (a, b)) = some (d ∷ a, b)

unfoldable pub split_once : ℕ → Text → Option (Text × Text)
split_once c [] = none
split_once c (d ∷ s) = elim (d == c) [
  | true ↦ some ([], s)
  | false ↦ onto_before d (split_once c s)
]

-- `s.contains(c)`
unfoldable pub contains : ℕ → Text → Bool
contains c [] = false
contains c (d ∷ s) = elim (d == c) [ true ↦ true | false ↦ contains c s ]

-- the number of the bytes that are `c`, an ASCII character
unfoldable pub count : ℕ → Text → ℕ
count c [] = 0
count c (d ∷ s) = let rest = count c s in if d == c then suc rest else rest

-- `s.ends_with(c)`
unfoldable pub ends_with : ℕ → Text → Bool
ends_with c [] = false
ends_with c (d ∷ []) = d == c
ends_with c (d ∷ e ∷ s) = ends_with c (e ∷ s)

-- `s.starts_with(c)` for a character
abbrev pub begins_with : ℕ → Text → Bool
begins_with c [] = false
begins_with c (d ∷ s) = d == c

-- the text without its last character
unfoldable pub drop_last : Text → Text
drop_last [] = []
drop_last (d ∷ []) = []
drop_last (d ∷ e ∷ s) = d ∷ drop_last (e ∷ s)

-- `&s[1..s.len() - 1]`, between two ASCII characters
abbrev pub inside : Text → Text
inside [] = []
inside (d ∷ s) = drop_last s

-- `s.split(c)`
abbrev pub onto_first : ℕ → List Text → List Text
onto_first d [] = (d ∷ []) ∷ []
onto_first d (p ∷ ps) = (d ∷ p) ∷ ps

unfoldable pub split : ℕ → Text → List Text
split c [] = [] ∷ []
split c (d ∷ s) = let rest = split c s in if d == c then [] ∷ rest else onto_first d rest

-- `s.lines()`: a last line that is empty is none, and a carriage return before the newline goes
abbrev pub strip_cr : Text → Text
strip_cr s = if ends_with 13 s then drop_last s else s

abbrev pub lines_of : List Text → List Text
lines_of [] = []
lines_of (p ∷ []) = if is_empty p then [] else p ∷ []
lines_of (p ∷ q ∷ ps) = strip_cr p ∷ lines_of (q ∷ ps)

unfoldable pub lines : Text → List Text
unfolding split ends_with drop_last
lines s = lines_of (split 10 s)

-- `v.join(sep)`
unfoldable pub join : Text → List Text → Text
join sep [] = []
join sep (p ∷ []) = p
join sep (p ∷ q ∷ ps) = p ++ (sep ++ join sep (q ∷ ps))

-- `split('.').map(trim).filter(not empty)`
unfoldable pub segments : ℕ → Text → List Text
unfolding split
segments c s =
    filterb (λ p. elim (is_empty p) [ true ↦ false | false ↦ true ]) (map trim (split c s))

-- decimal digits, after `acc`
abbrev pub is_digit : ℕ → Bool
is_digit c = leb 48 c && leb c 57

unfoldable pub digits : ℕ → Text → Option ℕ
digits acc [] = some acc
digits acc (c ∷ s) = elim (is_digit c) [ true ↦ digits (acc * 10 + (c - 48)) s | false ↦ none ]

unfoldable pub number : Text → Option ℕ
unfolding digits
number [] = none
number (c ∷ s) = digits 0 (c ∷ s)

abbrev at_most : ℕ → Option ℕ → Option ℕ
at_most bound none = none
at_most bound (some n) = if leb n bound then some n else none

-- `u32::from_str`: a plus sign may stand before the digits
abbrev unsigned : Text → Option ℕ
unsigned [] = none
unsigned (c ∷ s) = if c == 43 then number s else number (c ∷ s)

unfoldable pub parse_u32 : Text → Option ℕ
unfolding number
parse_u32 s = at_most (2 ^ 32 - 1) (unsigned s)

-- `usize::from_str` on a 64-bit device
unfoldable pub parse_usize : Text → Option ℕ
unfolding number
parse_usize s = at_most (2 ^ 64 - 1) (unsigned s)

-- `i64::from_str`
abbrev negated : Option ℕ → Option ℤ
negated none = none
negated (some zero) = some (pos 0)
negated (some (suc n)) = some (negsuc n)

abbrev positive : Option ℕ → Option ℤ
positive none = none
positive (some n) = some (pos n)

unfoldable pub parse_i64 : Text → Option ℤ
unfolding number
parse_i64 [] = none
parse_i64 (c ∷ s) =
    if c == 45
    then negated (at_most (2 ^ 63) (number s))
    else positive (at_most (2 ^ 63 - 1) (unsigned (c ∷ s)))

pub ends_with-concat : (c : ℕ) (s : Text) → ends_with c (concat_elem s c) ≡ true
unfolding ends_with
ends_with-concat c [] = ground arith
ends_with-concat c (d ∷ []) = ground arith
ends_with-concat c (d ∷ e ∷ s) = ends_with-concat c (e ∷ s)

pub drop_last-concat : (c : ℕ) (s : Text) → drop_last (concat_elem s c) ≡ s
unfolding drop_last
drop_last-concat c [] = refl
drop_last-concat c (d ∷ []) = refl
drop_last-concat c (d ∷ e ∷ s) = ap (λ t. d ∷ t) (drop_last-concat c (e ∷ s))

-- `s.split_whitespace()`
abbrev onto_word : ℕ → List Text → List Text
onto_word c [] = (c ∷ []) ∷ []
onto_word c (w ∷ ws) = (c ∷ w) ∷ ws

unfoldable pub spaced : Text → List Text
spaced [] = [] ∷ []
spaced (c ∷ s) = let rest = spaced s in if is_whitespace c then [] ∷ rest else onto_word c rest

unfoldable pub words : Text → List Text
unfolding spaced
words s = filterb (λ w. elim (is_empty w) [ true ↦ false | false ↦ true ]) (spaced s)

-- `s.strip_suffix(suffix)`
abbrev onto_stripped : ℕ → Option Text → Option Text
onto_stripped c none = none
onto_stripped c (some s) = some (c ∷ s)

unfoldable pub strip_suffix : Text → Text → Option Text
strip_suffix suffix [] = if [] == suffix then some [] else none
strip_suffix suffix (c ∷ s) =
    let rest = strip_suffix suffix s in if (c ∷ s) == suffix then some [] else onto_stripped c rest

text_beq-longer : (c : ℕ) (p s : Text) → ((c ∷ (p ++ s)) == s) ≡ false
text_beq-longer c p s = elim (Bool-cases ((c ∷ (p ++ s)) == s)) [
  | inl b ↦
      let e = (text_beq_iff (c ∷ (p ++ s)) s).0 b in
      let n : length (c ∷ (p ++ s)) ≡ length s = ap length e in
      absurd (omega (arith, n, length-append p s))
  | inr b ↦ b
]

pub strip_suffix-append : (suffix p : Text) → strip_suffix suffix (p ++ suffix) ≡ some p
unfolding strip_suffix
strip_suffix-append [] [] = ground (arith, text_beq_iff [] [])
strip_suffix-append (d ∷ s) [] = ground (arith, text_beq_iff (d ∷ s) (d ∷ s))
strip_suffix-append suffix (c ∷ p) =
    rw (text_beq-longer c p suffix, strip_suffix-append suffix p) refl

pub starts_with-append : (p s : Text) → starts_with p (p ++ s) ≡ true
unfolding starts_with
starts_with-append [] s = refl
starts_with-append (c ∷ p) s = ground (arith, starts_with-append p s)
