-- ===== src/Toml/Faults.antt =====
-- Where an error of the parser points: at a line of the text.
use sundown.Base.{
  ℕ, ◌+◌, ◌≤◌, ◌<◌, Bool, true, ◌≡◌, refl, arith, Option, none, some, List, [], ◌∷◌, ◌++◌, Text,
  Option-cases, inl, inr, ltb, leb, ◌==◌, nat_eq, ◌&&◌, length, lines, split_once, trim, segments,
  inside,
}
use sundown.Toml.{
  Parsed, Fault, Reading, unescape, parse_items, parse_value, read_value, close_array,
  read_assignment, assignment, read_line, join_line, take_line, next_line, step, read_lines,
  end_of_text, finish, first_line, parse, strip_comment,
}

-- an error points at the line `n`
abbrev at_line {ℓ} : {A : Type ℓ} → ℕ → Parsed A → Bool
at_line n (Parsed.ok x) = true
at_line n (Parsed.refused m f) = m == n

unescape-at_line : (s : Text) (n : ℕ) → at_line n (unescape s n) ≡ true
unfolding unescape
unescape-at_line [] n = refl
unescape-at_line (c ∷ []) n = ground arith
unescape-at_line (c ∷ d ∷ s) n = ground (arith, unescape-at_line s n, unescape-at_line (d ∷ s) n)

parse_items-at_line : (ps : List Text) (n : ℕ) → at_line n (parse_items ps n) ≡ true
unfolding parse_items
parse_items-at_line [] n = refl
parse_items-at_line (p ∷ ps) n =
    ground (arith, parse_items-at_line ps n, unescape-at_line (inside p) n)

parse_value-at_line : (s : Text) (n : ℕ) → at_line n (parse_value s n) ≡ true
unfolding parse_value
parse_value-at_line s n =
    ground (arith, parse_items-at_line (segments 44 (inside s)) n, unescape-at_line (inside s) n)

-- the number of the next line, and of the array that is joined
abbrev joins_before : Option (Text × Text × ℕ) → ℕ → Bool
joins_before none n = true
joins_before (some (k, v, at)) n = ltb 0 at && ltb at n

-- the loop has read the lines before `n`
abbrev is_before : ℕ → Parsed Reading → Bool
is_before n (Parsed.refused m f) = ltb 0 m && ltb m n
is_before n (Parsed.ok r) = ltb 0 n && (r.lineno == n && joins_before r.joining n)

read_value-before :
    (key val : Text) (at n : ℕ) (r : Reading)
    → is_before n (Parsed.ok r) ≡ true
    → (ltb 0 at && leb at n) ≡ true
    → is_before (n + 1) (next_line (read_value key val at r)) ≡ true
unfolding read_value
read_value-before key val at n r h k = ground (arith, parse_value-at_line val at)

close_array-before :
    (key val : Text) (at n : ℕ) (r : Reading)
    → is_before n (Parsed.ok r) ≡ true
    → (ltb 0 at && leb at n) ≡ true
    → is_before (n + 1) (next_line (close_array key val at r)) ≡ true
unfolding close_array
close_array-before key val at n r h k = ground (arith, read_value-before key val at n r)

read_assignment-before :
    (key val : Text) (n : ℕ) (r : Reading)
    → is_before n (Parsed.ok r) ≡ true
    → r.joining ≡ none
    → is_before (n + 1) (next_line (read_assignment key val r)) ≡ true
unfolding read_assignment
read_assignment-before key val n r h k = ground (arith, read_value-before key val n n r)

assignment-before :
    (parts : Option (Text × Text)) (n : ℕ) (r : Reading)
    → is_before n (Parsed.ok r) ≡ true
    → r.joining ≡ none
    → is_before (n + 1) (next_line (assignment parts r)) ≡ true
assignment-before none n r h k = ground arith
assignment-before (some (a, b)) n r h k = read_assignment-before (trim a) (trim b) n r h k

read_line-before :
    (line : Text) (n : ℕ) (r : Reading)
    → is_before n (Parsed.ok r) ≡ true
    → r.joining ≡ none
    → is_before (n + 1) (next_line (read_line line r)) ≡ true
unfolding read_line
read_line-before line n r h k = ground (arith, assignment-before (split_once 61 line) n r)

join_line-before :
    (line key val : Text) (at n : ℕ) (r : Reading)
    → is_before n (Parsed.ok r) ≡ true
    → r.joining ≡ some (key, val, at)
    → is_before (n + 1) (next_line (join_line line (key, val, at) r)) ≡ true
unfolding join_line
join_line-before line key val at n r h k =
    ground (arith, close_array-before key (val ++ line) at n r)

take_line-before :
    (line : Text) (n : ℕ) (r : Reading)
    → is_before n (Parsed.ok r) ≡ true
    → is_before (n + 1) (next_line (take_line line r)) ≡ true
take_line-before line n r h = elim (Option-cases r.joining) [
  | inl e ↦ ground (arith, e, read_line-before line n r h e)
  | inr (j, e) ↦ ground (arith, e, join_line-before line j.0 j.1 j.2 n r h e)
]

step-before :
    (l : Text) (n : ℕ) (st : Parsed Reading)
    → is_before n st ≡ true
    → is_before (n + 1) (step l st) ≡ true
unfolding step
step-before l n (Parsed.refused m f) h = ground arith
step-before l n (Parsed.ok r) h = take_line-before (trim (strip_comment l)) n r h

read_lines-before :
    (ls : List Text) (n : ℕ) (st : Parsed Reading)
    → is_before n st ≡ true
    → is_before (n + length ls) (read_lines ls st) ≡ true
unfolding read_lines
read_lines-before [] n st h = ground arith
read_lines-before (l ∷ ls) n st h =
    let e : n + length (l ∷ ls) ≡ n + 1 + length ls = omega arith in
    rw e (read_lines-before ls (n + 1) (step l st) (step-before l n st h))

close_array-at_line :
    (key val : Text) (at : ℕ) (r : Reading) → at_line at (close_array key val at r) ≡ true
unfolding close_array read_value
close_array-at_line key val at r = ground (arith, parse_value-at_line val at)

end_of_text-before :
    (n m : ℕ) (f : Fault) (r : Reading)
    → is_before n (Parsed.ok r) ≡ true
    → end_of_text r ≡ Parsed.refused m f
    → (ltb 0 m && ltb m n) ≡ true
end_of_text-before n m f r h e = elim (Option-cases r.joining) [
  | inl j ↦ ground (arith, j, e)
  | inr (j, q) ↦ ground (arith, q, e, close_array-at_line j.0 j.1 j.2 r)
]

finish-before :
    (n : ℕ) (st : Parsed Reading)
    → is_before n st ≡ true
    → (m : ℕ) (f : Fault) → finish st ≡ Parsed.refused m f
    → (ltb 0 m && ltb m n) ≡ true
finish-before n (Parsed.refused k g) h m f e = ground (arith, e)
finish-before n (Parsed.ok r) h m f e = ground (arith, e, end_of_text-before n m f r h)

-- An error of the TOML parser carries the number of a line of the text, the lines of joined
-- arrays included.
pub parse_fault_line :
    (src : Text) (m : ℕ) (f : Fault)
    → parse src ≡ Parsed.refused m f
    → (0 < m) × (m ≤ length (lines src))
unfolding parse
parse_fault_line src m f h =
    let ls = lines src in
    let st = read_lines ls (Parsed.ok first_line) in
    ground (
      arith,
      read_lines-before ls 1 (Parsed.ok first_line),
      finish-before (1 + length ls) st (read_lines-before ls 1 (Parsed.ok first_line) refl) m f h,
    )
