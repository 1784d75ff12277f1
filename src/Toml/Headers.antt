-- ===== src/Toml/Headers.antt =====
-- The loop of `split_table_header` in daemon/src/toml.rs ends on every text: each round that goes
-- on takes two quotes off it.
use sundown.Base.{
  ℕ, zero, suc, ◌<◌, ◌≤◌, ◌≡◌, refl, arith, Option, none, some, List, [], ◌∷◌, ◌++◌, Text, ◌==◌,
  nat_eq, length, split_once, onto_before, segments, Bool, true, false,
}
use sundown.Toml.{split_header, split_table_header, header_rest, quoted_rest}

-- the rounds of the loop from a text to its end, and what they put out
pub data Splits : Text → List Text → Type 0 where
  ends : (rest : Text) → split_once 34 rest ≡ none → Splits rest (segments 46 rest)
  unclosed :
      (rest bare behind : Text)
      → split_once 34 rest ≡ some (bare, behind)
      → split_once 34 behind ≡ none
      → Splits rest (segments 46 bare ++ segments 46 (34 ∷ behind))
  goes_on :
      (rest bare behind seg after : Text) (out : List Text)
      → split_once 34 rest ≡ some (bare, behind)
      → split_once 34 behind ≡ some (seg, after)
      → Splits after out
      → Splits rest (segments 46 bare ++ (seg ∷ out))

-- what stands behind the first character that is sought is shorter
abbrev Shorter : Text → Option (Text × Text) → Type 0
Shorter s none = Unit {0}
Shorter s (some (a, b)) = length b < length s

Shorter-onto :
    (d : ℕ) (s : Text) (o : Option (Text × Text)) → Shorter s o → Shorter (d ∷ s) (onto_before d o)
Shorter-onto d s none h = tt
Shorter-onto d s (some (a, b)) h = omega (arith, h)

Shorter-test :
    (t : Bool) (d : ℕ) (s : Text) (o : Option (Text × Text))
    → Shorter s o
    → Shorter (d ∷ s) (elim t [ true ↦ some ([], s) | false ↦ onto_before d o ])
Shorter-test true d s o h = omega arith
Shorter-test false d s o h = Shorter-onto d s o h

split_once-Shorter : (c : ℕ) (s : Text) → Shorter s (split_once c s)
unfolding split_once
split_once-Shorter c [] = tt
split_once-Shorter c (d ∷ s) = Shorter-test (d == c) d s (split_once c s) (split_once-Shorter c s)

header_rest-Splits :
    (again : Text → List Text) (rest : Text) (n : ℕ) (o : Option (Text × Text))
    → ((after : Text) → length after < n → Splits after (again after))
    → length rest ≤ n
    → Shorter rest o
    → split_once 34 rest ≡ o
    → Splits rest (header_rest again rest o)
header_rest-Splits again rest n none f l h e = ends rest e
header_rest-Splits again rest n (some (bare, behind)) f l h e =
    behind_quote (split_once 34 behind) (split_once-Shorter 34 behind) refl
  where
    behind_quote :
        (o : Option (Text × Text))
        → Shorter behind o
        → split_once 34 behind ≡ o
        → Splits rest (segments 46 bare ++ quoted_rest again (34 ∷ behind) o)
    behind_quote none k q = unclosed rest bare behind e q
    behind_quote (some (seg, after)) k q =
        goes_on rest bare behind seg after (again after) e q (f after (omega (arith, l, h, k)))

split_header-Splits :
    (fuel : ℕ) (rest : Text) → length rest < fuel → Splits rest (split_header fuel rest)
unfolding split_header
split_header-Splits zero rest l = absurd (omega (arith, l))
split_header-Splits (suc fuel) rest l =
    header_rest-Splits (split_header fuel) rest fuel (split_once 34 rest)
      (λ after k. split_header-Splits fuel after k) (omega (arith, l)) (split_once-Shorter 34 rest)
      refl

-- On every text the loop of split_table_header comes to an end in one of its two ways, and what
-- is returned is what its rounds put out.
pub split_table_header-Splits : (inner : Text) → Splits inner (split_table_header inner)
unfolding split_table_header
split_table_header-Splits inner = split_header-Splits (suc (length inner)) inner (omega arith)
