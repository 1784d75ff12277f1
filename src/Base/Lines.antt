-- ===== src/Base/Lines.antt =====
-- Texts without white space under `trim`, `split` and `lines`.
use Prim.Native.Nat.{ℕ}
use mathlib.Core.Path.{◌≡◌, refl}
use mathlib.Core.Logic.{◌≢◌, inl, inr}
use mathlib.Core.Bool.{false}
use mathlib.Core.Option.{some}
use mathlib.Core.List.{List, [], ◌∷◌, ◌++◌}
use native.Mathlib.Omega.{arith}
use sundown.Base.Lists.{All, All-imp}
use sundown.Base.Numbers.{IsDigit, show_nat-digits}
use sundown.Base.Scan.{split, split_once, onto_first, lines, lines_of, ends_with}
use sundown.Base.Tests.{Bool-cases, is_some, nat_eq, ◌==◌}
use sundown.Base.Texts.{
  starts_with, strip_prefix, Text, is_whitespace, trim, trim_start, trim_end, show_nat,
}

-- no character is white space
abbrev pub IsSolid : Text → Type 0
IsSolid s = All (λ c. is_whitespace c ≡ false) s

pub IsSolid-append : (a b : Text) → IsSolid a → IsSolid b → IsSolid (a ++ b)
IsSolid-append [] b h k = k
IsSolid-append (c ∷ a) b h k = (h.0, IsSolid-append a b h.1 k)

IsDigit-solid : (c : ℕ) → IsDigit c → is_whitespace c ≡ false
IsDigit-solid c d = ground (arith, d)

pub show_nat-IsSolid : (n : ℕ) → IsSolid (show_nat n)
show_nat-IsSolid n = All-imp IsDigit-solid (show_nat n) (show_nat-digits n)

trim_end-solid : (s : Text) → IsSolid s → trim_end s ≡ s
unfolding trim_end
trim_end-solid [] h = refl
trim_end-solid (c ∷ []) h = rw h.0 refl
trim_end-solid (c ∷ d ∷ s) h = rw (trim_end-solid (d ∷ s) h.1) refl

pub trim-solid : (s : Text) → IsSolid s → trim s ≡ s
unfolding trim trim_start
trim-solid [] h = trim_end-solid [] h
trim-solid (c ∷ s) h = rw h.0 (trim_end-solid (c ∷ s) h)

-- what `split_once` and `split` do at the first `c`
abbrev pub Lacks : ℕ → Text → Type 0
Lacks c s = All (λ d. (d == c) ≡ false) s

pub split_once-append : (c : ℕ) (a b : Text) → Lacks c a → split_once c (a ++ (c ∷ b)) ≡ some (a, b)
unfolding split_once
split_once-append c [] b h = ground arith
split_once-append c (d ∷ a) b h = rw (split_once, h.0, split_once-append c a b h.1) refl

split-append : (c : ℕ) (a b : Text) → Lacks c a → split c (a ++ (c ∷ b)) ≡ a ∷ split c b
unfolding split
split-append c [] b h = ground arith
split-append c (d ∷ a) b h = rw (h.0, split-append c a b h.1) refl

onto_first-ne-nil : (d : ℕ) (ps : List Text) → onto_first d ps ≢ []
onto_first-ne-nil d [] = λ e. cc
onto_first-ne-nil d (p ∷ ps) = λ e. cc

split-ne-nil : (c : ℕ) (s : Text) → split c s ≢ []
unfolding split
split-ne-nil c [] = λ e. cc
split-ne-nil c (d ∷ s) = elim (Bool-cases (d == c)) [
  | inl b ↦ rw b (λ e. cc)
  | inr b ↦ rw b (onto_first-ne-nil d (split c s))
]

solid-ends_with : (s : Text) → IsSolid s → ends_with 13 s ≡ false
unfolding ends_with
solid-ends_with [] h = refl
solid-ends_with (c ∷ []) h = ground (arith, h)
solid-ends_with (c ∷ d ∷ s) h = solid-ends_with (d ∷ s) h.1

solid-Lacks : (s : Text) → IsSolid s → Lacks 10 s
solid-Lacks s h = All-imp (λ c e. ground (arith, e)) s h

lines_of-cons :
    (a : Text) (l : List Text) → ends_with 13 a ≡ false → l ≢ [] → lines_of (a ∷ l) ≡ a ∷ lines_of l
lines_of-cons a [] h ne = absurd (ne refl)
lines_of-cons a (q ∷ ps) h ne = rw h refl

-- A text with no newline that does not end in a carriage return is a line.
pub line-append :
    (a b : Text) → Lacks 10 a → ends_with 13 a ≡ false → lines (a ++ (10 ∷ b)) ≡ a ∷ lines b
unfolding lines
line-append a b h r =
    rw (split-append 10 a b h) (lines_of-cons a (split 10 b) r (split-ne-nil 10 b))

pub lines-append : (a b : Text) → IsSolid a → lines (a ++ (10 ∷ b)) ≡ a ∷ lines b
lines-append a b h = line-append a b (solid-Lacks a h) (solid-ends_with a h)

pub lines_nil : lines [] ≡ []
unfolding lines
lines_nil = refl

-- The end of a text does not depend on what stands before it.
pub ends_with-append :
    (c : ℕ) (s : Text) (d : ℕ) (t : Text) → ends_with c (s ++ (d ∷ t)) ≡ ends_with c (d ∷ t)
unfolding ends_with
ends_with-append c [] d t = refl
ends_with-append c (x ∷ []) d t = refl
ends_with-append c (x ∷ y ∷ s) d t = ends_with-append c (y ∷ s) d t

pub strip_prefix-append : (p s : Text) → strip_prefix p (p ++ s) ≡ some s
unfolding strip_prefix
strip_prefix-append [] s = refl
strip_prefix-append (c ∷ p) s = ground (arith, strip_prefix-append p s)

pub starts_with-strip_prefix : (p s : Text) → starts_with p s ≡ is_some (strip_prefix p s)
unfolding starts_with strip_prefix
starts_with-strip_prefix [] s = refl
starts_with-strip_prefix (c ∷ p) [] = refl
starts_with-strip_prefix (c ∷ p) (d ∷ s) = ground (arith, starts_with-strip_prefix p s)
