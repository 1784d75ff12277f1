-- ===== src/Freezer/Oom/Numbers.antt =====
-- A score that is written is read back.
use sundown.Base.{
  ℕ, suc, ◌^◌, ◌<◌, ◌≡◌, arith, some, [], ◌∷◌, Text, All, ◌==◌, nat_eq, number, show_nat,
  number-show_nat, number_nil, show_nat-digits, IsDigit, trim, ℤ, pos, negsuc, Bool-cases, inl, inr,
}
use sundown.Freezer.Oom.{IsScore, parse_i32, show_int, parsed_adj}

abbrev IsI32 : ℤ → Type 0
IsI32 (pos n) = n < 2 ^ 31
IsI32 (negsuc n) = n < 2 ^ 31

parse_i32-digits :
    (s : Text) (n : ℕ) → All IsDigit s → number s ≡ some n → n < 2 ^ 31 → parse_i32 s ≡ some (pos n)
unfolding parse_i32
parse_i32-digits [] n a h l = ground (arith, number_nil, h)
parse_i32-digits (c ∷ s) n a h l = elim (Bool-cases (c == 45)) [
  | inl b ↦ absurd (ground (arith, a, b))
  | inr b ↦ elim (Bool-cases (c == 43)) [
    | inl b' ↦ absurd (ground (arith, a, b'))
    | inr b' ↦ rw (parse_i32, b, b', h) (ground (arith, l))
  ]
]

parse_i32-show_int : (v : ℤ) → IsI32 v → parse_i32 (show_int v) ≡ some v
unfolding show_int parse_i32
parse_i32-show_int (pos n) h =
    parse_i32-digits (show_nat n) n (show_nat-digits n) (number-show_nat n) h
parse_i32-show_int (negsuc n) h = rw (parse_i32, number-show_nat (suc n)) (ground (arith, h))

pub IsScore-IsI32 : (v : ℤ) → IsScore v → IsI32 v
IsScore-IsI32 (pos n) h = omega (arith, h)
IsScore-IsI32 (negsuc n) h = omega (arith, h)

-- what is read of a file that holds the score, with white space around it
pub parsed_adj-written :
    (v : ℤ) (s : Text) → IsScore v → trim s ≡ show_int v → parsed_adj (some s) ≡ some v
parsed_adj-written v s h e = rw e (parse_i32-show_int v (IsScore-IsI32 v h))
