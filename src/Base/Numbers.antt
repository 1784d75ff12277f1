-- ===== src/Base/Numbers.antt =====
-- Numbers that are written and read back.
use Prim.Native.Nat.{ℕ, zero, suc, ◌+◌, ◌-◌, ◌*◌, ◌/◌, ◌%◌, ◌^◌, ◌≤◌, ◌<◌}
use mathlib.Core.Path.{◌≡◌, refl, ap, ◌∙◌}
use mathlib.Core.Logic.{◌≢◌, inl, inr}
use mathlib.Core.Option.{none, some}
use mathlib.Core.List.{[], ◌∷◌}
use native.Mathlib.Omega.{arith}
use sundown.Base.Lists.{All}
use sundown.Base.Scan.{digits, number, parse_u32}
use sundown.Base.Tests.{Bool-cases, ltb, nat_eq, ◌==◌}
use sundown.Base.Texts.{Text, digits_onto, show_nat}

abbrev pub IsDigit : ℕ → Type 0
IsDigit c = (48 ≤ c) × (c ≤ 57)

digits-cons :
    (acc d n : ℕ) (s : Text) → d < 10 → acc * 10 + d ≡ n → digits acc ((48 + d) ∷ s) ≡ digits n s
unfolding digits
digits-cons acc d n s h e =
    let value : acc * 10 + (48 + d - 48) ≡ n = omega (arith, e) in
    let same : digits (acc * 10 + (48 + d - 48)) s ≡ digits n s = ap (λ k. digits k s) value in
    ground (arith, same)

digits-digits_onto :
    (fuel n : ℕ) (acc : Text) → n < fuel → digits 0 (digits_onto fuel n acc) ≡ digits n acc
unfolding digits_onto
digits-digits_onto zero n acc h = absurd (omega (arith, h))
digits-digits_onto (suc fuel) n acc h = elim (Bool-cases (ltb n 10)) [
  | inl b ↦ rw b (digits-cons 0 n n acc (ground (arith, b)) (omega arith))
  | inr b ↦
      let below = digits-digits_onto fuel (n / 10) ((48 + n % 10) ∷ acc) (ground (arith, b)) in
      rw b (below ∙ digits-cons (n / 10) (n % 10) n acc (omega arith) (omega arith))
]

digits_onto-digits :
    (fuel n : ℕ) (acc : Text) → n < fuel → All IsDigit acc → All IsDigit (digits_onto fuel n acc)
unfolding digits_onto
digits_onto-digits zero n acc h a = absurd (omega (arith, h))
digits_onto-digits (suc fuel) n acc h a = elim (Bool-cases (ltb n 10)) [
  | inl b ↦ rw b ((omega arith, ground (arith, b)), a)
  | inr b ↦ rw b (
      digits_onto-digits fuel (n / 10) ((48 + n % 10) ∷ acc) (ground (arith, b))
        ((omega arith, omega arith), a))
]

pub show_nat-digits : (n : ℕ) → All IsDigit (show_nat n)
unfolding show_nat
show_nat-digits n = digits_onto-digits (suc n) n [] (omega arith) tt

-- What stands in a number that is written stands in it as a digit, so it has one.
number-digits : (s : Text) (n : ℕ) → digits 0 s ≡ some n → s ≢ [] → number s ≡ some n
unfolding number
number-digits [] n h ne = absurd (ne refl)
number-digits (c ∷ s) n h ne = h

digits_onto-ne-nil : (fuel n : ℕ) (acc : Text) → n < fuel → digits_onto fuel n acc ≢ []
unfolding digits_onto
digits_onto-ne-nil zero n acc h = absurd (omega (arith, h))
digits_onto-ne-nil (suc fuel) n acc h = elim (Bool-cases (ltb n 10)) [
  | inl b ↦ rw b (λ e. cc)
  | inr b ↦ rw b (digits_onto-ne-nil fuel (n / 10) ((48 + n % 10) ∷ acc) (ground (arith, b)))
]

pub show_nat-ne-nil : (n : ℕ) → show_nat n ≢ []
unfolding show_nat
show_nat-ne-nil n = digits_onto-ne-nil (suc n) n [] (omega arith)

digits_nil : (n : ℕ) → digits n [] ≡ some n
unfolding digits
digits_nil n = refl

-- A number that is written is read back.
pub number-show_nat : (n : ℕ) → number (show_nat n) ≡ some n
unfolding show_nat
number-show_nat n =
    number-digits (show_nat n) n (digits-digits_onto (suc n) n [] (omega arith) ∙ digits_nil n)
      (show_nat-ne-nil n)

pub number_nil : number [] ≡ none
unfolding number
number_nil = refl

parse_u32-number :
    (s : Text) (n : ℕ) → All IsDigit s → number s ≡ some n → n < 2 ^ 32 → parse_u32 s ≡ some n
unfolding parse_u32
parse_u32-number [] n a h l = ground (arith, number_nil, h)
parse_u32-number (c ∷ s) n a h l = elim (Bool-cases (c == 43)) [
  | inl b ↦ absurd (ground (arith, a, b))
  | inr b ↦ rw (parse_u32, b, h) (ground (arith, l))
]

pub parse_u32-show_nat : (n : ℕ) → n < 2 ^ 32 → parse_u32 (show_nat n) ≡ some n
parse_u32-show_nat n l = parse_u32-number (show_nat n) n (show_nat-digits n) (number-show_nat n) l
