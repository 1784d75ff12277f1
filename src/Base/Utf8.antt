-- ===== src/Base/Utf8.antt =====
-- `std::str::from_utf8`: the code points of a list of bytes, or none where it is not UTF-8.
use Prim.Native.Nat.{ℕ, zero, suc, ◌+◌, ◌-◌, ◌*◌}
use mathlib.Core.Bool.{Bool, ◌&&◌}
use mathlib.Core.Option.{Option, none, some}
use mathlib.Core.List.{List, [], ◌∷◌}
use sundown.Base.Tests.{ltb, leb, if◌then◌else◌}

-- what is read of a code point: the bytes that are left, its bits so far, and the range of the
-- next byte
pub record Partial : Type 0 where
  pub left : ℕ
  pub bits : ℕ
  pub least : ℕ
  pub most : ℕ

abbrev between : Partial
between = record { left = 0; bits = 0; least = 0; most = 0 }

abbrev within : ℕ → ℕ → ℕ → Bool
within least most b = leb least b && leb b most

-- the first byte: nothing is read yet, or a code point is complete
abbrev leading : ℕ → Option (Option ℕ × Partial)
leading b =
    if ltb b 128
    then some (some b, between)
    else if within 194 223 b
    then some (none, record { left = 1; bits = b - 192; least = 128; most = 191 })
    else if within 224 224 b
    then some (none, record { left = 2; bits = 0; least = 160; most = 191 })
    else if within 237 237 b
    then some (none, record { left = 2; bits = 13; least = 128; most = 159 })
    else if within 225 239 b
    then some (none, record { left = 2; bits = b - 224; least = 128; most = 191 })
    else if within 240 240 b
    then some (none, record { left = 3; bits = 0; least = 144; most = 191 })
    else if within 241 243 b
    then some (none, record { left = 3; bits = b - 240; least = 128; most = 191 })
    else if within 244 244 b
    then some (none, record { left = 3; bits = 4; least = 128; most = 143 })
    else none

-- a byte behind the first
abbrev joined : ℕ → ℕ → Option ℕ × Partial
joined zero bits = (some bits, between)
joined (suc n) bits = (none, record { left = suc n; bits = bits; least = 128; most = 191 })

abbrev advance : ℕ → Partial → ℕ → Option (Option ℕ × Partial)
advance zero w b = leading b
advance (suc n) w b =
    if within w.least w.most b then some (joined n (w.bits * 64 + (b - 128))) else none

abbrev onto_point : Option ℕ → Option (List ℕ) → Option (List ℕ)
onto_point c none = none
onto_point none (some s) = some s
onto_point (some c) (some s) = some (c ∷ s)

abbrev at_end : ℕ → Option (List ℕ)
at_end zero = some []
at_end (suc n) = none

unfoldable pub utf8_from : Partial → List ℕ → Option (List ℕ)
utf8_from w [] = at_end w.left
utf8_from w (b ∷ s) = elim (advance w.left w b) [
  | none ↦ none
  | some r ↦ onto_point r.0 (utf8_from r.1 s)
]

unfoldable pub from_utf8 : List ℕ → Option (List ℕ)
unfolding utf8_from
from_utf8 s = utf8_from between s
