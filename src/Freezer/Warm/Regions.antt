-- ===== src/Freezer/Warm/Regions.antt =====
-- The bounds on the regions of a warm-up.
use sundown.Base.{
  ℕ, suc, zero, ◌<◌, ◌≤◌, ◌≡◌, refl, arith, Option, none, some, List, [], ◌∷◌, Text, All, length,
  words, contains, split_once, Bool-cases, inl, inr,
}
use sundown.Freezer.Warm.{sized, ranged, region_of, regions, parse_hex}

-- not empty, and at most 8 MB
abbrev pub IsRegion : ℕ × ℕ → Type 0
IsRegion r = (0 < r.1) × (r.1 ≤ 8388608)

sized-IsRegion :
    (a b : Option ℕ) (rest : List Text) (r : ℕ × ℕ) → sized a b rest ≡ some r → IsRegion r
unfolding sized
sized-IsRegion none none rest r h = ground (arith, h)
sized-IsRegion none (some b) rest r h = ground (arith, h)
sized-IsRegion (some a) none rest r h = ground (arith, h)
sized-IsRegion (some a) (some b) [] r h = ground (arith, h)
sized-IsRegion (some a) (some b) (w ∷ ws) r h = ground (arith, h)

ranged-IsRegion :
    (o : Option (Text × Text)) (rest : List Text) (r : ℕ × ℕ) → ranged o rest ≡ some r → IsRegion r
ranged-IsRegion none rest r h = ground (arith, h)
ranged-IsRegion (some (start, end)) rest r h =
    sized-IsRegion (parse_hex start) (parse_hex end) rest r h

region_of-IsRegion : (ws : List Text) (r : ℕ × ℕ) → region_of ws ≡ some r → IsRegion r
unfolding region_of
region_of-IsRegion [] r h = ground (arith, h)
region_of-IsRegion (a ∷ []) r h = ground (arith, h)
region_of-IsRegion (range ∷ perms ∷ rest) r h = elim (Bool-cases (contains b'r' perms)) [
  | inl c ↦ ranged-IsRegion (split_once b'-' range) rest r (rw c at h)
  | inr c ↦ let e : none ≡ some r = rw c at h in absurd (ground (arith, e))
]

abbrev Bounded : ℕ → List (ℕ × ℕ) → Type 0
Bounded room out = All IsRegion out × (length out ≤ room)

onto-Bounded :
    (o : Option (ℕ × ℕ)) (room : ℕ) (same fewer : List (ℕ × ℕ))
    → ((r : ℕ × ℕ) → o ≡ some r → IsRegion r)
    → Bounded (suc room) same
    → Bounded room fewer
    → Bounded (suc room) (elim o [ none ↦ same | some r ↦ r ∷ fewer ])
onto-Bounded none room same fewer h s f = s
onto-Bounded (some r) room same fewer h s f = ((h r refl, f.0), omega (arith, f.1))

-- A warm-up has at most as many regions as there is room for, each one not empty and of 8 MB at
-- most.
pub regions-IsRegion :
    (room : ℕ) (ls : List Text) → All IsRegion (regions room ls) × (length (regions room ls) ≤ room)
unfolding regions
regions-IsRegion zero ls = (tt, omega arith)
regions-IsRegion (suc room) [] = (tt, omega arith)
regions-IsRegion (suc room) (l ∷ ls) =
    onto-Bounded (region_of (words l)) room (regions (suc room) ls) (regions room ls)
      (region_of-IsRegion (words l)) (regions-IsRegion (suc room) ls) (regions-IsRegion room ls)

sized-same_third :
    (a b : Option ℕ) (third : Text) (rest rest' : List Text)
    → sized a b (third ∷ rest) ≡ sized a b (third ∷ rest')
unfolding sized
sized-same_third none b third rest rest' = refl
sized-same_third (some x) none third rest rest' = refl
sized-same_third (some x) (some y) third rest rest' = refl

ranged-same_third :
    (o : Option (Text × Text)) (third : Text) (rest rest' : List Text)
    → ranged o (third ∷ rest) ≡ ranged o (third ∷ rest')
ranged-same_third none third rest rest' = refl
ranged-same_third (some (start, end)) third rest rest' =
    sized-same_third (parse_hex start) (parse_hex end) third rest rest'

-- What stands behind the third field of a line, the name of its file too, does not matter.
pub region_of-same_third :
    (range perms third : Text) (rest rest' : List Text)
    → region_of (range ∷ perms ∷ third ∷ rest) ≡ region_of (range ∷ perms ∷ third ∷ rest')
unfolding region_of
region_of-same_third range perms third rest rest' = elim (Bool-cases (contains b'r' perms)) [
  | inr c ↦ rw c refl
  | inl c ↦ rw c (ranged-same_third (split_once b'-' range) third rest rest')
]
