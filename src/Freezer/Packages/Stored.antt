-- ===== src/Freezer/Packages/Stored.antt =====
-- The frozen set that a session writes, read back by the next one.
use sundown.Base.{
  ℕ, ◌^◌, ◌<◌, ◌≡◌, refl, ap, ◌∙◌, false, some, List, [], ◌∷◌, ◌++◌, Text, All, is_empty, show_nat,
  parse_u32-show_nat, IsSolid, IsSolid-append, show_nat-IsSolid, Lacks, trim-solid,
  split_once-append, lines-append, lines, split,
}
use sundown.Freezer.Packages.{stored_of, stored_lines, stored_text}

-- a name with no blank and no colon, and a uid of 32 bits
abbrev pub IsStorable : Text × ℕ → Type 0
IsStorable e = IsSolid e.0 × Lacks 58 e.0 × (e.1 < 2 ^ 32)

line-IsSolid : (p : Text) (u : ℕ) → IsSolid p → IsSolid (p ++ (58 ∷ show_nat u))
line-IsSolid p u h = IsSolid-append p (58 ∷ show_nat u) h (refl, show_nat-IsSolid u)

line-not_empty : (p : Text) (s : Text) → is_empty (p ++ (58 ∷ s)) ≡ false
line-not_empty [] s = refl
line-not_empty (c ∷ p) s = refl

stored_lines-cons :
    (p : Text) (u : ℕ) (ls : List Text)
    → IsStorable (p, u)
    → stored_lines ((p ++ (58 ∷ show_nat u)) ∷ ls) ≡ (p, u) ∷ stored_lines ls
unfolding stored_lines
stored_lines-cons p u ls h =
    rw
      (
        trim-solid (p ++ (58 ∷ show_nat u)) (line-IsSolid p u h.0),
        line-not_empty p (show_nat u),
        split_once-append 58 p (show_nat u) h.1,
        trim-solid (show_nat u) (show_nat-IsSolid u),
        parse_u32-show_nat u h.2,
        trim-solid p h.0,
      )
      refl

stored_nil : stored_of (some []) ≡ []
unfolding stored_lines lines split
stored_nil = refl

-- A frozen set whose package names have no white space and no colon, and whose uids have 32 bits,
-- is read back by the next session as it was written.
pub stored_of-stored_text :
    (snap : List (Text × ℕ)) → All IsStorable snap → stored_of (some (stored_text snap)) ≡ snap
unfolding stored_text
stored_of-stored_text [] h = stored_nil
stored_of-stored_text ((p, u) ∷ snap) h =
    rw (lines-append (p ++ (58 ∷ show_nat u)) (stored_text snap) (line-IsSolid p u h.0.0)) (
      stored_lines-cons p u (lines (stored_text snap)) h.0
      ∙ ap (λ l. (p, u) ∷ l) (stored_of-stored_text snap h.1))
