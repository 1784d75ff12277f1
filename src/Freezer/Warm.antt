-- ===== src/Freezer/Warm.antt =====
-- The warm-up of daemon/src/freezer.rs before a thaw: the regions of /proc/<pid>/maps that
-- process_madvise is told of, and the warm-up of all processes of a uid.
pub mod Regions
use sundown.Base.{
  ℕ, suc, zero, ◌+◌, ◌-◌, ◌*◌, ◌^◌, Bool, true, false, not, ◌&&◌, Option, none, some, List, [], ◌∷◌,
  Text, str, ◌==◌, nat_eq, contains, split_once, begins_with, lines, words, is_empty, leb, min,
  if◌then◌else◌,
}
use sundown.Freezer.{Os, Fz, proc_file, uid_pids}

-- `u64::from_str_radix(s, 16)`
unfoldable pub hex_digit : ℕ → Option ℕ
hex_digit c =
    if leb 48 c && leb c 57
    then some (c - 48)
    else if leb 97 c && leb c 102
    then some (c - 87)
    else if leb 65 c && leb c 70
    then some (c - 55)
    else none

unfoldable pub hex_digits : ℕ → Text → Option ℕ
hex_digits acc [] = some acc
hex_digits acc (c ∷ s) = elim (hex_digit c) [ none ↦ none | some d ↦ hex_digits (acc * 16 + d) s ]

unfoldable pub hex_number : Text → Option ℕ
unfolding hex_digits hex_digit
hex_number [] = none
hex_number (c ∷ s) = hex_digits 0 (c ∷ s)

abbrev at_most : Option ℕ → Option ℕ
at_most none = none
at_most (some n) = if leb n (2 ^ 64 - 1) then some n else none

abbrev hex_unsigned : Text → Option ℕ
hex_unsigned [] = none
hex_unsigned (c ∷ s) = if c == 43 then hex_number s else hex_number (c ∷ s)

unfoldable pub parse_hex : Text → Option ℕ
unfolding hex_number
parse_hex s = at_most (hex_unsigned s)

-- the third field of a line starts with `[`
abbrev bracketed : List Text → Bool
bracketed [] = false
bracketed (p ∷ ps) = begins_with b'[' p

-- a region, with its length cut at 8 MB
unfoldable pub sized : Option ℕ → Option ℕ → List Text → Option (ℕ × ℕ)
sized (some start) (some end) rest =
    if leb end start
    then none
    else if bracketed rest
    then none
    else some (start, min (end - start) 8388608)
sized _ _ rest = none

abbrev pub ranged : Option (Text × Text) → List Text → Option (ℕ × ℕ)
ranged none rest = none
ranged (some (start, end)) rest = sized (parse_hex start) (parse_hex end) rest

unfoldable pub region_of : List Text → Option (ℕ × ℕ)
unfolding sized parse_hex
region_of (range ∷ perms ∷ rest) =
    if not (contains b'r' perms) then none else ranged (split_once b'-' range) rest
region_of _ = none

-- `room` regions more are taken
unfoldable pub regions : ℕ → List Text → List (ℕ × ℕ)
regions zero ls = []
regions (suc room) [] = []
regions (suc room) (l ∷ ls) = elim (region_of (words l)) [
  | none ↦ regions (suc room) ls
  | some r ↦ r ∷ regions room ls
]

abbrev regions_of : Option Text → List (ℕ × ℕ)
regions_of none = []
regions_of (some text) = regions 64 (lines text)

module _ (os : Os) where
  open os use {World, read, pidfd_open, advise}

  abbrev advised : List (ℕ × ℕ) → ℕ → World → Bool × World
  advised iovs pid w = if is_empty iovs then (false, w) else advise pid iovs w

  -- probe_madvise_willneed
  unfoldable pub probe_madvise_willneed : ℕ → World → Bool × World
  unfolding regions
  probe_madvise_willneed pid w =
      if pidfd_open pid w
      then advised (regions_of (read (proc_file pid (str "maps")) w)) pid w
      else (false, w)

  -- madvise_warm_uid: the number of processes that were warmed
  abbrev pub count_if : Bool → ℕ → ℕ
  count_if ok n = if ok then suc n else n

  unfoldable pub warm_each : List ℕ → World → ℕ × World
  warm_each [] w = (0, w)
  warm_each (pid ∷ pids) w =
      let r = probe_madvise_willneed pid w in
      let rest = warm_each pids r.1 in (count_if r.0 rest.0, rest.1)

  unfoldable pub madvise_warm_uid : ℕ → Fz World → ℕ × Fz World
  unfolding warm_each
  madvise_warm_uid uid st =
      let out = warm_each (uid_pids os uid st.world) st.world in
      (out.0, record st { world = out.1 })
