-- ===== src/Sock/Dex/Version.antt =====
-- What `extract_dex_version` of daemon/src/sock.rs finds in a file: the first short hash of the
-- string table.
use sundown.Base.{
  ℕ, zero, suc, ◌+◌, ◌*◌, ◌^◌, ◌<◌, ◌≡◌, refl, sym, ◌∙◌, some_inj, arith, Bool, true, false, not,
  ◌&&◌, ◌||◌, Option, none, some, Text, ◌==◌, nat_eq, nat_beq_iff, ltb, leb, length, all, trim,
  from_utf8, if◌then◌else◌,
}
use sundown.Sock.Dex.{
  Bytes, u32_at, sha_at, sha_of, is_lower_hex, skip_uleb, until_nul, drop, checked, id_offset,
  entry_at, found_or, scan_strings, scan_table, starts_as_dex, extract_dex_version,
}

-- a short hash: seven digits or letters from a to f
abbrev pub IsShortSha : Text → Type 0
IsShortSha t = (length t ≡ 7) × (all (λ c. is_lower_hex c) t ≡ true)

-- what the entry `i` of the table at `off` has: nothing where the file ends before it
abbrev pub sha_entry : ℕ → ℕ → Bytes → Option (Option Text)
sha_entry off i bytes = elim (u32_at (off + i * 4) bytes) [
  | none ↦ none
  | some o ↦ some (sha_at o bytes)
]

-- the `k` entries from `i` on are in the file, and none is a short hash
abbrev pub Passed : ℕ → ℕ → ℕ → Bytes → Type 0
Passed zero off i bytes = Unit {0}
Passed (suc k) off i bytes = (sha_entry off i bytes ≡ some none) × Passed k off (i + 1) bytes

kept_if : (b : Bool) (t v : Text) → (if b then some t else none) ≡ some v → (b ≡ true) × (t ≡ v)
kept_if true t v h = (refl, some_inj h)
kept_if false t v h = ground (arith, h)

both_hold : (a b : Bool) → a && b ≡ true → (a ≡ true) × (b ≡ true)
both_hold true b h = (refl, h)
both_hold false b h = ground (arith, h)

sha_of-IsShortSha : (o : Option Text) (v : Text) → sha_of o ≡ some v → IsShortSha v
sha_of-IsShortSha none v h = ground (arith, h)
sha_of-IsShortSha (some s) v h =
    let r = kept_if _ (trim s) v h in
    let q = both_hold (length (trim s) == 7) (all (λ c. is_lower_hex c) (trim s)) r.0 in
    rw (sym r.1) ((nat_beq_iff (length (trim s)) 7).0 q.0, q.1)

sha_at-IsShortSha : (off : ℕ) (bytes : Bytes) (v : Text) → sha_at off bytes ≡ some v → IsShortSha v
unfolding sha_at
sha_at-IsShortSha off bytes v h =
    past_end (leb (length bytes) off) (from_utf8 (until_nul (skip_uleb 0 (drop off bytes)))) v h
  where
    past_end :
        (b : Bool) (o : Option Text) (v : Text)
        → (if b then none else sha_of o) ≡ some v
        → IsShortSha v
    past_end true o v h = ground (arith, h)
    past_end false o v h = sha_of-IsShortSha o v h

found_or-IsShortSha :
    (o rest : Option Text) (v : Text)
    → ((w : Text) → o ≡ some w → IsShortSha w)
    → ((w : Text) → rest ≡ some w → IsShortSha w)
    → found_or o rest ≡ some v
    → IsShortSha v
found_or-IsShortSha none rest v f g h = g v h
found_or-IsShortSha (some w) rest v f g h = f v h

entry-IsShortSha :
    (o : Option ℕ) (bytes : Bytes) (rest : Option Text) (v : Text)
    → ((w : Text) → rest ≡ some w → IsShortSha w)
    → (elim o [ none ↦ none | some d ↦ found_or (sha_at d bytes) rest ]) ≡ some v
    → IsShortSha v
entry-IsShortSha none bytes rest v g h = ground (arith, h)
entry-IsShortSha (some d) bytes rest v g h =
    found_or-IsShortSha (sha_at d bytes) rest v (λ w e. sha_at-IsShortSha d bytes w e) g h

scan_strings-IsShortSha :
    (n off i : ℕ) (bytes : Bytes) (v : Text) → scan_strings n off i bytes ≡ some v → IsShortSha v
unfolding scan_strings
scan_strings-IsShortSha zero off i bytes v h = ground (arith, h)
scan_strings-IsShortSha (suc n) off i bytes v h =
    entry-IsShortSha (entry_at (id_offset off i) bytes) bytes (scan_strings n off (i + 1) bytes) v
      (λ w e. scan_strings-IsShortSha n off (i + 1) bytes w e) h

scan_table-IsShortSha :
    (size off : Option ℕ) (bytes : Bytes) (v : Text)
    → scan_table size off bytes ≡ some v
    → IsShortSha v
unfolding scan_table
scan_table-IsShortSha none off bytes v h = ground (arith, h)
scan_table-IsShortSha (some n) none bytes v h = ground (arith, h)
scan_table-IsShortSha (some n) (some off) bytes v h = scan_strings-IsShortSha n off 0 bytes v h

-- A version that is found is a short hash.
pub extract_dex_version-IsShortSha :
    (bytes : Bytes) (v : Text) → extract_dex_version bytes ≡ some v → IsShortSha v
unfolding extract_dex_version
extract_dex_version-IsShortSha bytes v h =
    past_header (ltb (length bytes) 112 || not (starts_as_dex bytes)) h
  where
    past_header :
        (b : Bool)
        → (if b then none else scan_table (u32_at 56 bytes) (u32_at 60 bytes) bytes) ≡ some v
        → IsShortSha v
    past_header true h = ground (arith, h)
    past_header false h = scan_table-IsShortSha (u32_at 56 bytes) (u32_at 60 bytes) bytes v h

checked_lem : (n : ℕ) → n < 2 ^ 64 → checked n ≡ some n
checked_lem n h = ground (arith, h)

id_offset_lem : (off i : ℕ) → off + i * 4 < 2 ^ 64 → id_offset off i ≡ some (off + i * 4)
id_offset_lem off i h =
    rw (id_offset, checked_lem (i * 4) (omega (arith, h))) (checked_lem (off + i * 4) h)

-- one round of the loop
abbrev round : Option (Option Text) → Option Text → Option Text
round none rest = none
round (some o) rest = found_or o rest

scan_round :
    (n off i : ℕ) (bytes : Bytes)
    → off + i * 4 < 2 ^ 64
    → scan_strings (suc n) off i bytes
      ≡ round (sha_entry off i bytes) (scan_strings n off (i + 1) bytes)
unfolding scan_strings
scan_round n off i bytes h =
    rw (scan_strings, id_offset_lem off i h) (by_entry (u32_at (off + i * 4) bytes))
  where
    by_entry :
        (o : Option ℕ)
        → (elim o [
          | none ↦ none
          | some d ↦ found_or (sha_at d bytes) (scan_strings n off (i + 1) bytes)
        ])
          ≡ round
              (elim o [ none ↦ none | some d ↦ some (sha_at d bytes) ])
              (scan_strings n off (i + 1) bytes)
    by_entry none = refl
    by_entry (some d) = refl

entry_index :
    {o : Option (Option Text)} (off i j : ℕ) (bytes : Bytes)
    → i ≡ j
    → sha_entry off i bytes ≡ o
    → sha_entry off j bytes ≡ o
entry_index off i j bytes e h = rw (sym e) h

scan_first :
    (k n off i : ℕ) (v : Text) (bytes : Bytes)
    → off + (i + n) * 4 < 2 ^ 64
    → k < n
    → Passed k off i bytes
    → sha_entry off (i + k) bytes ≡ some (some v)
    → scan_strings n off i bytes ≡ some v
scan_first k zero off i v bytes b l p h = absurd (omega (arith, l))
scan_first zero (suc n) off i v bytes b l p h =
    scan_round n off i bytes (omega (arith, b))
    ∙ rw (entry_index off (i + 0) i bytes (omega arith) h) refl
scan_first (suc k) (suc n) off i v bytes b l p h =
    scan_round n off i bytes (omega (arith, b))
    ∙ rw p.0 (
        scan_first k n off (i + 1) v bytes (omega (arith, b)) (omega (arith, l)) p.1
          (entry_index off (i + suc k) (i + 1 + k) bytes (omega arith) h))

-- In a file of 112 bytes or more that starts as a dex file, with the string table in the range of
-- the addresses, the version is the first string of the table that is a short hash, wherever in
-- the table it stands, when the entries before it are in the file; and it has seven characters,
-- all lower-case hexadecimal digits.
pub extract_dex_version_first :
    (n off k : ℕ) (v : Text) (bytes : Bytes)
    → ltb (length bytes) 112 ≡ false
    → starts_as_dex bytes ≡ true
    → u32_at 56 bytes ≡ some n
    → u32_at 60 bytes ≡ some off
    → off + n * 4 < 2 ^ 64
    → k < n
    → Passed k off 0 bytes
    → sha_entry off k bytes ≡ some (some v)
    → (extract_dex_version bytes ≡ some v) × IsShortSha v
unfolding extract_dex_version scan_table
extract_dex_version_first n off k v bytes l d size table b in_table p h =
    let found : extract_dex_version bytes ≡ some v =
      rw (extract_dex_version, l, d, size, table)
        (scan_first k n off 0 v bytes (omega (arith, b)) in_table p
          (entry_index off k (0 + k) bytes (omega arith) h)) in
    (found, extract_dex_version-IsShortSha bytes v found)
