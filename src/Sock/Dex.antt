-- ===== src/Sock/Dex.antt =====
-- `extract_dex_version`, `serve_dex_bytes` and `push_dex` of daemon/src/sock.rs. A file is the list
-- of its bytes; the rest of the file from an offset stands for the offset.
pub mod Version
pub mod Fuse
use sundown.Base.{
  ℕ, zero, suc, ◌+◌, ◌*◌, ◌^◌, Bool, true, false, not, ◌&&◌, ◌||◌, Option, none, some, List, [],
  ◌∷◌, ◌++◌, Text, str, ◌==◌, nat_eq, text_eq, ltb, leb, length, all, is_empty, trim, show_nat,
  from_utf8, unwrap_or, if◌then◌else◌,
}
use sundown.Engine.System.{System}
use sundown.Events.Json.{pieces}
use sundown.Sock.{State, quoted_or_null}
use sundown.Subscribe.{Registry, and_then, broadcast_dex}

abbrev pub Bytes : Type 0
Bytes = List ℕ

-- `&bytes[n..]`
unfoldable pub drop : ℕ → Bytes → Bytes
drop zero l = l
drop (suc n) [] = []
drop (suc n) (b ∷ l) = drop n l

-- `u32_at`: four bytes, the least first; none where the file ends before them
abbrev little_endian : Bytes → Option ℕ
little_endian (a ∷ b ∷ c ∷ d ∷ l) = some (a + b * 2 ^ 8 + c * 2 ^ 16 + d * 2 ^ 24)
little_endian (a ∷ b ∷ c ∷ []) = none
little_endian (a ∷ b ∷ []) = none
little_endian (a ∷ []) = none
little_endian [] = none

unfoldable pub u32_at : ℕ → Bytes → Option ℕ
unfolding drop
u32_at off bytes = little_endian (drop off bytes)

-- the loop over the bytes of the uleb128 size: behind its last byte, six at most
unfoldable pub skip_uleb : ℕ → Bytes → Bytes
skip_uleb shift [] = []
skip_uleb shift (b ∷ l) =
    let rest = skip_uleb (shift + 7) l in if ltb b 128 || ltb 35 (shift + 7) then l else rest

-- the bytes up to the terminator
unfoldable pub until_nul : Bytes → Bytes
until_nul [] = []
until_nul (b ∷ l) = let rest = until_nul l in if b == 0 then [] else b ∷ rest

-- an ASCII digit or a letter from a to f; a text of these has as many bytes as characters
abbrev pub is_lower_hex : ℕ → Bool
is_lower_hex c = (leb 48 c && leb c 57) || (leb 97 c && leb c 102)

abbrev sha_of : Option Text → Option Text
sha_of none = none
sha_of (some s) =
    let t = trim s in if length t == 7 && all (λ c. is_lower_hex c) t then some t else none

-- the string at an offset, where it is a short hash
unfoldable pub sha_at : ℕ → Bytes → Option Text
unfolding skip_uleb until_nul drop
sha_at data_off bytes =
    if leb (length bytes) data_off
    then none
    else sha_of (from_utf8 (until_nul (skip_uleb 0 (drop data_off bytes))))

-- checked_add and checked_mul on usize
abbrev checked : ℕ → Option ℕ
checked n = if ltb n (2 ^ 64) then some n else none

abbrev id_offset : ℕ → ℕ → Option ℕ
id_offset off i = elim (checked (i * 4)) [ none ↦ none | some n ↦ checked (off + n) ]

abbrev entry_at : Option ℕ → Bytes → Option ℕ
entry_at none bytes = none
entry_at (some off) bytes = u32_at off bytes

abbrev found_or : Option Text → Option Text → Option Text
found_or none rest = rest
found_or (some t) rest = some t

-- the loop over `n` entries of the table from the entry `i` on
unfoldable pub scan_strings : ℕ → ℕ → ℕ → Bytes → Option Text
unfolding sha_at u32_at
scan_strings zero off i bytes = none
scan_strings (suc n) off i bytes = elim (entry_at (id_offset off i) bytes) [
  | none ↦ none
  | some data_off ↦ found_or (sha_at data_off bytes) (scan_strings n off (i + 1) bytes)
]

abbrev starts_as_dex : Bytes → Bool
starts_as_dex (a ∷ b ∷ c ∷ d ∷ l) = a == 100 && b == 101 && c == 120 && d == 10
starts_as_dex (a ∷ b ∷ c ∷ []) = false
starts_as_dex (a ∷ b ∷ []) = false
starts_as_dex (a ∷ []) = false
starts_as_dex [] = false

unfoldable pub scan_table : Option ℕ → Option ℕ → Bytes → Option Text
unfolding scan_strings
scan_table none off bytes = none
scan_table (some size) none bytes = none
scan_table (some size) (some off) bytes = scan_strings size off 0 bytes

-- extract_dex_version; the size and the offset of the string table stand at 0x38 and 0x3C
unfoldable pub extract_dex_version : Bytes → Option Text
unfolding u32_at scan_table
extract_dex_version bytes =
    if ltb (length bytes) 112 || not (starts_as_dex bytes)
    then none
    else scan_table (u32_at 56 bytes) (u32_at 60 bytes) bytes

-- `std::fs::read`
pub data ReadResult : Type 0 where
  contents : Bytes → ReadResult
  failed : Text → ReadResult

-- may the bytes be sent
unfoldable pub consistent : Option Text → Option Text → Bool
consistent none actual = true
consistent (some h) none = true
consistent (some h) (some a) = a == h

abbrev dex_file : Text
dex_file = str "/data/adb/sundown/probe/probe.dex"

unfoldable pub mismatch : Option Text → Option Text → Text
mismatch actual expected =
    str "{\"ok\":0,\"error\":\"字节源版本与期望不一致 actual="
    ++ pieces (
        unwrap_or actual (str "<解析失败>")
        ∷ str " expected="
        ∷ unwrap_or expected (str "<无>")
        ∷ str "，请同步六位一体（含 root 侧）\"}"
        ∷ [])

unfoldable pub read_error : Text → Text → Text
read_error path e =
    str "{\"ok\":0,\"error\":\"read " ++ pieces (path ∷ str " failed: " ∷ e ∷ str "\"}" ∷ [])

-- the size and the two hashes of a header line
unfoldable pub dex_header : Text → Bytes → Option Text → Text
dex_header lead bytes expected = pieces (
    lead
    ∷ str "\"size\":"
    ∷ show_nat (length bytes)
    ∷ str ",\"expected_hash\":"
    ∷ quoted_or_null expected
    ∷ str ",\"actual_hash\":"
    ∷ quoted_or_null (extract_dex_version bytes)
    ∷ str "}"
    ∷ [])

module _ (system : System) (Stream : Type 0) (write_all : Stream → Text → Bool × Stream)
    (flush : Stream → Bool × Stream) (read : Text → system.Sys → ReadResult) where
  -- serve_dex_bytes: what is written to the connection, up to the first write that fails
  unfoldable pub write_reply : Text → Stream → Bool × Stream
  write_reply reply s =
      and_then Stream (and_then Stream (write_all s reply) (λ s'. write_all s' (str "\n"))) flush

  unfoldable pub write_frame : Text → Bytes → Stream → Bool × Stream
  write_frame header bytes s =
      and_then Stream
        (and_then Stream (and_then Stream (write_all s header) (λ s'. write_all s' (str "\n")))
          (λ s'. write_all s' bytes))
        flush

  unfoldable pub serve_read : ReadResult → Option Text → Stream → Bool × Stream
  unfolding write_reply write_frame
  serve_read (failed e) expected s = write_reply (read_error dex_file e) s
  serve_read (contents bytes) expected s =
      if not (consistent expected (extract_dex_version bytes))
      then write_reply (mismatch (extract_dex_version bytes) expected) s
      else write_frame (dex_header (str "{\"ok\":1,") bytes expected) bytes s

  unfoldable pub serve_dex_bytes : Stream → State system Stream → Bool × Stream
  unfolding serve_read
  serve_dex_bytes s d = serve_read (read dex_file d.engine.sys) d.expected_dex_hash s

  -- push_dex: to every subscriber
  unfoldable pub pushed_reply : ℕ → Bytes → Text → Text
  pushed_reply notified bytes path = pieces (
      str "{\"ok\":1,\"notified\":"
      ∷ show_nat notified
      ∷ str ",\"size\":"
      ∷ show_nat (length bytes)
      ∷ str ",\"dex_path\":\""
      ∷ path
      ∷ str "\"}"
      ∷ [])

  unfoldable pub push_read : Text → ReadResult → State system Stream → Text × State system Stream
  unfolding pushed_reply
  push_read path (failed e) d = (read_error path e, d)
  push_read path (contents bytes) d =
      let header = dex_header (str "{\"event\":\"dex-push\",") bytes d.expected_dex_hash in
      let told = broadcast_dex Stream write_all flush (header ++ str "\n") bytes d.dex_clients in
      if not (consistent d.expected_dex_hash (extract_dex_version bytes))
      then (mismatch (extract_dex_version bytes) d.expected_dex_hash, d)
      else (pushed_reply told.0 bytes path, record d { dex_clients = told.1 })

  unfoldable pub push_dex : Text → State system Stream → Text × State system Stream
  unfolding push_read
  push_dex arg d =
      let path = if is_empty arg then dex_file else arg in push_read path (read path d.engine.sys) d
