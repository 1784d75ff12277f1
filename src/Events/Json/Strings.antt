-- ===== src/Events/Json/Strings.antt =====
-- A field of the JSON text read back.
use sundown.Base.{ℕ, Option, none, some, [], ◌∷◌, Text, ◌==◌, nat_eq, if◌then◌else◌}

-- what a JSON reader makes of the character behind a backslash, for the escapes that are written
abbrev unescaped : ℕ → ℕ
unescaped c = if c == b'n' then 10 else if c == b't' then 9 else c

abbrev onto_read : ℕ → Option (Text × Text) → Option (Text × Text)
onto_read c none = none
onto_read c (some (s, rest)) = some (c ∷ s, rest)

-- a JSON string behind its first quote: the text up to the next quote that is not escaped
abbrev pub read_json : Text → Option (Text × Text)
read_json [] = none
read_json (c ∷ []) = if c == b'"' then some ([], []) else none
read_json (c ∷ d ∷ s) =
    let escaped = onto_read (unescaped d) (read_json s) in
    let plain = onto_read c (read_json (d ∷ s)) in
    if c == b'"' then some ([], d ∷ s) else if c == b'\\' then escaped else plain
