-- ===== src/Events/Json.antt =====
-- The JSON text of daemon/src/events.rs: one event, the array of the recent ones, and the lines
-- that `persist_new` appends to the log.
pub mod Lines
pub mod Strings
use sundown.Base.{
  ℕ, Option, none, some, List, [], ◌∷◌, ◌++◌, Text, str, ◌==◌, nat_eq, show_nat, join, map,
  if◌then◌else◌,
}
use sundown.Events.{Event, EventBuffer, level_str, ev_action_str, subject_str, recent}

-- json_escape
unfoldable pub escape_char : ℕ → Text
escape_char c =
    if c == b'"'
    then str "\\\""
    else if c == b'\\'
    then str "\\\\"
    else if c == 10
    then str "\\n"
    else if c == 9
    then str "\\t"
    else c ∷ []

unfoldable pub json_escape : Text → Text
unfolding escape_char
json_escape [] = []
json_escape (c ∷ s) = escape_char c ++ json_escape s

-- a field that is there, between quotes
unfoldable pub text_field : Text → Option Text → Text
text_field name none = []
text_field name (some v) = name ++ (json_escape v ++ str "\"")

-- what a run of `push_str` builds
unfoldable pub pieces : List Text → Text
pieces [] = []
pieces (p ∷ ps) = p ++ pieces ps

-- Event::to_json
abbrev pub fields_of : Event → List Text
fields_of e =
    str "{\"seq\":"
    ∷ show_nat e.seq
    ∷ str ",\"ts\":"
    ∷ show_nat e.ts
    ∷ str ",\"level\":\""
    ∷ level_str e.level
    ∷ str "\",\"action\":\""
    ∷ ev_action_str e.action
    ∷ str "\",\"subject\":\""
    ∷ subject_str e.subject
    ∷ str "\""
    ∷ text_field (str ",\"pkg\":\"") e.pkg
    ∷ text_field (str ",\"reason\":\"") e.reason
    ∷ text_field (str ",\"msg\":\"") e.msg
    ∷ []

unfoldable pub event_json : Event → Text
unfolding text_field json_escape pieces
event_json e = pieces (fields_of e) ++ str "}"

-- EventBuffer::to_json
unfoldable pub to_json : EventBuffer → ℕ → Text
unfolding event_json
to_json b limit = str "[" ++ (join (str ",") (map event_json (recent b limit)) ++ str "]")

-- the text that `persist_new` appends
unfoldable pub jsonl : List Event → Text
jsonl [] = []
jsonl (e ∷ es) = event_json e ++ (10 ∷ jsonl es)
