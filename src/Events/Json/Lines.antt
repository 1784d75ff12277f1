-- ===== src/Events/Json/Lines.antt =====
-- The log has one line for each event.
use mathlib.Core.List.{append_assoc}
use sundown.Base.{
  ℕ, ◌≡◌, refl, ap, ◌∙◌, arith, Option, none, some, List, [], ◌∷◌, ◌++◌, map, Text, str, ◌==◌,
  nat_eq, false, Bool-cases, inl, inr, lines, contains, is_empty, Lacks, ends_with,
  ends_with-append, line-append, lines_nil, show_nat, show_nat-digits, All, All-imp,
}
use sundown.Events.{Event, EvLevel, EvAction, EvSubject, level_str, ev_action_str, subject_str}
use sundown.Events.Json.{json_escape, escape_char, text_field, event_json, jsonl, pieces, fields_of}

Lacks-append : (c : ℕ) (a b : Text) → Lacks c a → Lacks c b → Lacks c (a ++ b)
Lacks-append c [] b h k = k
Lacks-append c (d ∷ a) b h k = (h.0, Lacks-append c a b h.1 k)

escape_char-Lacks : (c : ℕ) → Lacks 10 (escape_char c)
unfolding escape_char
escape_char-Lacks c = elim (Bool-cases (c == b'"')) [
  | inl q ↦ rw q (refl, (refl, tt))
  | inr q ↦ elim (Bool-cases (c == b'\\')) [
    | inl s ↦ rw (q, s) (refl, (refl, tt))
    | inr s ↦ elim (Bool-cases (c == 10)) [
      | inl n ↦ rw (q, s, n) (refl, (refl, tt))
      | inr n ↦ elim (Bool-cases (c == 9)) [
        | inl t ↦ rw (q, s, n, t) (refl, (refl, tt))
        | inr t ↦ rw (q, s, n, t) (n, tt)
      ]
    ]
  ]
]

json_escape-Lacks : (s : Text) → Lacks 10 (json_escape s)
unfolding json_escape
json_escape-Lacks [] = tt
json_escape-Lacks (c ∷ s) =
    Lacks-append 10 (escape_char c) (json_escape s) (escape_char-Lacks c) (json_escape-Lacks s)

text_field-Lacks : (name : Text) (o : Option Text) → Lacks 10 name → Lacks 10 (text_field name o)
unfolding text_field
text_field-Lacks name none h = tt
text_field-Lacks name (some v) h =
    Lacks-append 10 name (json_escape v ++ str "\"") h
      (Lacks-append 10 (json_escape v) (str "\"") (json_escape-Lacks v) (refl, tt))

number-Lacks : (n : ℕ) → Lacks 10 (show_nat n)
number-Lacks n = All-imp (λ c d. ground (arith, d)) (show_nat n) (show_nat-digits n)

-- a text that is checked character by character
checked-Lacks : (c : ℕ) (s : Text) → contains c s ≡ false → Lacks c s
unfolding contains
checked-Lacks c [] h = tt
checked-Lacks c (d ∷ s) h = elim (Bool-cases (d == c)) [
  | inl y ↦ absurd (ground (arith, y, h))
  | inr n ↦ (n, checked-Lacks c s (ground (arith, n, h)))
]

level_str-Lacks : (l : EvLevel) → contains 10 (level_str l) ≡ false
unfolding level_str contains
level_str-Lacks EvLevel.info = refl
level_str-Lacks EvLevel.event = refl
level_str-Lacks EvLevel.success = refl
level_str-Lacks EvLevel.warn = refl
level_str-Lacks EvLevel.error = refl
level_str-Lacks EvLevel.timer = refl
level_str-Lacks EvLevel.report = refl

ev_action_str-Lacks : (a : EvAction) → contains 10 (ev_action_str a) ≡ false
unfolding ev_action_str contains
ev_action_str-Lacks EvAction.open_ = refl
ev_action_str-Lacks EvAction.close = refl
ev_action_str-Lacks EvAction.freeze = refl
ev_action_str-Lacks EvAction.unfreeze = refl
ev_action_str-Lacks EvAction.discard = refl
ev_action_str-Lacks EvAction.delay = refl
ev_action_str-Lacks EvAction.exempt = refl
ev_action_str-Lacks EvAction.policy = refl
ev_action_str-Lacks EvAction.system = refl

subject_str-Lacks : (s : EvSubject) → contains 10 (subject_str s) ≡ false
unfolding subject_str contains
subject_str-Lacks EvSubject.app = refl
subject_str-Lacks EvSubject.sys = refl

-- a line: no newline in it, and no carriage return at its end
abbrev pub IsLine : Text → Type 0
IsLine s = Lacks 10 s × (ends_with 13 s ≡ false) × (is_empty s ≡ false)

IsLine-append : (a b : Text) → Lacks 10 a → IsLine b → IsLine (a ++ b)
IsLine-append a [] h l = absurd (ground (arith, l.2))
IsLine-append [] (d ∷ t) h l = l
IsLine-append (c ∷ a) (d ∷ t) h l =
    (Lacks-append 10 (c ∷ a) (d ∷ t) h l.0, ends_with-append 13 (c ∷ a) d t ∙ l.1, refl)

pieces-IsLine :
    (ps : List Text) (z : Text) → All (λ p. Lacks 10 p) ps → IsLine z → IsLine (pieces ps ++ z)
unfolding pieces
pieces-IsLine [] z h l = l
pieces-IsLine (p ∷ ps) z h l =
    rw (append_assoc p (pieces ps) z)
      (IsLine-append p (pieces ps ++ z) h.0 (pieces-IsLine ps z h.1 l))

literal : (s : Text) → contains 10 s ≡ false → Lacks 10 s
literal s h = checked-Lacks 10 s h

field : (name : Text) (o : Option Text) → contains 10 name ≡ false → Lacks 10 (text_field name o)
field name o h = text_field-Lacks name o (checked-Lacks 10 name h)

event_json-IsLine : (e : Event) → IsLine (event_json e)
unfolding event_json contains ends_with
event_json-IsLine e =
    pieces-IsLine (fields_of e) (str "}")
      (
        literal (str "{\"seq\":") refl,
        (
          number-Lacks e.seq,
          (
            literal (str ",\"ts\":") refl,
            (
              number-Lacks e.ts,
              (
                literal (str ",\"level\":\"") refl,
                (
                  literal (level_str e.level) (level_str-Lacks e.level),
                  (
                    literal (str "\",\"action\":\"") refl,
                    (
                      literal (ev_action_str e.action) (ev_action_str-Lacks e.action),
                      (
                        literal (str "\",\"subject\":\"") refl,
                        (
                          literal (subject_str e.subject) (subject_str-Lacks e.subject),
                          (
                            literal (str "\"") refl,
                            (
                              field (str ",\"pkg\":\"") e.pkg refl,
                              (
                                field (str ",\"reason\":\"") e.reason refl,
                                (field (str ",\"msg\":\"") e.msg refl, tt),
                              ),
                            ),
                          ),
                        ),
                      ),
                    ),
                  ),
                ),
              ),
            ),
          ),
        ),
      )
      ((refl, tt), refl, refl)

-- The text that persist_new appends for a list of events, whatever their fields hold, splits into
-- lines that are the JSON texts of the events, one for each and in their order.
pub lines-jsonl : (es : List Event) → lines (jsonl es) ≡ map event_json es
unfolding jsonl
lines-jsonl [] = lines_nil
lines-jsonl (e ∷ es) =
    let l = event_json-IsLine e in
    line-append (event_json e) (jsonl es) l.0 l.1 ∙ ap (λ r. event_json e ∷ r) (lines-jsonl es)
