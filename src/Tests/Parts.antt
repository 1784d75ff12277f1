-- ===== src/Tests/Parts.antt =====
-- The theorems about the sampler, the rules, the events, the policy and the parser, applied to
-- small inputs.
use sundown.Base.{
  ◌≤◌, ◌<◌, true, false, ◌≡◌, refl, arith, none, some, [], ◌∷◌, str, get, nat_eq, text_eq, text_beq,
  All, length, lines, split, split_once, drop_last, ends_with, trim, trim_start, trim_end, count,
  sort_by, filterb,
}
use sundown.Events.{Event, EvLevel, EvAction, EvSubject, empty_events, push, unflushed, persist_new}
use sundown.Events.Laws.{
  IsBuffer, empty_events-IsBuffer, push-IsBuffer, PersistOutcome, persist_new_lem,
}
use sundown.Events.Json.{event_json, jsonl}
use sundown.Events.Json.Lines.{lines-jsonl}
use sundown.Network.Laws.{sampled, close_samples_inactive}
use sundown.Profile.{ProfileTable, new_profile}
use sundown.Rules
use sundown.Rules.{RuleCondition, Rule, RuleTable, find_index, hit, matches, note_hit, enumerate}
use sundown.Rules.Laws.{IsBehind, rule_at, find_index_first}
use sundown.Tests.{game, quiet_rule, quiet_rules}
use sundown.Toml.{
  Parsed, Fault, TomlValue, parse, parse_value, read_lines, step, strip_comment, read_line,
  read_assignment, read_value, split_table_header,
}
use sundown.Toml.Faults.{parse_fault_line}
use sundown.Toml.Headers.{Splits, split_table_header-Splits}
use sundown.Toml.Strings.{quoted, parse_value-quoted}

close_samples_inactive_example :
    All (λ b. b ≡ false) (sampled [] 7 30 ((100, 5) ∷ (900, 8) ∷ (5000, 11) ∷ []))
unfolding get
close_samples_inactive_example =
    close_samples_inactive [] 7 30 100 5 ((900, 8) ∷ (5000, 11) ∷ []) refl
      (omega arith, (omega arith, tt))

find_index_first_example :
    (rule_at 0 quiet_rules.rules ≡ some quiet_rule)
    × (matches quiet_rule game Rules.wakeup none none 9 ≡ true)
    × All
        (λ y. IsBehind (0, quiet_rule) y)
        (filterb (λ y. matches y.1 game Rules.wakeup none none 9) (enumerate 0 quiet_rules.rules))
unfolding find_index matches get text_beq sort_by
find_index_first_example =
    find_index_first quiet_rules game Rules.wakeup none none 9 (0, quiet_rule) refl

abbrev started : Event
started = record {
  seq = 0;
  ts = 3;
  level = EvLevel.report;
  action = EvAction.system;
  subject = EvSubject.sys;
  pkg = none;
  reason = none;
  msg = none;
}

push-IsBuffer_example : IsBuffer (push empty_events started)
push-IsBuffer_example = push-IsBuffer empty_events started empty_events-IsBuffer

persist_new_lem_example :
    let r = persist_new (push empty_events started) true in
    (r.1 ≡ unflushed (push empty_events started))
    × PersistOutcome true (push empty_events started) r
    × IsBuffer r.2
persist_new_lem_example =
    persist_new_lem (push empty_events started) true
      (push-IsBuffer empty_events started empty_events-IsBuffer)

parse_value-quoted_example :
    parse_value (quoted (str "a\"b")) 4 ≡ Parsed.ok (TomlValue.string (str "a\"b"))
parse_value-quoted_example = parse_value-quoted (str "a\"b") 4

parse_fault_line_example : (0 < 2) × (2 ≤ length (lines (str "[general]\nenabled")))
unfolding parse read_lines step strip_comment read_line read_assignment read_value lines split
    split_once drop_last ends_with trim trim_start trim_end count
parse_fault_line_example = parse_fault_line (str "[general]\nenabled") 2 Fault.missing_equals refl

abbrev waking : ProfileTable
waking =
    (str "chat", record new_profile { wakeup_count = 3 })
    ∷ (game, record new_profile { wakeup_count = 8 })
    ∷ []

abbrev opened : Event
opened = record started { pkg = some game; msg = some (str "a\"b\nc") }

lines-jsonl_example :
    lines (jsonl (opened ∷ opened ∷ [])) ≡ event_json opened ∷ event_json opened ∷ []
lines-jsonl_example = lines-jsonl (opened ∷ opened ∷ [])

split_table_header-Splits_example :
    Splits (str "apps.\"a.b\"") (split_table_header (str "apps.\"a.b\""))
split_table_header-Splits_example = split_table_header-Splits (str "apps.\"a.b\"")
