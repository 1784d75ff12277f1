-- ===== src/Rules/Parse.antt =====
-- The reading of rules.toml in daemon/src/rules.rs: `RuleTable::from_toml`. The keys of one id are
-- collected in one rule, and a rule whose action is never set is dropped at the end.
use sundown.Base.{
  ℕ, true, false, ◌||◌, Option, none, some, List, [], ◌∷◌, Text, str, ◌==◌, text_eq, nat_eq, any,
  filterb, concat_elem, is_empty, strip_prefix, join, split, trim, parse_u32, ltb, unwrap_or, ℤ,
  pos, pos_part, if◌then◌else◌,
}
use sundown.Rules.{RuleCondition, RuleAction, Rule, RuleTable, Date, parse_condition, parse_action}
use sundown.Toml.{TomlEntry, TomlValue, Parsed, parse}

-- parse_date: 45 is a hyphen
abbrev date_of : Option ℕ → Option ℕ → Option ℕ → Option Date
date_of (some y) (some m) (some d) =
    if ltb m 1 || ltb 12 m || ltb d 1 || ltb 31 d then none else some (y, m, d)
date_of _ _ _ = none

abbrev date_parts : List Text → Option Date
date_parts (a ∷ b ∷ c ∷ []) = date_of (parse_u32 a) (parse_u32 b) (parse_u32 c)
date_parts _ = none

unfoldable pub parse_date : Text → Option Date
parse_date s = date_parts (split 45 (trim s))

-- str_of, int_of, str_array_of
abbrev str_of : TomlValue → Option Text
str_of (TomlValue.string s) = some s
str_of _ = none

abbrev int_of : TomlValue → ℤ
int_of (TomlValue.int n) = n
int_of _ = pos 0

abbrev str_array_of : TomlValue → List Text
str_array_of (TomlValue.str_array ss) = ss
str_array_of _ = []

abbrev and_then {ℓ κ} : {A : Type ℓ} {B : Type κ} → (A → Option B) → Option A → Option B
and_then f none = none
and_then f (some x) = f x

abbrev keep_source : Text → Option Text
keep_source s =
    if s == str "broadcast" || s == str "service" || s == str "pendingintent" then some s else none

abbrev set_action : Option RuleAction → Rule → Rule
set_action none r = r
set_action (some a) r = record r { action = a; action_set = true }

unfoldable pub set_rule_key : Text → TomlValue → Rule → Rule
unfolding parse_date
set_rule_key k v r =
    if k == str "priority"
    then record r { priority = int_of v }
    else if k == str "applies_to"
    then record r { applies_to = str_array_of v }
    else if k == str "condition"
    then record r { condition = unwrap_or (and_then parse_condition (str_of v)) r.condition }
    else if k == str "source"
    then record r {
      source = elim (and_then keep_source (str_of v)) [ none ↦ r.source | some s ↦ some s ];
    }
    else if k == str "action"
    then set_action (and_then parse_action (str_of v)) r
    else if k == str "throttle"
    then record r { throttle_seconds = pos_part (int_of v) }
    else if k == str "after_seconds"
    then record r { after_seconds = some (pos_part (int_of v)) }
    else if k == str "expires_at"
    then record r {
      expires_at = elim (and_then parse_date (str_of v)) [ none ↦ r.expires_at | some d ↦ some d ];
    }
    else r

-- the rule that a new id starts with
abbrev pub blank_rule : Text → Rule
blank_rule id = record {
  id = id;
  priority = pos 0;
  applies_to = [];
  condition = RuleCondition.always;
  source = none;
  action = RuleAction.suppress;
  throttle_seconds = 0;
  after_seconds = none;
  expires_at = none;
  last_hit = [];
  action_set = false;
}

-- `iter_mut().find(|r| r.id == id)`
unfoldable pub update_id : Text → (Rule → Rule) → List Rule → List Rule
update_id id f [] = []
update_id id f (r ∷ rs) = let rest = update_id id f rs in if r.id == id then f r ∷ rs else r ∷ rest

abbrev with_id : Text → List Rule → List Rule
with_id id rs = if any (λ r. r.id == id) rs then rs else concat_elem rs (blank_rule id)

unfoldable pub add_key : Option Text → TomlEntry → List Rule → List Rule
unfolding update_id set_rule_key
add_key none e rs = rs
add_key (some id) e rs =
    if is_empty id then rs else update_id id (set_rule_key e.key e.value) (with_id id rs)

unfoldable pub add_entries : List TomlEntry → List Rule → List Rule
unfolding add_key
add_entries [] rs = rs
add_entries (e ∷ es) rs =
    add_entries es (add_key (strip_prefix (str "rules.") (join (str ".") e.table)) e rs)

abbrev built : ℕ → Parsed (List TomlEntry) → Parsed RuleTable
built revision (Parsed.refused n f) = Parsed.refused n f
built revision (Parsed.ok es) = Parsed.ok (record {
  rules = filterb (λ r. r.action_set) (add_entries es []);
  revision = revision;
  hits = 0;
})

-- RuleTable::from_toml
unfoldable pub rules_from_toml : Text → ℕ → Parsed RuleTable
unfolding add_entries
rules_from_toml src revision = built revision (parse src)
