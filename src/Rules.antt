-- ===== src/Rules.antt =====
-- The rule engine of daemon/src/rules.rs: rules, their table, and matching with throttling.
-- The local date (`today_ymd`, a libc call) is an argument.
pub mod Parse
pub mod Laws
use sundown.Base.{
  ℕ, zero, suc, ◌+◌, ◌-◌, Bool, true, false, not, ◌&&◌, ◌||◌, Option, none, some, List, [], ◌∷◌,
  Text, str, Map, get, insert, ◌==◌, nat_eq, text_eq, any, is_empty, filterb, head?, sort_by,
  text_le, map, ltb, leb, ℤ, ltb_ℤ, Instant, from_secs, if◌then◌else◌,
}

pub data RuleCondition : Type 0 where
  always leave wakeup focus : RuleCondition

-- RuleCondition::parse
unfoldable pub parse_condition : Text → Option RuleCondition
parse_condition s =
    if s == str "always"
    then some always
    else if s == str "leave"
    then some leave
    else if s == str "wakeup"
    then some wakeup
    else if s == str "focus"
    then some focus
    else none

-- RuleCondition::as_str
unfoldable pub condition_str : RuleCondition → Text
condition_str always = str "always"
condition_str leave = str "leave"
condition_str wakeup = str "wakeup"
condition_str focus = str "focus"

-- the derived `==`
abbrev pub same_condition : RuleCondition → RuleCondition → Bool
same_condition always always = true
same_condition leave leave = true
same_condition wakeup wakeup = true
same_condition focus focus = true
same_condition _ _ = false

pub data RuleAction : Type 0 where
  suppress exempt freeze discard : RuleAction

-- RuleAction::parse
unfoldable pub parse_action : Text → Option RuleAction
parse_action s =
    if s == str "suppress"
    then some suppress
    else if s == str "exempt"
    then some exempt
    else if s == str "freeze"
    then some freeze
    else if s == str "discard"
    then some discard
    else none

-- RuleAction::as_str
unfoldable pub action_str : RuleAction → Text
action_str suppress = str "suppress"
action_str exempt = str "exempt"
action_str freeze = str "freeze"
action_str discard = str "discard"

-- (year, month, day)
abbrev pub Date : Type 0
Date = ℕ × ℕ × ℕ

pub record Rule : Type 0 where
  pub id : Text
  pub priority : ℤ
  pub applies_to : List Text
  pub condition : RuleCondition
  pub source : Option Text
  pub action : RuleAction
  pub throttle_seconds : ℕ
  pub after_seconds : Option ℕ
  pub expires_at : Option Date
  pub last_hit : Map Text Instant
  pub action_set : Bool

pub record RuleHit : Type 0 where
  pub id : Text
  pub action : RuleAction
  pub after_seconds : Option ℕ

pub record RuleTable : Type 0 where
  pub rules : List Rule
  pub revision : ℕ
  pub hits : ℕ

abbrev pub empty_rules : RuleTable
empty_rules = record { rules = []; revision = 0; hits = 0 }

-- `a >= b` on tuples is lexicographic
abbrev pub date_ge : Date → Date → Bool
date_ge (y, m, d) (y', m', d') = ltb y' y || (y == y' && (ltb m' m || (m == m' && leb d' d)))

-- the four guards of `Rule::matches`
abbrev pub applies : Rule → Text → Bool
applies r pkg = is_empty r.applies_to || any (λ p. p == str "*" || p == pkg) r.applies_to

abbrev pub condition_fits : Rule → RuleCondition → Bool
condition_fits r cond = same_condition r.condition always || same_condition r.condition cond

abbrev source_is : Text → Option Text → Bool
source_is s none = false
source_is s (some t) = s == t

abbrev pub source_fits : Rule → Option Text → Bool
source_fits r source = elim r.source [ none ↦ true | some s ↦ source_is s source ]

abbrev date_reached : Option Date → Date → Bool
date_reached none exp = false
date_reached (some today) exp = date_ge today exp

abbrev pub expired : Rule → Option Date → Bool
expired r today = elim r.expires_at [ none ↦ false | some exp ↦ date_reached today exp ]

abbrev hit_recently : Option Instant → ℕ → Instant → Bool
hit_recently none throttle now = false
hit_recently (some last) throttle now = ltb (now - last) (from_secs throttle)

abbrev pub throttled : Rule → Text → Instant → Bool
throttled r pkg now =
    ltb 0 r.throttle_seconds && hit_recently (get pkg r.last_hit) r.throttle_seconds now

-- Rule::matches
unfoldable pub matches : Rule → Text → RuleCondition → Option Text → Option Date → Instant → Bool
matches r pkg cond source today now =
    if not (applies r pkg)
    then false
    else if not (condition_fits r cond)
    then false
    else if not (source_fits r source)
    then false
    else if expired r today
    then false
    else not (throttled r pkg now)

-- `(0..self.rules.len())` with the rules
abbrev pub enumerate : ℕ → List Rule → List (ℕ × Rule)
enumerate i [] = []
enumerate i (r ∷ rs) = (i, r) ∷ enumerate (i + 1) rs

-- the order of `sort_by`: priority down, then index up
abbrev pub before : ℕ × Rule → ℕ × Rule → Bool
before (i, r) (j, s) = ltb_ℤ s.priority r.priority || (not (ltb_ℤ r.priority s.priority) && ltb i j)

-- RuleTable::find_index, with the rule that stands there
unfoldable pub find_index :
    RuleTable → Text → RuleCondition → Option Text → Option Date → Instant → Option (ℕ × Rule)
find_index t pkg cond source today now =
    head?
      (sort_by before (filterb (λ e. matches e.1 pkg cond source today now) (enumerate 0 t.rules)))

abbrev pub snapshot : Rule → RuleHit
snapshot r = record { id = r.id; action = r.action; after_seconds = r.after_seconds }

-- RuleTable::peek
unfoldable pub peek :
    RuleTable → Text → RuleCondition → Option Text → Option Date → Instant → Option RuleHit
peek t pkg cond source today now = elim (find_index t pkg cond source today now) [
  | none ↦ none
  | some (i, r) ↦ some (snapshot r)
]

abbrev pub note_hit : Text → Instant → Rule → Rule
note_hit pkg now r =
    if ltb 0 r.throttle_seconds then record r { last_hit = insert pkg now r.last_hit } else r

abbrev pub update_at : ℕ → (Rule → Rule) → List Rule → List Rule
update_at i f [] = []
update_at zero f (r ∷ rs) = f r ∷ rs
update_at (suc i) f (r ∷ rs) = r ∷ update_at i f rs

-- RuleTable::hit
unfoldable pub hit :
    RuleTable
    → Text
    → RuleCondition
    → Option Text
    → Option Date
    → Instant
    → Option RuleHit × RuleTable
hit t pkg cond source today now = elim (find_index t pkg cond source today now) [
  | none ↦ (none, t)
  | some (i, r) ↦ (
    some (snapshot r),
    record t { rules = update_at i (note_hit pkg now) t.rules; hits = t.hits + 1 },
  )
]

-- RuleTable::ids
unfoldable pub ids : RuleTable → List Text
ids t = sort_by text_le (map (λ r. r.id) t.rules)
