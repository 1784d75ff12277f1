-- ===== src/Rules/Laws.antt =====
-- What a match of the rule table promises: the rule with the highest priority, the earliest among
-- equals; the throttle; the day of expiry.
use sundown.Base.{
  ℕ, zero, suc, ap, ◌≢◌, ◌+◌, ◌-◌, ◌<◌, Bool, true, false, ◌≡◌, refl, arith, Option, none, some,
  List, [], ◌∷◌, Text, All-imp, All-filterb, All-kept, All-sort_by, some_inj, ◌≤◌, get-insert,
  text_eq, text_beq_iff, filterb, head?, sort_by, head?-sort_by, All, ◌≤ℤ◌, Instant, from_secs,
}
use mathlib.Core.Path.{subst}
use sundown.Rules.{
  RuleCondition, Rule, RuleTable, Date, hit, update_at, matches, enumerate, before, find_index,
  note_hit, date_ge,
}

-- the rule at a place
abbrev pub rule_at : ℕ → List Rule → Option Rule
rule_at i [] = none
rule_at zero (r ∷ rs) = some r
rule_at (suc i) (r ∷ rs) = rule_at i rs

-- The order of the matches: it is a strict order on (place, rule).
before_irrefl : (x : ℕ × Rule) → before x x ≡ false
before_irrefl (i, r) = ground arith

before_trans : (x y z : ℕ × Rule) → before y x ≡ false → before z y ≡ false → before z x ≡ false
before_trans (i, r) (j, s) (k, t) h g = ground arith

before-asym : (x y : ℕ × Rule) → before y x ≡ true → before x y ≡ false
before-asym (i, r) (j, s) h = ground arith

rule_at_shift :
    (i j : ℕ) (r s : Rule) (rs : List Rule)
    → i + 1 ≤ j
    → rule_at (j - (i + 1)) rs ≡ some s
    → rule_at (j - i) (r ∷ rs) ≡ some s
rule_at_shift i j r s rs h k = let e : j - i ≡ suc (j - (i + 1)) = omega arith in rw e k

-- Each rule stands at the place that it is numbered with.
enumerate_places :
    (i : ℕ) (rs : List Rule)
    → All (λ e. (i ≤ e.0) × (rule_at (e.0 - i) rs ≡ some e.1)) (enumerate i rs)
enumerate_places i [] = tt
enumerate_places i (r ∷ rs) = (
  (omega arith, let e : i - i ≡ 0 = omega arith in rw e refl),
  All-imp (λ e h. (omega (arith, h.0), rule_at_shift i e.0 r e.1 rs h.0 h.1)) (enumerate (i + 1) rs)
      (enumerate_places (i + 1) rs),
)

All-head :
    (P : ℕ × Rule → Type 0) (x : ℕ × Rule) (l : List (ℕ × Rule)) → All P l → head? l ≡ some x → P x
All-head P x [] h e = ground arith
All-head P x (y ∷ l) h e = subst P (some_inj e) h.0

-- `y` has a lower priority than `x`, or the same one and no earlier place.
abbrev pub IsBehind : ℕ × Rule → ℕ × Rule → Type 0
IsBehind x y = (y.1.priority ≤ℤ x.1.priority) × (x.1.priority ≤ℤ y.1.priority → x.0 ≤ y.0)

before-IsBehind : (x y : ℕ × Rule) → before y x ≡ false → IsBehind x y
before-IsBehind (i, r) (j, s) h = (ground arith, ground arith)

-- The rule that a match finds stands at its place in the table and matches, and every rule that
-- matches has a lower priority, or the same one and no earlier place.
pub find_index_first :
    (t : RuleTable) (pkg : Text) (c : RuleCondition) (source : Option Text) (today : Option Date)
    (now : Instant) (x : ℕ × Rule)
    → find_index t pkg c source today now ≡ some x
    → (rule_at x.0 t.rules ≡ some x.1)
      × (matches x.1 pkg c source today now ≡ true)
      × All
          (λ y. IsBehind x y)
          (filterb (λ y. matches y.1 pkg c source today now) (enumerate 0 t.rules))
unfolding find_index
find_index_first t pkg c source today now x h =
    let test : ℕ × Rule → Bool = λ e. matches e.1 pkg c source today now in
    let all = enumerate 0 t.rules in
    let chosen = filterb test all in
    let zero_less : x.0 - 0 ≡ x.0 = omega arith in
    (
      rw zero_less at
          (All-head _ x (sort_by before chosen)
            (All-sort_by before _ chosen (All-filterb _ test all (enumerate_places 0 t.rules)))
            h).1,
      All-head _ x (sort_by before chosen) (All-sort_by before _ chosen (All-kept test all)) h,
      All-imp (λ y k. before-IsBehind x y k) chosen
          (head?-sort_by before before_irrefl before_trans before-asym chosen x h),
    )

-- A rule with an expiry date does not match on that date or later.
pub expires_on_day :
    (r : Rule) (pkg : Text) (c : RuleCondition) (source : Option Text) (exp today : Date)
    (now : Instant)
    → r.expires_at ≡ some exp
    → date_ge today exp ≡ true
    → matches r pkg c source (some today) now ≡ false
unfolding matches
expires_on_day r pkg c source exp today now h k = ground arith

-- A rule that is hit for a package does not match that package again inside its throttle.
pub note_hit_throttles :
    (r : Rule) (pkg : Text) (c : RuleCondition) (source : Option Text) (today : Option Date)
    (at now : Instant)
    → 0 < r.throttle_seconds
    → now < at + from_secs r.throttle_seconds
    → matches (note_hit pkg at r) pkg c source today now ≡ false
unfolding matches
note_hit_throttles r pkg c source today at now h k =
    ground (arith, get-insert pkg pkg at r.last_hit, text_beq_iff pkg pkg)

rule_at-update_at :
    (i : ℕ) (f : Rule → Rule) (r : Rule) (rs : List Rule)
    → rule_at i rs ≡ some r
    → rule_at i (update_at i f rs) ≡ some (f r)
rule_at-update_at i f r [] h = ground arith
rule_at-update_at zero f r (s ∷ rs) h = ap (λ x. some (f x)) (some_inj h)
rule_at-update_at (suc i) f r (s ∷ rs) h = rule_at-update_at i f r rs h

hit_found :
    (t : RuleTable) (pkg : Text) (c : RuleCondition) (source : Option Text) (today : Option Date)
    (at : Instant) (x : ℕ × Rule)
    → find_index t pkg c source today at ≡ some x
    → (hit t pkg c source today at).1.rules ≡ update_at x.0 (note_hit pkg at) t.rules
unfolding hit
hit_found t pkg c source today at x h = rw (hit, h) refl

-- A rule with a throttle that was hit for a package is not the one that is found for that package
-- inside the throttle, whatever the condition, source and date of the later event.
pub hit_throttles :
    (t : RuleTable) (pkg : Text) (c c' : RuleCondition) (source source' : Option Text)
    (today today' : Option Date) (at now : Instant) (x y : ℕ × Rule)
    → find_index t pkg c source today at ≡ some x
    → 0 < x.1.throttle_seconds
    → now < at + from_secs x.1.throttle_seconds
    → find_index (hit t pkg c source today at).1 pkg c' source' today' now ≡ some y
    → y.0 ≢ x.0
hit_throttles t pkg c c' source source' today today' at now x y found throttle soon later same =
    let t' = (hit t pkg c source today at).1 in
    let first = find_index_first t pkg c source today at x found in
    let second = find_index_first t' pkg c' source' today' now y later in
    let place = rule_at-update_at x.0 (note_hit pkg at) x.1 t.rules first.0 in
    let held = second.0 in
    let matched = second.1 in
    let rules = hit_found t pkg c source today at x found in
    let quiet = note_hit_throttles x.1 pkg c' source' today' at now throttle soon in
    let noted : some y.1 ≡ some (note_hit pkg at x.1) = cc in let noted_inj = some_inj noted in cc
