-- ===== src/Engine/Change.antt =====
-- What the handlers of the engine may change in the tables, seen at one package, and the
-- invariant that follows.
use sundown.Base.{
  [], Bool, true, false, not, ◌&&◌, ◌||◌, ◌≡◌, ◌≤◌, some, arith, Text, contains_key, length,
  text_eq,
}
use sundown.Engine.State.{EngineState}
use sundown.Policy.{is_critical}

-- The step from `e` to `e'`, seen at the package `q`; `may` says that `q` may be added.
pub record Change (may : Bool) (q : Text) (e e' : EngineState) : Type 0 where
  pub focus : e'.last_focus ≡ e.last_focus
  pub short : length e.discarded ≤ 20 → length e'.discarded ≤ 20
  pub frozen :
      contains_key q e'.frozen ≡ true
      → (contains_key q e.frozen || (may && not (is_critical q))) ≡ true
  pub grace : contains_key q e'.grace ≡ true → (contains_key q e.grace || may) ≡ true

pub Change-refl : (may : Bool) (q : Text) (e : EngineState) → Change may q e e
Change-refl may q e = ground arith

pub Change-trans :
    {may : Bool} {q : Text} {a b c : EngineState}
    → Change may q a b
    → Change may q b c
    → Change may q a c
Change-trans h k = ground arith

pub Change-weaken :
    {q : Text} {a b : EngineState} (may : Bool) → Change false q a b → Change may q a b
Change-weaken may h = ground arith

-- The foreground package is neither frozen nor waiting to be, no critical package is frozen, and
-- the list of discarded packages is short.
pub record IsSafe (e : EngineState) : Type 0 where
  pub focus_thawed : (f : Text) → e.last_focus ≡ some f → contains_key f e.frozen ≡ false
  pub focus_active : (f : Text) → e.last_focus ≡ some f → contains_key f e.grace ≡ false
  pub critical_thawed : (q : Text) → is_critical q ≡ true → contains_key q e.frozen ≡ false
  pub short : length e.discarded ≤ 20

module _ {e e' : EngineState} (may : Text → Bool)
    (spares_focus : (f : Text) → e.last_focus ≡ some f → may f ≡ false)
    (change : (q : Text) → Change (may q) q e e') where
  -- A step that adds nothing at the foreground keeps the invariant.
  pub IsSafe-Change : IsSafe e → IsSafe e'
  IsSafe-Change h = record {
    focus_thawed = λ f p. ground (arith, change f, spares_focus f, h.focus_thawed f);
    focus_active = λ f p. ground (arith, change f, spares_focus f, h.focus_active f);
    critical_thawed = λ q p. ground (arith, change q, h.critical_thawed q);
    short = (change []).short h.short;
  }
