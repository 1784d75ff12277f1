-- ===== src/Base/Maps.antt =====
-- `HashMap` and `HashSet` as association lists. The order of the entries stands for the order in
-- which Rust iterates, which the program must not depend on; theorems use the laws below.
use mathlib.Core.Path.{◌≡◌, refl}
use mathlib.Core.Bool.{Bool, true}
use mathlib.Core.Option.{Option, none, some}
use mathlib.Core.List.{List, [], ◌∷◌, map}
use native.Mathlib.Omega.{arith}
use sundown.Base.Lists.{any}
use sundown.Base.Tests.{Eq, ◌==◌, if◌then◌else◌, is_some}

abbrev pub Map {ℓ κ} : Type ℓ → Type κ → Type (ℓ ⊔ κ)
Map K V = List (K × V)

-- HashMap::keys
abbrev pub keys {κ ℓ} : {K : Type κ} {V : Type ℓ} → Map K V → List K
keys m = map (λ x. x.0) m

module _ {κ ℓ} {K : Type κ} {V : Type ℓ} ⦃eq : Eq K⦄ where
  -- HashMap::get
  unfoldable pub get : K → Map K V → Option V
  get key [] = none
  get key ((other, val) ∷ rest) = if other == key then some val else get key rest

  -- HashMap::insert: the value of a key that is there is replaced
  unfoldable pub insert : K → V → Map K V → Map K V
  insert key val [] = (key, val) ∷ []
  insert key val ((other, old) ∷ rest) =
      let below = insert key val rest in
      if other == key then (key, val) ∷ rest else (other, old) ∷ below

  -- HashMap::remove
  unfoldable pub remove : K → Map K V → Map K V
  remove k [] = []
  remove k ((j, v) ∷ m) = let rest = remove k m in if j == k then rest else (j, v) ∷ rest

  -- HashMap::contains_key
  abbrev pub contains_key : K → Map K V → Bool
  contains_key k m = is_some (get k m)

  -- HashMap::retain, by a test on the value
  unfoldable pub retain : (V → Bool) → Map K V → Map K V
  retain p [] = []
  retain p ((j, v) ∷ m) = let rest = retain p m in if p v then (j, v) ∷ rest else rest

  pub get-empty : (j : K) → get j [] ≡ none
  unfolding get
  get-empty j = refl

  pub get-cons :
      (k j : K) (v : V) (m : Map K V) → get j ((k, v) ∷ m) ≡ (if k == j then some v else get j m)
  unfolding get
  get-cons k j v m = refl

  pub get-insert :
      (key j : K) (val : V) (m : Map K V)
      → get j (insert key val m) ≡ (if key == j then some val else get j m)
  unfolding get insert
  get-insert key j val [] = refl
  get-insert key j val ((other, old) ∷ m) =
      let below = get-insert key j val m in
      ground (arith, eq.same_iff key j, eq.same_iff other key, eq.same_iff other j, below)

  pub get-remove : (k j : K) (m : Map K V) → get j (remove k m) ≡ (if k == j then none else get j m)
  unfolding get remove
  get-remove k j [] = ground arith
  get-remove k j ((i, w) ∷ m) =
      ground (arith, eq.same_iff k j, eq.same_iff i k, eq.same_iff i j, get-remove k j m)

  pub any-keys : (k : K) (m : Map K V) → any (λ j. j == k) (keys m) ≡ contains_key k m
  unfolding get
  any-keys k [] = refl
  any-keys k ((j, v) ∷ m) = ground (arith, any-keys k m)

  -- An entry that is kept was there.
  pub contains_key-retain :
      (p : V → Bool) (j : K) (m : Map K V)
      → contains_key j (retain p m) ≡ true
      → contains_key j m ≡ true
  unfolding get retain
  contains_key-retain p j [] h = h
  contains_key-retain p j ((i, w) ∷ m) h = ground (arith, contains_key-retain p j m)
