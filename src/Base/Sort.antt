-- ===== src/Base/Sort.antt =====
-- `sort_by` as insertion sort: both are stable, so they give the same list.
use mathlib.Core.Path.{◌≡◌, refl, subst}
use mathlib.Core.Logic.{◌≢◌, inl, inr}
use mathlib.Core.Bool.{Bool, true, false, ◌||◌}
use mathlib.Core.Option.{Option, none, some}
use mathlib.Core.List.{List, [], ◌∷◌}
use native.Mathlib.Omega.{arith}
use Prim.Native.Nat.{ℕ, ◌≤◌}
use sundown.Base.Tests.{leb, if◌then◌else◌, Bool-cases, some_inj}
use sundown.Base.Lists.{All, any}

module _ {ℓ} {A : Type ℓ} where
  -- `iter().next()` and `first()`
  abbrev pub head? : List A → Option A
  head? [] = none
  head? (x ∷ xs) = some x

  module _ (before : A → A → Bool) where
    unfoldable pub insert_sorted : A → List A → List A
    insert_sorted x [] = x ∷ []
    insert_sorted x (y ∷ ys) = if before y x then y ∷ insert_sorted x ys else x ∷ y ∷ ys

    unfoldable pub sort_by : List A → List A
    unfolding insert_sorted
    sort_by [] = []
    sort_by (x ∷ xs) = insert_sorted x (sort_by xs)

    pub All-insert_sorted {κ} :
        (P : A → Type κ) (x : A) (ys : List A) → P x → All P ys → All P (insert_sorted x ys)
    unfolding insert_sorted
    All-insert_sorted P x [] p h = (p, tt)
    All-insert_sorted P x (y ∷ ys) p h = elim (Bool-cases (before y x)) [
      | inl b ↦ rw b (h.0, All-insert_sorted P x ys p h.1)
      | inr b ↦ rw b (p, h)
    ]

    -- Sorting moves the elements, and adds none.
    pub All-sort_by {κ} : (P : A → Type κ) (xs : List A) → All P xs → All P (sort_by xs)
    unfolding sort_by
    All-sort_by P [] h = tt
    All-sort_by P (x ∷ xs) h = All-insert_sorted P x (sort_by xs) h.0 (All-sort_by P xs h.1)

    any-insert_sorted :
        (p : A → Bool) (x : A) (ys : List A) → any p (insert_sorted x ys) ≡ (p x || any p ys)
    unfolding insert_sorted
    any-insert_sorted p x [] = refl
    any-insert_sorted p x (y ∷ ys) = ground (arith, any-insert_sorted p x ys)

    pub any-sort_by : (p : A → Bool) (xs : List A) → any p (sort_by xs) ≡ any p xs
    unfolding sort_by
    any-sort_by p [] = refl
    any-sort_by p (x ∷ xs) = ground (arith, any-insert_sorted p x (sort_by xs), any-sort_by p xs)

    insert_sorted-ne-nil : (x : A) (ys : List A) → insert_sorted x ys ≢ []
    unfolding insert_sorted
    insert_sorted-ne-nil x [] = λ e. cc
    insert_sorted-ne-nil x (y ∷ ys) = ground arith

    -- `x` is not behind any element.
    abbrev pub IsFirst : A → List A → Type 0
    IsFirst x xs = All (λ y. before y x ≡ false) xs

    module _ (irrefl : (x : A) → before x x ≡ false)
        (trans : (x y z : A) → before y x ≡ false → before z y ≡ false → before z x ≡ false)
        (asym : (x y : A) → before y x ≡ true → before x y ≡ false) where
      IsFirst-trans : (x y : A) (ys : List A) → before y x ≡ false → IsFirst y ys → IsFirst x ys
      IsFirst-trans x y [] h f = tt
      IsFirst-trans x y (z ∷ zs) h f = (trans x y z h f.0, IsFirst-trans x y zs h f.1)

      -- The head of the insertion is first for what was first before, and for the new element.
      head?-insert_sorted :
          (x : A) (xs ys : List A)
          → ((y : A) → head? ys ≡ some y → IsFirst y xs)
          → (ys ≡ [] → xs ≡ [])
          → (y : A) → head? (insert_sorted x ys) ≡ some y
          → IsFirst y (x ∷ xs)
      unfolding insert_sorted
      head?-insert_sorted x xs [] first none_left y h =
          subst (λ t. IsFirst t (x ∷ xs)) (some_inj h) (rw (none_left refl) (irrefl x, tt))
      head?-insert_sorted x xs (z ∷ zs) first none_left y h = elim (Bool-cases (before z x)) [
        | inl b ↦ subst (λ t. IsFirst t (x ∷ xs)) (some_inj (rw b at h)) (asym x z b, first z refl)
        | inr b ↦
            subst (λ t. IsFirst t (x ∷ xs)) (some_inj (rw b at h))
              (irrefl x, IsFirst-trans x z xs b (first z refl))
      ]

      sort_by-eq-nil : (xs : List A) → sort_by xs ≡ [] → xs ≡ []
      unfolding sort_by
      sort_by-eq-nil [] h = refl
      sort_by-eq-nil (x ∷ xs) h = absurd (insert_sorted-ne-nil x (sort_by xs) h)

      -- What `sort_by` puts at the head has nothing that must come before it.
      pub head?-sort_by : (xs : List A) (x : A) → head? (sort_by xs) ≡ some x → IsFirst x xs
      unfolding sort_by
      head?-sort_by [] x h = tt
      head?-sort_by (y ∷ ys) x h =
          head?-insert_sorted y ys (sort_by ys) (λ z e. head?-sort_by ys z e) (sort_by-eq-nil ys) x
            h

-- Numbers in ascending order, none below `k`.
abbrev pub IsAscending : ℕ → List ℕ → Type 0
IsAscending k [] = Unit
IsAscending k (x ∷ xs) = (k ≤ x) × IsAscending x xs

insert_sorted-IsAscending :
    (k x : ℕ) (ys : List ℕ) → k ≤ x → IsAscending k ys → IsAscending k (insert_sorted leb x ys)
unfolding insert_sorted
insert_sorted-IsAscending k x [] h s = (h, tt)
insert_sorted-IsAscending k x (y ∷ ys) h s = elim (Bool-cases (leb y x)) [
  | inl b ↦ rw b (s.0, insert_sorted-IsAscending y x ys (ground (arith, b)) s.1)
  | inr b ↦ rw b (h, (ground (arith, b), s.1))
]

pub sort_by-IsAscending : (xs : List ℕ) → IsAscending 0 (sort_by leb xs)
unfolding sort_by
sort_by-IsAscending [] = tt
sort_by-IsAscending (x ∷ xs) =
    insert_sorted-IsAscending 0 x (sort_by leb xs) (omega arith) (sort_by-IsAscending xs)
