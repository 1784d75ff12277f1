-- ===== src/Profile/Laws.antt =====
-- The order of `top_wakeups`.
use sundown.Base.{
  ℕ, zero, suc, ◌≤◌, min, true, false, ◌≡◌, refl, arith, [], ◌∷◌, Text, All, All-imp, All-sort_by,
  All-insert_sorted, insert_sorted, sort_by, length, Bool-cases, inl, inr, nat_eq, ap,
}
use sundown.Profile.{AppProfile, ProfileTable, wakes_before, truncate, top_wakeups}

abbrev Entry : Type 0
Entry = Text × AppProfile

-- no entry has more wakeups than one in front of it
abbrev pub IsDescending : ProfileTable → Type 0
IsDescending [] = Unit
IsDescending (x ∷ v) = All (λ (y : Entry). y.1.wakeup_count ≤ x.1.wakeup_count) v × IsDescending v

wakes_before-le : (a b : Entry) → wakes_before a b ≡ true → b.1.wakeup_count ≤ a.1.wakeup_count
wakes_before-le a b h = ground (arith, h)

not-wakes_before-le : (a b : Entry) → wakes_before a b ≡ false → a.1.wakeup_count ≤ b.1.wakeup_count
not-wakes_before-le a b h = ground (arith, h)

IsDescending-insert_sorted :
    (x : Entry) (v : ProfileTable) → IsDescending v → IsDescending (insert_sorted wakes_before x v)
unfolding insert_sorted
IsDescending-insert_sorted x [] d = (tt, tt)
IsDescending-insert_sorted x (y ∷ v) d = elim (Bool-cases (wakes_before y x)) [
  | inl b ↦ rw b (
    All-insert_sorted wakes_before (λ (z : Entry). z.1.wakeup_count ≤ y.1.wakeup_count) x v
        (wakes_before-le y x b) d.0,
    IsDescending-insert_sorted x v d.1,
  )
  | inr b ↦
      let h = not-wakes_before-le y x b in
      rw b ((h, All-imp (λ z le. omega (arith, le, h)) v d.0), d)
]

IsDescending-sort_by : (t : ProfileTable) → IsDescending (sort_by wakes_before t)
unfolding sort_by
IsDescending-sort_by [] = tt
IsDescending-sort_by (x ∷ t) =
    IsDescending-insert_sorted x (sort_by wakes_before t) (IsDescending-sort_by t)

All-truncate : (P : Entry → Type 0) (n : ℕ) (v : ProfileTable) → All P v → All P (truncate n v)
All-truncate P zero v h = tt
All-truncate P (suc n) [] h = tt
All-truncate P (suc n) (x ∷ v) h = (h.0, All-truncate P n v h.1)

IsDescending-truncate : (n : ℕ) (v : ProfileTable) → IsDescending v → IsDescending (truncate n v)
IsDescending-truncate zero v d = tt
IsDescending-truncate (suc n) [] d = tt
IsDescending-truncate (suc n) (x ∷ v) d = (
  All-truncate (λ (y : Entry). y.1.wakeup_count ≤ x.1.wakeup_count) n v d.0,
  IsDescending-truncate n v d.1,
)

length-truncate : (n : ℕ) (v : ProfileTable) → length (truncate n v) ≡ min n (length v)
length-truncate zero v = ground arith
length-truncate (suc n) [] = ground arith
length-truncate (suc n) (x ∷ v) = ground (arith, length-truncate n v)

length-insert_sorted :
    (x : Entry) (v : ProfileTable) → length (insert_sorted wakes_before x v) ≡ suc (length v)
unfolding insert_sorted
length-insert_sorted x [] = refl
length-insert_sorted x (y ∷ v) = elim (Bool-cases (wakes_before y x)) [
  | inl b ↦ rw b (ap suc (length-insert_sorted x v))
  | inr b ↦ rw b refl
]

length-sort_by : (t : ProfileTable) → length (sort_by wakes_before t) ≡ length t
unfolding sort_by
length-sort_by [] = refl
length-sort_by (x ∷ t) =
    rw (length-insert_sorted x (sort_by wakes_before t)) (ap suc (length-sort_by t))

-- The packages that wake most are listed in descending order of their wakeups, as many as asked
-- for or as there are, and what holds for every entry of the table holds for each of them.
pub top_wakeups_lem :
    (n : ℕ) (t : ProfileTable) (P : Entry → Type 0)
    → All P t
    → IsDescending (top_wakeups n t)
      × (length (top_wakeups n t) ≡ min n (length t))
      × All P (top_wakeups n t)
unfolding top_wakeups
top_wakeups_lem n t P h = (
  IsDescending-truncate n (sort_by wakes_before t) (IsDescending-sort_by t),
  rw (length-truncate n (sort_by wakes_before t), length-sort_by t) refl,
  All-truncate P n (sort_by wakes_before t) (All-sort_by wakes_before P t h),
)
