-- ===== src/Freezer/Push/Paths.antt =====
-- The paths of the entries of a uid, told apart; and that OOM protection stays out of the tree.
use sundown.Base.{
  ℕ, ◌≡◌, refl, sym, ap, ◌∙◌, arith, Bool, true, false, Option, none, some, List, [], ◌∷◌, ◌++◌,
  Text, str, ◌==◌, nat_eq, text_eq, text_beq_iff, length, length-append, strip_suffix,
  strip_suffix-append, strip_prefix, strip_prefix-append, some_inj, Bool-cases, inl, inr, ℤ,
}
use sundown.Freezer.{Os, Fz, freeze_file, under}
use sundown.Freezer.Cgroup.{
  CgroupLaws, SameTree, SameTree-trans, write_oom_adj-SameTree, false-ne-true,
}
use sundown.Freezer.Oom.{
  protect_each, protect_pid, protect_found, locked, read_oom_adj, write_oom_adj, oom_protect,
  same_int,
}

freeze_file_inj : (a b : Text) → freeze_file a ≡ freeze_file b → a ≡ b
unfolding freeze_file under
freeze_file_inj a b h =
    let cut = λ (d : Text). strip_suffix-append (str "/cgroup.freeze") d in
    some_inj (sym (cut a) ∙ ap (strip_suffix (str "/cgroup.freeze")) h ∙ cut b)

under_inj : (d a b : Text) → under d a ≡ under d b → a ≡ b
unfolding under
under_inj d a b h =
    let cut = λ (n : Text). strip_prefix-append d (str "/" ++ n) in
    let e : (str "/" ++ a) ≡ (str "/" ++ b) =
      some_inj (sym (cut a) ∙ ap (strip_prefix d) h ∙ cut b) in
    some_inj (
      sym (strip_prefix-append (str "/") a)
      ∙ ap (strip_prefix (str "/")) e
      ∙ strip_prefix-append (str "/") b)

under-longer : (d a : Text) → under d a ≡ d → false ≡ true
unfolding under
under-longer d a h =
    let n : length (under d a) ≡ length d = ap length h in
    absurd (omega (arith, n, length-append d (str "/" ++ a)))

pub different : (a b : Text) → (a ≡ b → false ≡ true) → (a == b) ≡ false
different a b f = elim (Bool-cases (a == b)) [
  | inr d ↦ d
  | inl y ↦ absurd (false-ne-true (f ((text_beq_iff a b).0 y)))
]

pub entries-differ :
    (d n name : Text)
    → (n == name) ≡ false
    → (freeze_file (under d n) == freeze_file (under d name)) ≡ false
entries-differ d n name h = different (freeze_file (under d n)) (freeze_file (under d name)) (λ e.
    let same = under_inj d n name (freeze_file_inj (under d n) (under d name) e) in
    sym h ∙ (text_beq_iff n name).1 same)

pub entry-uid-differ : (d n : Text) → (freeze_file (under d n) == freeze_file d) ≡ false
entry-uid-differ d n =
    different (freeze_file (under d n)) (freeze_file d)
      (λ e. under-longer d n (freeze_file_inj (under d n) d e))

module _ (os : Os) (laws : CgroupLaws os) where
  open os use {World}

  locked-SameTree :
      (a : ℕ) (x : ℤ) (r : Bool × World) (st : Fz World)
      → SameTree os st.world r.1
      → SameTree os st.world (locked os a x r st).1.world
  locked-SameTree a x (false, w) st h = h
  locked-SameTree a x (true, w) st h = h

  protect_found-SameTree :
      (a : ℕ) (o : Option ℤ) (st : Fz World)
      → SameTree os st.world (protect_found os a o st).1.world
  unfolding protect_found
  protect_found-SameTree a none st = (λ d l. refl, λ u. refl)
  protect_found-SameTree a (some x) st = elim (Bool-cases (same_int x oom_protect)) [
    | inl b ↦ rw b (λ d l. refl, λ u. refl)
    | inr b ↦ rw b (
        locked-SameTree a x (write_oom_adj os a oom_protect st.world) st
          (write_oom_adj-SameTree os laws a oom_protect st.world))
  ]

  pub protect_each-SameTree :
      (pids : List ℕ) (st : Fz World) → SameTree os st.world (protect_each os pids st).1.world
  unfolding protect_each protect_pid
  protect_each-SameTree [] st = (λ d l. refl, λ u. refl)
  protect_each-SameTree (a ∷ pids) st =
      let st1 = (protect_pid os a st).1 in
      SameTree-trans os st.world st1.world (protect_each os pids st1).1.world
        (protect_found-SameTree a (read_oom_adj os a st.world) st) (protect_each-SameTree pids st1)
