-- ===== src/Freezer/Oom/Scores.antt =====
-- The files of the scores: the name of each gives its process, so that different processes have
-- different files.
use sundown.Base.{
  ℕ, ◌≡◌, refl, sym, ◌∙◌, ap, arith, true, false, Option, none, some, is_some, ◌∷◌, ◌++◌, Text, str,
  ◌==◌, nat_eq, text_eq, text_beq_iff, nat_beq_iff, ℤ, Bool-cases, inl, inr, show_nat,
  number-show_nat, number, some_inj, drop, All-imp, split_once, split_once-append, show_nat-digits,
  IsDigit,
}
use sundown.Freezer.{Os, under, proc_file}
use sundown.Freezer.Cgroup.{ScoreLaws, false-ne-true}
use sundown.Freezer.Oom.{adj_file, read_oom_adj, write_oom_adj, parsed_adj, oom_protect, IsScore}
use sundown.Freezer.Oom.Numbers.{parsed_adj-written}

-- the path of a score names its process
show_nat_inj : (a b : ℕ) → show_nat a ≡ show_nat b → a ≡ b
show_nat_inj a b h = some_inj (sym (number-show_nat a) ∙ ap number h ∙ number-show_nat b)

digit-no_slash : (c : ℕ) → IsDigit c → (c == 47) ≡ false
digit-no_slash c d = ground (arith, d)

behind_proc : ℕ → Text
behind_proc pid = show_nat pid ++ (47 ∷ str "oom_score_adj")

adj_file-eq : (pid : ℕ) → drop 6 (adj_file pid) ≡ behind_proc pid
unfolding behind_proc proc_file under
adj_file-eq pid = refl

behind_proc_inj : (a b : ℕ) → behind_proc a ≡ behind_proc b → a ≡ b
unfolding behind_proc
behind_proc_inj a b h =
    let cut = λ (n : ℕ).
      split_once-append 47 (show_nat n) (str "oom_score_adj")
        (All-imp digit-no_slash (show_nat n) (show_nat-digits n)) in
    show_nat_inj a b (ap (λ p. p.0) (some_inj (sym (cut a) ∙ ap (split_once 47) h ∙ cut b)))

pub adj_file-differ : (a b : ℕ) → (a == b) ≡ false → (adj_file a == adj_file b) ≡ false
adj_file-differ a b n = elim (Bool-cases (adj_file a == adj_file b)) [
  | inr d ↦ d
  | inl y ↦
      let e : adj_file a ≡ adj_file b = (text_beq_iff (adj_file a) (adj_file b)).0 y in
      let same : a ≡ b =
        behind_proc_inj a b (sym (adj_file-eq a) ∙ ap (drop 6) e ∙ adj_file-eq b) in
      absurd (false-ne-true (sym n ∙ (nat_beq_iff a b).1 same))
]

pub protect-IsScore : IsScore oom_protect
protect-IsScore = omega arith

-- a file of which a score is read is there
read-found : (o : Option Text) (v : ℤ) → parsed_adj o ≡ some v → is_some o ≡ true
read-found none v h = ground (arith, h)
read-found (some s) v h = refl

module _ (os : Os) (pid : ℕ) (laws : ScoreLaws os pid) where
  open os use {World, read, write}

  -- a write to another process leaves the score of this one
  pub score-other :
      (a : ℕ) (v : ℤ) (w : World)
      → (a == pid) ≡ false
      → read_oom_adj os pid (write_oom_adj os a v w).1 ≡ read_oom_adj os pid w
  unfolding read_oom_adj write_oom_adj
  score-other a v w n = ap parsed_adj (laws.elsewhere a v w n)

  -- a score that can be read can be written
  pub score-writable :
      (x v : ℤ) (w : World)
      → IsScore v
      → read_oom_adj os pid w ≡ some x
      → (write_oom_adj os pid v w).0 ≡ true
  unfolding read_oom_adj write_oom_adj
  score-writable x v w i h = laws.writable v w i (read-found (read (adj_file pid) w) x h)

  pub score-written :
      (v : ℤ) (w : World)
      → IsScore v
      → (write_oom_adj os pid v w).0 ≡ true
      → read_oom_adj os pid (write_oom_adj os pid v w).1 ≡ some v
  unfolding read_oom_adj write_oom_adj
  score-written v w i h =
      let r = laws.written v w i h in ap parsed_adj r.1 ∙ parsed_adj-written v r.0 i r.2
