-- ===== src/Events/Log/Laws.antt =====
-- What a rotation of the event log keeps.
use sundown.Base.{
  ℕ, ◌≡◌, refl, ◌∙◌, false, Option, none, some, [], ◌∷◌, ◌++◌, Text, str, ◌==◌, text_eq, text_beq,
  nat_eq, nat_beq_iff, or_else, show_nat,
}
use sundown.Events.Log.{Files, numbered, shift_logs, rotate_jsonl}

-- what a reader of the files finds, and how the operations change it
pub record FileLaws (files : Files) : Type 0 where
  pub read : Text → files.Fs → Option Text
  pub rename_source :
      (a b : Text) (fs : files.Fs) → (a == b) ≡ false → read a (files.rename a b fs) ≡ none
  pub rename_target :
      (a b : Text) (fs : files.Fs)
      → (a == b) ≡ false
      → read b (files.rename a b fs) ≡ or_else (read a fs) (read b fs)
  pub rename_other :
      (a b c : Text) (fs : files.Fs)
      → (c == a) ≡ false
      → (c == b) ≡ false
      → read c (files.rename a b fs) ≡ read c fs

append_beq : (p a b : Text) → (p ++ a == p ++ b) ≡ (a == b)
unfolding text_beq
append_beq [] a b = refl
append_beq (c ∷ p) a b = rw ((nat_beq_iff c c).1 refl) (append_beq p a b)

longer_beq : (p : Text) (c : ℕ) (s : Text) → (p == p ++ (c ∷ s)) ≡ false
unfolding text_beq
longer_beq [] c s = refl
longer_beq (d ∷ p) c s = rw ((nat_beq_iff d d).1 refl) (longer_beq p c s)

shorter_beq : (p : Text) (c : ℕ) (s : Text) → (p ++ (c ∷ s) == p) ≡ false
unfolding text_beq
shorter_beq [] c s = refl
shorter_beq (d ∷ p) c s = rw ((nat_beq_iff d d).1 refl) (shorter_beq p c s)

numbered_beq : (p : Text) (i j : ℕ) → (numbered p i == numbered p j) ≡ (show_nat i == show_nat j)
unfolding numbered
numbered_beq p i j =
    append_beq p (str "." ++ show_nat i) (str "." ++ show_nat j)
    ∙ append_beq (str ".") (show_nat i) (show_nat j)

or_else-none : (o : Option Text) → or_else o none ≡ o
or_else-none none = refl
or_else-none (some t) = refl

module _ (files : Files) (laws : FileLaws files) where
  open files use {Fs, create_parent, size, rename, append}
  open laws use {read, rename_source, rename_target, rename_other}

  -- the names of the log and of its three copies
  distinct :
      (p : Text) (i j : ℕ)
      → (show_nat i == show_nat j) ≡ false
      → (numbered p i == numbered p j) ≡ false
  distinct p i j h = numbered_beq p i j ∙ h

  log_differs : (p : Text) (i : ℕ) → (p == numbered p i) ≡ false
  unfolding numbered
  log_differs p i = longer_beq p b'.' (show_nat i)

  copy_differs : (p : Text) (i : ℕ) → (numbered p i == p) ≡ false
  unfolding numbered
  copy_differs p i = shorter_beq p b'.' (show_nat i)

  -- On a file system whose rename moves a file and touches no other, a rotation leaves no current
  -- log, keeps it as the first copy and the first as the second, and the third is the second, or
  -- stays where there was none.
  pub rotate_jsonl_lem :
      (p : Text) (fs : Fs)
      → let fs' = rotate_jsonl files p fs in
        (read p fs' ≡ none)
        × (read (numbered p 1) fs' ≡ read p fs)
        × (read (numbered p 2) fs' ≡ read (numbered p 1) fs)
        × (read (numbered p 3) fs' ≡ or_else (read (numbered p 2) fs) (read (numbered p 3) fs))
  unfolding rotate_jsonl shift_logs text_beq show_nat
  rotate_jsonl_lem p fs =
      let one = numbered p 1 in
      let two = numbered p 2 in
      let three = numbered p 3 in
      let fs1 = rename two three fs in
      let fs2 = rename one two fs1 in
      let one_two = distinct p 1 2 refl in
      let one_three = distinct p 1 3 refl in
      let two_one = distinct p 2 1 refl in
      let two_three = distinct p 2 3 refl in
      let three_one = distinct p 3 1 refl in
      let three_two = distinct p 3 2 refl in
      (
        rename_source p one fs2 (log_differs p 1),
        rename_target p one fs2 (log_differs p 1)
            ∙ rw (rename_source one two fs1 one_two) (or_else-none (read p fs2))
            ∙ rename_other one two p fs1 (log_differs p 1) (log_differs p 2)
            ∙ rename_other two three p fs (log_differs p 2) (log_differs p 3),
        rename_other p one two fs2 (copy_differs p 2) two_one
            ∙ rename_target one two fs1 one_two
            ∙ rw (rename_source two three fs two_three) (or_else-none (read one fs1))
            ∙ rename_other two three one fs one_two one_three,
        rename_other p one three fs2 (copy_differs p 3) three_one
            ∙ rename_other one two three fs1 three_one three_two
            ∙ rename_target two three fs two_three,
      )
