-- ===== src/Freezer/Cgroup.antt =====
-- What the kernel documents of the files that the freezer reads and writes: `cgroup.freeze` of the
-- levels of the apps tree, the scores in /proc, and the command lines. These are the hypotheses of
-- the theorems about the freezer's actions. A world changes only by the calls in it: nothing else
-- happens between two of them. Nothing is said of a file that the kernel keeps changing, such as
-- cgroup.procs, cgroup.events or /proc/<pid>/status.
use sundown.Base.{
  ℕ, ◌≡◌, sym, ◌∙◌, ap, Bool, true, false, some, Text, str, ◌==◌, nat_eq, text_eq, text_beq_iff,
  trim, is_some, Bool-cases, inl, inr, ends_with, ends_with-append, show_nat, ℤ, Lacks, All,
}
use sundown.Freezer.{Os, cont, freeze_file, under, proc_file, uid_dir, is_pid_entry, or_empty}
use sundown.Freezer.Oom.{adj_file, write_oom_adj, show_int, IsScore}

-- a level of the tree: the directory of a uid, or that of a process in it
pub data IsLevel : Text → Type 0 where
  app : (uid : ℕ) → IsLevel (uid_dir uid)
  process :
      (uid : ℕ) (name : Text)
      → is_pid_entry name ≡ true
      → Lacks b'/' name
      → IsLevel (under (uid_dir uid) name)

abbrev pub bit : Bool → Text
bit true = str "1"
bit false = str "0"

-- `cgroup.freeze` shows the own setting of its cgroup, the last one that was written
pub record CgroupLaws (os : Os) : Type 0 where
  pub written :
      (d : Text) (b : Bool) (w : os.World)
      → IsLevel d
      → (os.write (freeze_file d) (bit b) w).0 ≡ true
      → (s : Text) × (os.read (freeze_file d) (os.write (freeze_file d) (bit b) w).1 ≡ some s)
        × (trim s ≡ bit b)
  pub refused :
      (d : Text) (b : Bool) (w : os.World)
      → IsLevel d
      → (os.write (freeze_file d) (bit b) w).0 ≡ false
      → os.read (freeze_file d) (os.write (freeze_file d) (bit b) w).1 ≡ os.read (freeze_file d) w
  pub elsewhere :
      (d e : Text) (b : Bool) (w : os.World)
      → IsLevel d
      → IsLevel e
      → (freeze_file d == freeze_file e) ≡ false
      → os.read (freeze_file e) (os.write (freeze_file d) (bit b) w).1 ≡ os.read (freeze_file e) w
  -- root can thaw a cgroup that is there
  pub writable :
      (d : Text) (w : os.World)
      → IsLevel d
      → is_some (os.read (freeze_file d) w) ≡ true
      → (os.write (freeze_file d) (bit false) w).0 ≡ true
  -- a write makes and removes no directory, and a name in one has no slash
  pub same_dir :
      (d : Text) (b : Bool) (uid : ℕ) (w : os.World)
      → IsLevel d
      → os.dir (uid_dir uid) (os.write (freeze_file d) (bit b) w).1 ≡ os.dir (uid_dir uid) w
  pub plain_names :
      (uid : ℕ) (w : os.World) → All (λ n. Lacks b'/' n) (or_empty (os.dir (uid_dir uid) w))
  -- freezing a process leaves its command line
  pub same_cmdline :
      (d : Text) (b : Bool) (pid : ℕ) (w : os.World)
      → IsLevel d
      → os.read (proc_file pid (str "cmdline")) (os.write (freeze_file d) (bit b) w).1
        ≡ os.read (proc_file pid (str "cmdline")) w
  -- SIGCONT and a new score leave the settings and the directories
  pub cont_read :
      (pid : ℕ) (d : Text) (w : os.World)
      → IsLevel d
      → os.read (freeze_file d) (os.signal pid cont w).1 ≡ os.read (freeze_file d) w
  pub cont_dir :
      (pid uid : ℕ) (w : os.World)
      → os.dir (uid_dir uid) (os.signal pid cont w).1 ≡ os.dir (uid_dir uid) w
  pub score_read :
      (pid : ℕ) (v : ℤ) (d : Text) (w : os.World)
      → IsLevel d
      → os.read (freeze_file d) (os.write (adj_file pid) (show_int v) w).1
        ≡ os.read (freeze_file d) w
  pub score_dir :
      (pid : ℕ) (v : ℤ) (uid : ℕ) (w : os.World)
      → os.dir (uid_dir uid) (os.write (adj_file pid) (show_int v) w).1 ≡ os.dir (uid_dir uid) w

-- The score of a process whose memory no other process shares: it reads as it was written, the
-- writer with the right to lower it can set it in its range while the process is there, and the
-- score of another process is another one.
pub record ScoreLaws (os : Os) (pid : ℕ) : Type 0 where
  pub written :
      (v : ℤ) (w : os.World)
      → IsScore v
      → (os.write (adj_file pid) (show_int v) w).0 ≡ true
      → (s : Text) × (os.read (adj_file pid) (os.write (adj_file pid) (show_int v) w).1 ≡ some s)
        × (trim s ≡ show_int v)
  pub writable :
      (v : ℤ) (w : os.World)
      → IsScore v
      → is_some (os.read (adj_file pid) w) ≡ true
      → (os.write (adj_file pid) (show_int v) w).0 ≡ true
  pub elsewhere :
      (a : ℕ) (v : ℤ) (w : os.World)
      → (a == pid) ≡ false
      → os.read (adj_file pid) (os.write (adj_file a) (show_int v) w).1 ≡ os.read (adj_file pid) w

pub false-ne-true : false ≡ true → ⊥
false-ne-true h = cc

-- the file of a score and that of a cgroup have different names
adj_file-end : (pid : ℕ) → ends_with 106 (adj_file pid) ≡ true
unfolding proc_file under ends_with
adj_file-end pid =
    ends_with-append 106 (under (str "/proc") (show_nat pid)) 47 (str "oom_score_adj")

freeze_file-end : (d : Text) → ends_with 106 (freeze_file d) ≡ false
unfolding freeze_file under ends_with
freeze_file-end d = ends_with-append 106 d 47 (str "cgroup.freeze")

pub adj_file-apart : (pid : ℕ) (d : Text) → (adj_file pid == freeze_file d) ≡ false
adj_file-apart pid d = elim (Bool-cases (adj_file pid == freeze_file d)) [
  | inr n ↦ n
  | inl y ↦
      let e : adj_file pid ≡ freeze_file d = (text_beq_iff (adj_file pid) (freeze_file d)).0 y in
      absurd
        (false-ne-true (sym (freeze_file-end d) ∙ ap (ends_with 106) (sym e) ∙ adj_file-end pid))
]

module _ (os : Os) where
  open os use {World, read, dir}

  -- the settings of the levels and the directories of the uids are the same
  abbrev pub SameTree : World → World → Type 0
  SameTree w w' =
      ((d : Text) → IsLevel d → read (freeze_file d) w' ≡ read (freeze_file d) w)
      × ((uid : ℕ) → dir (uid_dir uid) w' ≡ dir (uid_dir uid) w)

  pub SameTree-trans : (a b c : World) → SameTree a b → SameTree b c → SameTree a c
  SameTree-trans a b c p q = (λ d l. q.0 d l ∙ p.0 d l, λ u. q.1 u ∙ p.1 u)

module _ (os : Os) (laws : CgroupLaws os) where
  open os use {World}

  pub write_oom_adj-SameTree :
      (pid : ℕ) (v : ℤ) (w : World) → SameTree os w (write_oom_adj os pid v w).1
  unfolding write_oom_adj
  write_oom_adj-SameTree pid v w =
      (λ d l. laws.score_read pid v d w l, λ u. laws.score_dir pid v u w)
