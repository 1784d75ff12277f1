-- ===== src/Tests/Device.antt =====
-- A small device for the freezer: files that can all be written, and two directories that stay.
-- The theorems about the freezer are applied to it.
use sundown.Base.{
  ℕ, suc, Bool, All, Lacks, trim, trim-solid, show_nat, show_nat-IsSolid, ℤ, pos, negsuc, text_beq,
  ◌≡◌, refl, arith, true, false, Option, none, some, List, [], ◌∷◌, Text, str, ◌==◌, nat_eq,
  text_eq, text_beq_iff, Map, get, insert, get-insert,
}
use sundown.Freezer.{Os, Fz, uid_dir, apps_dir, freeze_file, under, proc_file, or_empty}
use sundown.Freezer.Cgroup.{CgroupLaws, ScoreLaws, IsLevel, bit, adj_file-apart}
use sundown.Freezer.Oom.{adj_file, show_int}
use sundown.Freezer.Oom.Scores.{adj_file-differ}

abbrev Files : Type 0
Files = Map Text Text

abbrev listing : Bool → Bool → Option (List Text)
listing true c = some (str "uid_10001" ∷ [])
listing false true = some (str "cgroup.freeze" ∷ str "pid_41" ∷ str "pid_42" ∷ [])
listing false false = none

abbrev names : Text → Option (List Text)
names d = listing (d == apps_dir) (d == uid_dir 10001)

abbrev pub toy_os : Os
toy_os = record {
  World = Files;
  read = λ p w. get p w;
  write = λ p v w. (true, insert p v w);
  remove_file = λ p w. w;
  dir = λ d w. names d;
  link = λ p w. none;
  mtime = λ p w. some 7;
  clock = λ w. 0;
  signal = λ pid s w. (true, w);
  pidfd_open = λ pid w. false;
  advise = λ pid l w. (false, w);
}

written_here : (p v : Text) (w : Files) → get p (insert p v w) ≡ some v
written_here p v w = ground (arith, get-insert p p v w, text_beq_iff p p)

written_elsewhere : (p v q : Text) (w : Files) → (p == q) ≡ false → get q (insert p v w) ≡ get q w
written_elsewhere p v q w h = ground (arith, get-insert p q v w, h)

cmdline_differs :
    (d : Text) (pid : ℕ) → IsLevel d → (freeze_file d == proc_file pid (str "cmdline")) ≡ false
unfolding freeze_file under uid_dir proc_file text_beq
cmdline_differs _ pid (IsLevel.app uid) = refl
cmdline_differs _ pid (IsLevel.process uid name b p) = refl

trim-bit : (b : Bool) → trim (bit b) ≡ bit b
unfolding trim
trim-bit true = refl
trim-bit false = refl

trim-show_int : (v : ℤ) → trim (show_int v) ≡ show_int v
unfolding show_int
trim-show_int (pos n) = trim-solid (show_nat n) (show_nat-IsSolid n)
trim-show_int (negsuc n) = trim-solid (b'-' ∷ show_nat (suc n)) (refl, show_nat-IsSolid (suc n))

of_uid : Lacks b'/' (str "uid_10001")
of_uid = (refl, (refl, (refl, (refl, (refl, (refl, (refl, (refl, (refl, tt)))))))))

of_freeze : Lacks b'/' (str "cgroup.freeze")
of_freeze = (
  refl,
  (
    refl,
    (refl, (refl, (refl, (refl, (refl, (refl, (refl, (refl, (refl, (refl, (refl, tt))))))))))),
  ),
)

of_pid_41 : Lacks b'/' (str "pid_41")
of_pid_41 = (refl, (refl, (refl, (refl, (refl, (refl, tt))))))

of_pid_42 : Lacks b'/' (str "pid_42")
of_pid_42 = (refl, (refl, (refl, (refl, (refl, (refl, tt))))))

-- each name in each directory
plain_list : (b c : Bool) → All (λ n. Lacks b'/' n) (or_empty (listing b c))
plain_list true c = (of_uid, tt)
plain_list false true = (of_freeze, (of_pid_41, (of_pid_42, tt)))
plain_list false false = tt

pub toy_laws : CgroupLaws toy_os
toy_laws = record {
  written = λ d b w l h. (bit b, written_here (freeze_file d) (bit b) w, trim-bit b);
  refused = λ d b w l h. absurd (ground (arith, h));
  elsewhere = λ d e b w k l h. written_elsewhere (freeze_file d) (bit b) (freeze_file e) w h;
  writable = λ d w l h. refl;
  same_dir = λ d b uid w l. refl;
  plain_names = λ uid w. plain_list (uid_dir uid == apps_dir) (uid_dir uid == uid_dir 10001);
  same_cmdline = λ d b pid w l.
      written_elsewhere (freeze_file d) (bit b) (proc_file pid (str "cmdline")) w
        (cmdline_differs d pid l);
  cont_read = λ pid d w l. refl;
  cont_dir = λ pid uid w. refl;
  score_read = λ pid v d w l.
      written_elsewhere (adj_file pid) (show_int v) (freeze_file d) w (adj_file-apart pid d);
  score_dir = λ pid v uid w. refl;
}

pub toy_scores : ScoreLaws toy_os 41
toy_scores = record {
  written = λ v w i h. (show_int v, written_here (adj_file 41) (show_int v) w, trim-show_int v);
  writable = λ v w i h. refl;
  elsewhere = λ a v w n.
      written_elsewhere (adj_file a) (show_int v) (adj_file 41) w (adj_file-differ a 41 n);
}

-- an app with a frozen process and a process of the push kind
abbrev app : Text
app = str "/sys/fs/cgroup/apps/uid_10001"

abbrev pub device : Fz Files
device = record {
  world =
      (str "/data/system/packages.list", str "chat 10001 0 /data/chat")
      ∷ (str "/sys/fs/cgroup/apps/uid_10001/cgroup.freeze", str "0")
      ∷ (str "/sys/fs/cgroup/apps/uid_10001/pid_41/cgroup.freeze", str "1")
      ∷ (str "/sys/fs/cgroup/apps/uid_10001/pid_41/cgroup.procs", str "41")
      ∷ (str "/sys/fs/cgroup/apps/uid_10001/pid_42/cgroup.freeze", str "0")
      ∷ (str "/proc/42/cmdline", str "chat:push")
      ∷ (str "/proc/41/oom_score_adj", str "900")
      ∷ [];
  pkg_uid_cache = none;
  oom_backup = [];
  vpn_owner_cache = none;
}
