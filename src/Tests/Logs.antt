-- ===== src/Tests/Logs.antt =====
-- The rotation of the event log on a map of files.
use sundown.Base.{
  true, false, ◌≡◌, refl, Option, none, some, [], ◌∷◌, ◌++◌, Text, str, Map, get, insert, remove,
  length, get-insert, get-remove, text_eq, text_beq_iff, sym, ◌==◌, or_else, unwrap_or, Bool-cases,
  inl, inr, arith,
}
use sundown.Events.Log.{Files, numbered, rotate_jsonl}
use sundown.Events.Log.Laws.{FileLaws, rotate_jsonl_lem}

abbrev moved : Text → Text → Option Text → Map Text Text → Map Text Text
moved a b none fs = fs
moved a b (some t) fs = insert b t (remove a fs)

abbrev log_of : Map Text Text → Text → Text
log_of fs p = unwrap_or (get p fs) []

abbrev map_files : Files
map_files = record {
  Fs = Map Text Text;
  create_parent = λ p fs. (true, fs);
  size = λ p fs. some (length (log_of fs p));
  rename = λ a b fs. moved a b (get a fs) fs;
  append = λ p t fs. (true, insert p (log_of fs p ++ t) fs);
}

flip : (a b : Text) → (a == b) ≡ false → (b == a) ≡ false
flip a b h = elim (Bool-cases (b == a)) [
  | inl q ↦ absurd (ground (arith, h, (text_beq_iff a b).1 (sym ((text_beq_iff b a).0 q))))
  | inr q ↦ q
]

moved_source :
    (a b : Text) (o : Option Text) (fs : Map Text Text)
    → (a == b) ≡ false
    → get a fs ≡ o
    → get a (moved a b o fs) ≡ none
moved_source a b none fs h e = e
moved_source a b (some t) fs h e =
    rw (get-insert b a t (remove a fs), flip a b h, get-remove a a fs, (text_beq_iff a a).1 refl)
      refl

moved_target :
    (a b : Text) (o : Option Text) (fs : Map Text Text)
    → get b (moved a b o fs) ≡ or_else o (get b fs)
moved_target a b none fs = refl
moved_target a b (some t) fs = rw (get-insert b b t (remove a fs), (text_beq_iff b b).1 refl) refl

moved_other :
    (a b c : Text) (o : Option Text) (fs : Map Text Text)
    → (c == a) ≡ false
    → (c == b) ≡ false
    → get c (moved a b o fs) ≡ get c fs
moved_other a b c none fs h k = refl
moved_other a b c (some t) fs h k =
    rw (get-insert b c t (remove a fs), flip c b k, get-remove a c fs, flip c a h) refl

abbrev map_laws : FileLaws map_files
map_laws = record {
  read = λ p fs. get p fs;
  rename_source = λ a b fs h. moved_source a b (get a fs) fs h refl;
  rename_target = λ a b fs h. moved_target a b (get a fs) fs;
  rename_other = λ a b c fs h k. moved_other a b c (get a fs) fs h k;
}

abbrev logs : Map Text Text
logs = (str "log", str "new") ∷ (str "log.1", str "old") ∷ []

rotate_jsonl_lem_example :
    let fs = rotate_jsonl map_files (str "log") logs in
    (get (str "log") fs ≡ none)
    × (get (numbered (str "log") 1) fs ≡ get (str "log") logs)
    × (get (numbered (str "log") 2) fs ≡ get (numbered (str "log") 1) logs)
    × (get (numbered (str "log") 3) fs
        ≡ or_else (get (numbered (str "log") 2) logs) (get (numbered (str "log") 3) logs))
rotate_jsonl_lem_example = rotate_jsonl_lem map_files map_laws (str "log") logs
