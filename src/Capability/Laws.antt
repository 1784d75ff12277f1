-- ===== src/Capability/Laws.antt =====
-- The level of the freezer that the probe of daemon/src/capability.rs reports.
use sundown.Base.{
  ℕ, Bool, true, false, ◌≡◌, refl, arith, ◌⊎◌, inl, inr, Option, none, some, List, [], ◌∷◌, Text,
  str, if◌then◌else◌,
}
use sundown.Capability.{
  FreezerLevel, missing, v1, uid_v2, classify, is_there, path_if, first_uid, uid_dirs, fallback,
  probe, v1_state,
}
use sundown.Freezer.{Os, freeze_file}

-- a path of a uid was found, or no path at all
abbrev Found : Option Text × Option Text → Type 0
Found r = (is_there r.0 ≡ true) ⊎ (is_there r.1 ≡ false)

if-Found :
    (b : Bool) (x y : Option Text × Option Text) → Found x → Found y → Found (if b then x else y)
if-Found true x y h k = h
if-Found false x y h k = k

-- the level by the two paths that decide it
abbrev pub level_of : Option Text → Option Text → FreezerLevel
level_of uid_path v1_path =
    if is_there uid_path then uid_v2 else if is_there v1_path then v1 else missing

path_if_lem : (b : Bool) (p : Text) → is_there (path_if b p) ≡ b
path_if_lem true p = refl
path_if_lem false p = refl

module _ (os : Os) (exists : Text → os.World → Bool) where
  open os use {World, dir}

  first_uid-Found : (ds : List Text) (w : World) → Found (first_uid os exists ds w)
  unfolding first_uid
  first_uid-Found [] w = inr refl
  first_uid-Found (d ∷ ds) w =
      if-Found (exists (freeze_file d) w) _ _ (inl refl) (first_uid-Found ds w)

  fallback-is_there :
      (o : Option Text) (w : World) → is_there o ≡ true → is_there (fallback os exists o w) ≡ true
  unfolding fallback
  fallback-is_there none w h = absurd (ground (arith, h))
  fallback-is_there (some p) w h = refl

  classify-Found :
      (r : Option Text × Option Text) (v2 v1_ok : Bool) (p : Text) (w : World)
      → Found r
      → classify v2 (is_there (fallback os exists r.0 w)) (is_there r.1) v1_ok
        ≡ level_of (fallback os exists r.0 w) (path_if v1_ok p)
  unfolding classify
  classify-Found r v2 v1_ok p w (inl h) = rw (fallback-is_there r.0 w h) refl
  classify-Found r v2 v1_ok p w (inr h) = rw (h, path_if_lem v1_ok p) refl

  -- Whatever files the device has, the level of the freezer that the probe reports is decided by
  -- the two paths it reports for a uid and for the first version, in this order; an entry of a
  -- process decides nothing.
  pub probe_level :
      (net_source : Text) (self_pid unix_now : ℕ) (w : World)
      → let c = (probe os exists net_source self_pid unix_now w).0 in
        c.freezer ≡ level_of c.freezer_uid_path c.freezer_v1_path
  unfolding probe
  probe_level net_source self_pid unix_now w =
      classify-Found (first_uid os exists (uid_dirs os exists w) w)
        (exists (str "/sys/fs/cgroup/cgroup.controllers") w) (exists v1_state w) v1_state w
        (first_uid-Found (uid_dirs os exists w) w)
