-- ===== src/Freezer/Packages/Cache.antt =====
-- The cache of `pkg_uid` against a lookup in the file.
use mathlib.Core.Path.{subst}
use sundown.Base.{
  ℕ, sym, ◌≡◌, refl, arith, Option, none, some, Text, Map, get, ◌==◌, nat_eq, text_eq, nat_beq_iff,
  Bool-cases, inl, inr,
}
use sundown.Freezer.{Os, Fz}
use sundown.Freezer.Packages.{packages_list, read_packages_list, looked_up, cached, pkg_uid, reread}

module _ (os : Os) where
  open os use {World, mtime}

  -- what is cached for the time of the last change is the list as it is on disk
  abbrev FreshAt : Option (ℕ × Map Text ℕ) → Option ℕ → World → Type 0
  FreshAt none time w = Unit
  FreshAt (some (at, m)) time w = time ≡ some at → m ≡ read_packages_list os w

  abbrev pub IsFresh : Fz World → Type 0
  IsFresh st = FreshAt st.pkg_uid_cache (mtime packages_list st.world) st.world

  -- a lookup with no cache
  abbrev pub uid_on_disk : Option ℕ → Text → World → Option ℕ
  uid_on_disk none pkg w = none
  uid_on_disk (some time) pkg w = get pkg (read_packages_list os w)

  abbrev Looked : Option ℕ → Text → Fz World → Option ℕ × Fz World → Type 0
  Looked time pkg st out =
      (out.0 ≡ uid_on_disk time pkg st.world)
      × (out.1.world ≡ st.world)
      × (out.1.oom_backup ≡ st.oom_backup)
      × (out.1.vpn_owner_cache ≡ st.vpn_owner_cache)
      × FreshAt out.1.pkg_uid_cache time st.world

  cached_lem :
      (pkg : Text) (time : ℕ) (c : Option (ℕ × Map Text ℕ)) (st : Fz World)
      → st.pkg_uid_cache ≡ c
      → FreshAt c (some time) st.world
      → Looked (some time) pkg st (cached os pkg time c st)
  unfolding cached reread
  cached_lem pkg time none st e f = (refl, refl, refl, refl, λ h. refl)
  cached_lem pkg time (some (at, m)) st e f = elim (Bool-cases (at == time)) [
    | inl b ↦
        let h : m ≡ read_packages_list os st.world = f (ground (arith, nat_beq_iff at time, b)) in
        rw b (rw h refl, refl, refl, refl, rw e f)
    | inr b ↦ rw b (refl, refl, refl, refl, λ h. refl)
  ]

  looked_up_lem :
      (pkg : Text) (time : Option ℕ) (st : Fz World)
      → FreshAt st.pkg_uid_cache time st.world
      → Looked time pkg st (looked_up os pkg time st)
  unfolding looked_up
  looked_up_lem pkg none st f = (refl, refl, refl, refl, f)
  looked_up_lem pkg (some time) st f = cached_lem pkg time st.pkg_uid_cache st refl f

  -- From a cache that for the time of the last change holds the package list as it is on disk,
  -- pkg_uid gives what a lookup in the file gives, or nothing where the file has no time, leaves
  -- the device, the records of scores and the cache of VPN owners as they are, and leaves such a
  -- cache.
  pub pkg_uid-eq-disk :
      (pkg : Text) (st : Fz World)
      → IsFresh st
      → let out = pkg_uid os pkg st in
        (out.0 ≡ uid_on_disk (mtime packages_list st.world) pkg st.world)
        × (out.1.world ≡ st.world)
        × (out.1.oom_backup ≡ st.oom_backup)
        × (out.1.vpn_owner_cache ≡ st.vpn_owner_cache)
        × IsFresh out.1
  unfolding pkg_uid
  pkg_uid-eq-disk pkg st f =
      let l = looked_up_lem pkg (mtime packages_list st.world) st f in
      (
        l.0,
        l.1,
        l.2,
        l.3,
        subst
            (λ w.
              FreshAt (looked_up os pkg (mtime packages_list st.world) st).1.pkg_uid_cache
                (mtime packages_list w) w)
            (sym l.1) l.4,
      )
