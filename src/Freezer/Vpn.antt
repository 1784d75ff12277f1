-- ===== src/Freezer/Vpn.antt =====
-- The owner of the VPN in daemon/src/freezer.rs: the uid of the process that holds a tun device,
-- found by a scan whose result is kept for a minute.
use sundown.Base.{
  ℕ, ◌-◌, Bool, false, ◌&&◌, ◌||◌, Option, none, some, List, [], ◌∷◌, ◌++◌, Text, str, ◌==◌, nat_eq,
  text_eq, any, all, is_empty, is_digit, length, ltb, lines, split, trim_start, starts_with,
  parse_u32, drop, Instant, from_secs, if◌then◌else◌,
}
use sundown.Freezer.{
  Os, Fz, apps_dir, under, proc_file, is_uid_entry, pid_entry, or_empty, onto_parsed,
}
use sundown.Freezer.Packages.{pid_uid}

-- is_tun_iface
unfoldable pub is_tun_iface : Text → Bool
is_tun_iface name =
    ltb 3 (length name) && starts_with (str "tun") name && all is_digit (drop 3 name)

abbrev first_field : List Text → Text
first_field [] = []
first_field (p ∷ ps) = p

abbrev tun_line : Text → Bool
tun_line l = is_tun_iface (first_field (split b':' (trim_start l)))

abbrev tun_text : Option Text → Bool
tun_text none = false
tun_text (some text) = any tun_line (lines text)

-- `t.contains(s)`
unfoldable pub contains_text : Text → Text → Bool
contains_text s [] = starts_with s []
contains_text s (c ∷ t) = starts_with s (c ∷ t) || contains_text s t

abbrev tun_link : Option Text → Bool
tun_link none = false
tun_link (some t) = starts_with (str "/dev/tun") t || contains_text (str "anon_inode:[tun") t

-- VPN_CACHE_TTL
abbrev pub vpn_cache_ttl : ℕ
vpn_cache_ttl = from_secs 60

unfoldable pub pids_of : List Text → List ℕ
unfolding pid_entry
pids_of [] = []
pids_of (name ∷ ns) = onto_parsed (pid_entry name) (pids_of ns)

unfoldable pub digit_pids : List Text → List ℕ
digit_pids [] = []
digit_pids (name ∷ ns) =
    let rest = digit_pids ns in
    if all is_digit name then onto_parsed (parse_u32 name) rest else rest

module _ (os : Os) where
  open os use {World, read, dir, link, clock}

  unfoldable pub has_tun_iface : World → Bool
  unfolding is_tun_iface
  has_tun_iface w = tun_text (read (str "/proc/net/dev") w)

  -- the candidates of `scan_vpn_owner`
  unfoldable pub app_pids : List Text → World → List ℕ
  unfolding pids_of
  app_pids [] w = []
  app_pids (name ∷ ns) w =
      let rest = app_pids ns w in
      if is_uid_entry name then pids_of (or_empty (dir (under apps_dir name) w)) ++ rest else rest

  unfoldable pub candidates : World → List ℕ
  unfolding app_pids digit_pids
  candidates w =
      let pids = app_pids (or_empty (dir apps_dir w)) w in
      if is_empty pids then digit_pids (or_empty (dir (str "/proc") w)) else pids

  -- the links of one process: the first tun device whose process has a uid
  unfoldable pub scan_links : Text → List Text → ℕ → World → Option ℕ
  unfolding contains_text
  scan_links d [] pid w = none
  scan_links d (name ∷ ns) pid w =
      let rest = scan_links d ns pid w in
      if tun_link (link (under d name) w)
      then elim (pid_uid os pid w) [ some uid ↦ some uid | none ↦ rest ]
      else rest

  unfoldable pub scan_pids : List ℕ → World → Option ℕ
  unfolding scan_links
  scan_pids [] w = none
  scan_pids (pid ∷ pids) w =
      let d = proc_file pid (str "fd") in
      elim (scan_links d (or_empty (dir d w)) pid w) [
        | some uid ↦ some uid
        | none ↦ scan_pids pids w
      ]

  unfoldable pub scan_vpn_owner : World → Option ℕ
  unfolding scan_pids candidates has_tun_iface
  scan_vpn_owner w = if has_tun_iface w then scan_pids (candidates w) w else none

  -- vpn_owner_uid
  unfoldable pub rescan : Fz World → Option ℕ × Fz World
  rescan st =
      let v = scan_vpn_owner st.world in
      (v, record st { vpn_owner_cache = some (clock st.world, v) })

  unfoldable pub vpn_cached : Option (Instant × Option ℕ) → Fz World → Option ℕ × Fz World
  unfolding rescan
  vpn_cached none st = rescan st
  vpn_cached (some (at, v)) st =
      if ltb (clock st.world - at) vpn_cache_ttl then (v, st) else rescan st

  unfoldable pub vpn_owner_uid : Fz World → Option ℕ × Fz World
  unfolding vpn_cached
  vpn_owner_uid st = vpn_cached st.vpn_owner_cache st

  -- is_vpn_owner
  abbrev is_owner : ℕ → Option ℕ → Bool
  is_owner uid none = false
  is_owner uid (some u) = u == uid

  unfoldable pub is_vpn_owner : ℕ → Fz World → Bool × Fz World
  unfolding vpn_owner_uid
  is_vpn_owner uid st = let out = vpn_owner_uid st in (is_owner uid out.0, out.1)
