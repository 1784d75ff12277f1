-- ===== src/Profile.antt =====
-- The usage profiles of daemon/src/profile.rs. `Instant::now()` and `epoch_secs()` are arguments.
pub mod Laws
use sundown.Base.{
  ℕ, zero, suc, Bool, ◌||◌, ◌&&◌, ltb, text_le, sort_by, ◌+◌, ◌-◌, ◌/◌, Option, none, some, [], ◌∷◌,
  Text, Map, get, insert, ◌==◌, nat_eq, text_eq, unwrap_or, length, Instant, if◌then◌else◌,
}

pub record AppProfile : Type 0 where
  pub focus_count : ℕ
  pub focus_ms : ℕ
  pub freeze_count : ℕ
  pub unfreeze_count : ℕ
  pub discard_count : ℕ
  pub wakeup_count : ℕ
  pub wakeup_sources : Map Text ℕ
  pub first_seen_at : ℕ
  pub last_seen_at : ℕ
  pub last_focus_at : ℕ
  pub last_freeze_at : ℕ
  pub focus_since : Option Instant

abbrev pub new_profile : AppProfile
new_profile = record {
  focus_count = 0;
  focus_ms = 0;
  freeze_count = 0;
  unfreeze_count = 0;
  discard_count = 0;
  wakeup_count = 0;
  wakeup_sources = [];
  first_seen_at = 0;
  last_seen_at = 0;
  last_focus_at = 0;
  last_freeze_at = 0;
  focus_since = none;
}

-- AppProfile::touch
unfoldable pub touch : ℕ → AppProfile → AppProfile
touch t p = record p {
  first_seen_at = (if p.first_seen_at == 0 then t else p.first_seen_at);
  last_seen_at = t;
}

-- AppProfile::on_focus
unfoldable pub profile_focus : Instant → ℕ → AppProfile → AppProfile
unfolding touch
profile_focus now epoch p =
    touch epoch
      (record p { focus_count = p.focus_count + 1; focus_since = some now; last_focus_at = epoch })

-- AppProfile::on_leave
unfoldable pub profile_leave : Instant → AppProfile → AppProfile
profile_leave now p = elim p.focus_since [
  | none ↦ p
  | some since ↦ record p { focus_ms = p.focus_ms + (now - since) / 1000000; focus_since = none }
]

-- `*map.entry(key).or_insert(0) += 1`
abbrev pub bump : Text → Map Text ℕ → Map Text ℕ
bump k m = insert k (unwrap_or (get k m) 0 + 1) m

-- AppProfile::on_wakeup
unfoldable pub profile_wakeup : Text → ℕ → AppProfile → AppProfile
unfolding touch
profile_wakeup source epoch p =
    touch epoch (record p {
      wakeup_count = p.wakeup_count + 1;
      wakeup_sources = bump source p.wakeup_sources;
    })

-- AppProfile::on_freeze
unfoldable pub profile_freeze : ℕ → AppProfile → AppProfile
unfolding touch
profile_freeze epoch p =
    touch epoch (record p { freeze_count = p.freeze_count + 1; last_freeze_at = epoch })

-- AppProfile::on_unfreeze
unfoldable pub profile_unfreeze : ℕ → AppProfile → AppProfile
unfolding touch
profile_unfreeze epoch p = touch epoch (record p { unfreeze_count = p.unfreeze_count + 1 })

-- AppProfile::on_discard
unfoldable pub profile_discard : ℕ → AppProfile → AppProfile
unfolding touch
profile_discard epoch p = touch epoch (record p { discard_count = p.discard_count + 1 })

abbrev pub ProfileTable : Type 0
ProfileTable = Map Text AppProfile

-- `self.apps.entry(pkg).or_default()` and one of the updates above
unfoldable pub on_entry : (AppProfile → AppProfile) → Text → ProfileTable → ProfileTable
on_entry f pkg t = insert pkg (f (unwrap_or (get pkg t) new_profile)) t

-- ProfileTable::total_wakeups
abbrev pub total_wakeups : ProfileTable → ℕ
total_wakeups [] = 0
total_wakeups ((k, p) ∷ t) = p.wakeup_count + total_wakeups t

-- ProfileTable::total_freezes
abbrev pub total_freezes : ProfileTable → ℕ
total_freezes [] = 0
total_freezes ((k, p) ∷ t) = p.freeze_count + total_freezes t

-- ProfileTable::app_count
abbrev pub app_count : ProfileTable → ℕ
app_count t = length t

-- ProfileTable::top_wakeups: by the wakeups, most first, then by the name
abbrev pub wakes_before : Text × AppProfile → Text × AppProfile → Bool
wakes_before a b =
    ltb b.1.wakeup_count a.1.wakeup_count
    || (b.1.wakeup_count == a.1.wakeup_count && text_le a.0 b.0)

abbrev pub truncate : ℕ → ProfileTable → ProfileTable
truncate zero v = []
truncate (suc n) [] = []
truncate (suc n) (x ∷ v) = x ∷ truncate n v

unfoldable pub top_wakeups : ℕ → ProfileTable → ProfileTable
top_wakeups n t = truncate n (sort_by wakes_before t)
