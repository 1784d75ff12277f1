-- ===== src/Policy.antt =====
-- The policy model of daemon/src/policy.rs: modes, per-app entries, the policy and its questions.
-- The parser of policy.toml is in the child `Parse`, the proofs are in the other children.
pub mod Critical
pub mod Parse
pub mod Laws
use sundown.Base.{
  ℕ, ◌+◌, ◌*◌, ◌-◌, ◌^◌, min, Bool, true, false, ◌&&◌, Option, none, some, List, [], Text, str, Map,
  ◌==◌, text_eq, any, leb, if◌then◌else◌,
}
use Critical.{critical_packages}

pub data AppMode : Type 0 where
  exempt important standard strict : AppMode

-- AppMode::parse
unfoldable pub parse_app_mode : Text → Option AppMode
parse_app_mode s =
    if s == str "exempt"
    then some exempt
    else if s == str "important"
    then some important
    else if s == str "standard"
    then some standard
    else if s == str "strict"
    then some strict
    else none

-- the derived `==` of `AppMode`, at the two modes that the code compares with
abbrev pub is_exempt_mode : AppMode → Bool
is_exempt_mode exempt = true
is_exempt_mode _ = false

abbrev pub is_important_mode : AppMode → Bool
is_important_mode important = true
is_important_mode _ = false

pub data PushMode : Type 0 where
  keep kill : PushMode

-- PushMode::parse
unfoldable pub parse_push_mode : Text → Option PushMode
parse_push_mode s =
    if s == str "keep" then some keep else if s == str "kill" then some kill else none

-- PushMode::as_str
unfoldable pub push_mode_str : PushMode → Text
push_mode_str keep = str "keep"
push_mode_str kill = str "kill"

pub record AppPolicy : Type 0 where
  pub mode : AppMode
  pub grace_override : Option ℕ
  pub keep_fg_service : Option Bool
  pub keep_media : Option Bool
  pub keep_location : Option Bool
  pub keep_high_network : Option Bool
  pub keep_network : Option Bool
  pub keep_wakeup : Option Bool
  pub push_mode : Option PushMode
  pub unfreeze_window : Option (ℕ × ℕ)

abbrev pub default_app_policy : AppPolicy
default_app_policy = record {
  mode = standard;
  grace_override = none;
  keep_fg_service = none;
  keep_media = none;
  keep_location = none;
  keep_high_network = none;
  keep_network = none;
  keep_wakeup = none;
  push_mode = none;
  unfreeze_window = none;
}

-- u64::saturating_mul
abbrev pub u64_max : ℕ
u64_max = 2 ^ 64 - 1

unfoldable pub saturating_mul : ℕ → ℕ → ℕ
saturating_mul a b = min (a * b) u64_max

abbrev pub strict_default_grace : ℕ
strict_default_grace = 8

abbrev pub important_grace_mult : ℕ
important_grace_mult = 2

abbrev mode_grace : AppMode → ℕ → ℕ
mode_grace strict global = strict_default_grace
mode_grace important global = saturating_mul global important_grace_mult
mode_grace _ global = global

unfoldable pub effective_grace : AppPolicy → ℕ → ℕ
unfolding saturating_mul
effective_grace p global = elim p.grace_override [ some g ↦ g | none ↦ mode_grace p.mode global ]

pub record Policy : Type 0 where
  pub enabled : Bool
  pub grace_seconds : ℕ
  pub cooldown_seconds : ℕ
  pub wake_throttle_seconds : ℕ
  pub receiver_gate : List Text
  pub service_gate : List Text
  pub pendingintent_gate : List Text
  pub force : List Text
  pub whitelist : List Text
  pub apps : Map Text AppPolicy
  pub keep_fg_service : Bool
  pub keep_media : Bool
  pub keep_location : Bool
  pub keep_high_network : Bool
  pub keep_network : Bool
  pub push_policy : PushMode
  pub keep_vpn : Bool
  pub vpn_packages : List Text
  pub defense_anr : Bool
  pub defense_cached_optimizer : Bool
  pub discard_frozen_timeout_seconds : ℕ
  pub discard_mem_watermark_mb : ℕ
  pub discard_boot_reclaim : Bool
  pub discard_boot_reclaim_delay_seconds : ℕ
  pub revision : ℕ

abbrev pub default_policy : Policy
default_policy = record {
  enabled = false;
  grace_seconds = 30;
  cooldown_seconds = 60;
  wake_throttle_seconds = 60;
  receiver_gate = [];
  service_gate = [];
  pendingintent_gate = [];
  force = [];
  whitelist = [];
  apps = [];
  keep_fg_service = true;
  keep_media = true;
  keep_location = true;
  keep_high_network = true;
  keep_network = true;
  push_policy = keep;
  keep_vpn = true;
  vpn_packages = [];
  defense_anr = false;
  defense_cached_optimizer = false;
  discard_frozen_timeout_seconds = 1800;
  discard_mem_watermark_mb = 512;
  discard_boot_reclaim = true;
  discard_boot_reclaim_delay_seconds = 120;
  revision = 0;
}

-- Policy::is_whitelisted
unfoldable pub is_whitelisted : Policy → Text → Bool
is_whitelisted p pkg = any (λ w. w == pkg) p.whitelist

-- Policy::is_critical: the policy itself is not read
unfoldable pub is_critical : Text → Bool
unfolding critical_packages
is_critical pkg = any (λ c. c == pkg) critical_packages

-- Policy::is_forced
unfoldable pub is_forced : Policy → Text → Bool
is_forced p pkg = any (λ f. f == pkg) p.force

-- Policy::is_vpn_listed
unfoldable pub is_vpn_listed : Policy → Text → Bool
is_vpn_listed p pkg = any (λ v. v == pkg) p.vpn_packages

unfoldable pub in_window : ℕ → Option (ℕ × ℕ) → Bool
in_window minute none = false
in_window minute (some (s, e)) = leb s minute && leb minute e
