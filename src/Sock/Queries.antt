-- ===== src/Sock/Queries.antt =====
-- The commands of the management socket in daemon/src/sock.rs that only read: rules and profile.
use sundown.Base.{
  ℕ, Option, none, some, [], ◌∷◌, ◌++◌, map, Text, str, ◌==◌, text_eq, get, is_empty, unwrap_or,
  length, join, show_nat, trim, parse_usize, if◌then◌else◌,
}
use sundown.Events.Json.{pieces}
use sundown.Profile.{AppProfile, ProfileTable, top_wakeups, total_wakeups, total_freezes, app_count}
use sundown.Rules.{RuleTable, ids}
use sundown.Sock.{sub_command, quote, text_list}

-- handle_rules
unfoldable pub handle_rules : RuleTable → Text → Text
handle_rules t arg =
    let sub = trim arg in
    if sub == str "list"
    then str "{\"ok\":1,\"count\":"
      ++ (show_nat (length (ids t)) ++ (str ",\"rules\":" ++ (text_list (ids t) ++ str "}")))
    else if sub == str "status"
    then str "{\"ok\":1,\"count\":"
      ++ pieces (
          show_nat (length t.rules)
          ∷ str ",\"revision\":"
          ∷ show_nat t.revision
          ∷ str ",\"hits\":"
          ∷ show_nat t.hits
          ∷ str "}"
          ∷ [])
    else str "{\"ok\":0,\"error\":\"rules: unknown subcommand: " ++ (sub ++ str "\"}")

-- handle_profile
unfoldable pub top_item : Text × AppProfile → Text
top_item (pkg, p) = pieces (
    str "{\"pkg\":\""
    ∷ pkg
    ∷ str "\",\"wakeups\":"
    ∷ show_nat p.wakeup_count
    ∷ str ",\"freezes\":"
    ∷ show_nat p.freeze_count
    ∷ str ",\"focus_ms\":"
    ∷ show_nat p.focus_ms
    ∷ str "}"
    ∷ [])

unfoldable pub profile_top : ℕ → ProfileTable → Text
unfolding top_item
profile_top n t =
    let items = map top_item (top_wakeups n t) in
    str "{\"ok\":1,\"count\":"
    ++ (show_nat (length items) ++ (str ",\"top\":[" ++ (join (str ",") items ++ str "]}")))

unfoldable pub source_item : Text × ℕ → Text
source_item (k, v) = quote k ++ (str ":" ++ show_nat v)

unfoldable pub profile_entry : Text → Option AppProfile → Text
unfolding source_item
profile_entry pkg none = str "{\"ok\":0,\"error\":\"profile not found: " ++ (pkg ++ str "\"}")
profile_entry pkg (some p) =
    str "{\"ok\":1,\"pkg\":\""
    ++ pieces (
        pkg
        ∷ str "\",\"focus_count\":"
        ∷ show_nat p.focus_count
        ∷ str ",\"focus_ms\":"
        ∷ show_nat p.focus_ms
        ∷ str ",\"freeze_count\":"
        ∷ show_nat p.freeze_count
        ∷ str ",\"unfreeze_count\":"
        ∷ show_nat p.unfreeze_count
        ∷ str ",\"discard_count\":"
        ∷ show_nat p.discard_count
        ∷ str ",\"wakeup_count\":"
        ∷ show_nat p.wakeup_count
        ∷ str ",\"wakeup_sources\":{"
        ∷ join (str ",") (map source_item p.wakeup_sources)
        ∷ str "},\"first_seen_at\":"
        ∷ show_nat p.first_seen_at
        ∷ str ",\"last_seen_at\":"
        ∷ show_nat p.last_seen_at
        ∷ str ",\"last_focus_at\":"
        ∷ show_nat p.last_focus_at
        ∷ str ",\"last_freeze_at\":"
        ∷ show_nat p.last_freeze_at
        ∷ str "}"
        ∷ [])

unfoldable pub profile_summary : ProfileTable → Text
profile_summary t = pieces (
    str "{\"ok\":1,\"apps\":"
    ∷ show_nat (app_count t)
    ∷ str ",\"total_wakeups\":"
    ∷ show_nat (total_wakeups t)
    ∷ str ",\"total_freezes\":"
    ∷ show_nat (total_freezes t)
    ∷ str "}"
    ∷ [])

unfoldable pub handle_profile : ProfileTable → Text → Text
unfolding profile_top profile_entry profile_summary
handle_profile t arg =
    let c = sub_command arg in
    if c.0 == str "top"
    then profile_top (unwrap_or (parse_usize c.1) 10) t
    else if c.0 == str "get"
    then if is_empty c.1
      then str "{\"ok\":0,\"error\":\"profile get <pkg>\"}"
      else profile_entry c.1 (get c.1 t)
    else profile_summary t
