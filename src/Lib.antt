-- ===== src/Lib.antt =====
-- The daemon of Sundown, an Android service that freezes apps in the background, as a model with
-- theorems.
--
-- The program. daemon/src/engine.rs holds the state of the policy engine and handles its events:
-- focus changes, wakeups, processes that come and go, reloads, and a tick every 300 ms. It decides
-- by the policy (policy.rs), the rules (rules.rs), the presets (preset.rs) and the traffic of an
-- app (network.rs), acts through the freezer (freezer.rs), and records what it does in a ring
-- buffer of events (events.rs) and in usage profiles (profile.rs). The configuration is read by a
-- small TOML parser (toml.rs). main.rs starts the engine from the frozen set of the last session
-- (state.rs holds it) and runs the tick; sock.rs and config.rs pass the other events on.
--
-- The files.
--   Base     lists, texts as code points, association lists for HashMap, instants as nanoseconds,
--            sorting, the scanning of texts that the parsers use, UTF-8, and lemmas on the lines
--            and numbers of a text
--   Policy   policy.rs: modes, the policy and its questions; Policy/Parse reads policy.toml
--   Toml     toml.rs: `parse` and its helpers. A message is modelled by its kind
--   Rules    rules.rs: matching with priority, throttle and expiry; Rules/Parse reads rules.toml
--   Preset   preset.rs, and the reader of action.toml
--   Network  network.rs: `is_active` and `is_active_any` on the baselines; the counters are
--            arguments
--   Events   events.rs: `push`, `persist_new`, `recent`; the result of a write is an argument.
--            Events/Json is the JSON text of the events and of the log, Events/Log the file of
--            the log with its rotation, over an interface of the file system
--   Profile  profile.rs: the counters of each app, and `top_wakeups`
--   Subscribe the subscribers of state.rs and `parse_subscription` of sock.rs
--   Freezer  freezer.rs, over Os, the interface of the files, processes and clock. Packages holds
--            the package list and the stored frozen set, Oom the scores and their records, Act the
--            freezing and thawing of a uid, Push the two freezes that treat push processes apart,
--            Vpn the search for the owner of a tunnel, Warm the pages that are read ahead. Cgroup
--            says what the kernel documents of cgroup.freeze and of the scores, Frozen compares the two questions
--            about frozen uids, and Fill makes the freezer the engine's system
--   Capability capability.rs: the probe of the device, and the level of the freezer it reports
--   Engine   engine.rs. System is the interface of all that the engine calls outside itself, State
--            is `EngineState`. A handler is a function on the pair of both. Flags, Freeze, Focus,
--            Wakeup, Discard, Persist, Reload and Status hold the methods of those names; Expire,
--            Triggers and Tick the parts of `tick`; Startup the start in state.rs and main.rs; Run
--            the events as a step relation. The children of each hold the proofs: Change says what
--            a step may do to the tables at one package, and what invariant follows
--   Sock     the shared state of state.rs, and sock.rs: Event is `handle_event`, Command the loop
--            of a subscribed connection with `handle_subscribe`, Session that connection from its
--            hello-dex to its end, Manage the policy and preset commands, Queries the rules and
--            profile commands, Status `status_json` and the reload that config.rs is asked for, Dex
--            `extract_dex_version`, `serve_dex_bytes` and `push_dex`. A reply is its text. Steps
--            and Runs compare the handlers with the step relation of Engine/Run
--   Tests    small systems to run the engine, the freezer and the sockets on, and the theorems
--            applied to them
--
-- Conventions. Numbers are natural numbers; a `u64` counter is not bounded, since none can reach
-- its end in a run, and `saturating_mul` and the ranges of parsed numbers are written out. A
-- HashMap is an association list; its order stands for the order in which Rust iterates. A query
-- of the system reads its state and does not advance the clock, so two readings with no action
-- between them give the same instant. Loops are recursion on a list, except `split_table_header`,
-- whose fuel is the length of the text plus one: each round takes two quotes off it. `while` loops
-- of the parser run on the list of lines, and the loops of `extract_dex_version` on the rest of the
-- file and on the number of entries that are left.
--
-- Not modelled. Log lines and the throttle of those of freezer.rs; threads and locks (each event
-- runs alone, under the engine's lock); the sockets themselves and `handle_conn`, which chooses
-- the handler of a first line; the capability and analyze commands of sock.rs, with analyze.rs;
-- the kernel's counters that network.rs reads; the watcher of config.rs. In Freezer/Fill the
-- lookups of the engine leave the caches of freezer.rs as they are. The dex, bridge and probe
-- layers are not part of the daemon.
pub mod Base
pub mod Policy
pub mod Toml
pub mod Rules
pub mod Capability
pub mod Sock
pub mod Network
pub mod Events
pub mod Profile
pub mod Preset
pub mod Subscribe
pub mod Freezer
pub mod Engine
pub mod Tests
