-- ===== src/Events.antt =====
-- The ring buffer of structured events of daemon/src/events.rs. Time stamps are arguments.
pub mod Laws
pub mod Json
pub mod Log
use sundown.Base.{
  ℕ, ◌+◌, ◌-◌, min, Bool, Option, none, some, List, [], ◌∷◌, Text, str, length, drop, filterb,
  concat_elem, ltb, leb, ◌==◌, nat_eq, if◌then◌else◌,
}

abbrev pub event_capacity : ℕ
event_capacity = 256

pub data EvLevel : Type 0 where
  info event success warn error timer report : EvLevel

-- EvLevel::as_str
unfoldable pub level_str : EvLevel → Text
level_str info = str "info"
level_str event = str "event"
level_str success = str "success"
level_str warn = str "warn"
level_str error = str "error"
level_str timer = str "timer"
level_str report = str "report"

pub data EvAction : Type 0 where
  open_ close freeze unfreeze discard delay exempt policy system : EvAction

-- EvAction::as_str
unfoldable pub ev_action_str : EvAction → Text
ev_action_str open_ = str "open"
ev_action_str close = str "close"
ev_action_str freeze = str "freeze"
ev_action_str unfreeze = str "unfreeze"
ev_action_str discard = str "discard"
ev_action_str delay = str "delay"
ev_action_str exempt = str "exempt"
ev_action_str policy = str "policy"
ev_action_str system = str "system"

pub data EvSubject : Type 0 where
  app sys : EvSubject

-- EvSubject::as_str
unfoldable pub subject_str : EvSubject → Text
subject_str app = str "app"
subject_str sys = str "system"

pub record Event : Type 0 where
  pub seq : ℕ
  pub ts : ℕ
  pub level : EvLevel
  pub action : EvAction
  pub subject : EvSubject
  pub pkg : Option Text
  pub reason : Option Text
  pub msg : Option Text

pub record EventBuffer : Type 0 where
  pub buf : List Event
  pub total : ℕ
  pub flushed_seq : ℕ

-- EventBuffer::default
abbrev pub empty_events : EventBuffer
empty_events = record { buf = []; total = 0; flushed_seq = 0 }

-- `pop_front`
abbrev pop_front : List Event → List Event
pop_front l = drop 1 l

-- EventBuffer::push
unfoldable pub push : EventBuffer → Event → EventBuffer
push b e =
    let total = b.total + 1 in
    let kept = if leb event_capacity (length b.buf) then pop_front b.buf else b.buf in
    record b { buf = concat_elem kept (record e { seq = total }); total = total }

-- EventBuffer::push_app, at the time stamp `ts`
unfoldable pub push_app :
    EventBuffer → ℕ → EvLevel → EvAction → Text → Option Text → Option Text → EventBuffer
push_app b ts level action pkg reason msg = push b (record {
  seq = 0;
  ts = ts;
  level = level;
  action = action;
  subject = app;
  pkg = some pkg;
  reason = reason;
  msg = msg;
})

-- EventBuffer::push_system, at the time stamp `ts`
unfoldable pub push_system :
    EventBuffer → ℕ → EvLevel → EvAction → Option Text → Option Text → EventBuffer
push_system b ts level action reason msg = push b (record {
  seq = 0;
  ts = ts;
  level = level;
  action = action;
  subject = sys;
  pkg = none;
  reason = reason;
  msg = msg;
})

abbrev pub unflushed : EventBuffer → List Event
unflushed b = filterb (λ e. ltb b.flushed_seq e.seq) b.buf

-- EventBuffer::pending_persist
unfoldable pub pending_persist : EventBuffer → ℕ
pending_persist b = length (unflushed b)

-- `iter().rev().find(..)`: the last event that satisfies the test
abbrev pub last_seq : ℕ → List Event → ℕ
last_seq d [] = d
last_seq d (e ∷ es) = last_seq e.seq es

-- EventBuffer::persist_new. The result of the write is an argument; the lines that are handed to
-- `append_jsonl` come back beside the count.
unfoldable pub persist_new : EventBuffer → Bool → ℕ × List Event × EventBuffer
persist_new b written =
    let fresh = unflushed b in
    if length fresh == 0
    then (0, [], b)
    else if written
    then (length fresh, fresh, record b { flushed_seq = last_seq b.flushed_seq fresh })
    else (0, fresh, b)

-- EventBuffer::recent
unfoldable pub recent : EventBuffer → ℕ → List Event
recent b limit =
    let n = if limit == 0 then length b.buf else min limit (length b.buf) in
    drop (length b.buf - n) b.buf
