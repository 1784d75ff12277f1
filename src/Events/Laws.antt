-- ===== src/Events/Laws.antt =====
-- The ring buffer of events: bounded, numbered without a gap, and each event written once.
use sundown.Base.{
  ℕ, ◌+◌, ◌-◌, ◌≤◌, ◌<◌, Bool, true, false, ◌≡◌, refl, arith, List, [], ◌∷◌, length, drop, filterb,
  concat_elem, length-append, length-drop, Bool-cases, inl, inr, ltb, leb, ◌==◌, nat_eq,
}
use sundown.Events.{
  Event, EventBuffer, push, unflushed, pending_persist, persist_new, last_seq, empty_events,
}

-- the events behind `k` are numbered from `k + 1` on
abbrev pub IsRun : ℕ → List Event → Type 0
IsRun k [] = Unit
IsRun k (e ∷ es) = (e.seq ≡ k + 1) × IsRun (k + 1) es

-- At most 256 events, the last `length` of all that were pushed, and nothing flushed that was not.
pub record IsBuffer (b : EventBuffer) : Type 0 where
  pub bounded : length b.buf ≤ 256
  pub known : length b.buf ≤ b.total
  pub run : IsRun (b.total - length b.buf) b.buf
  pub flushed : b.flushed_seq ≤ b.total

pub empty_events-IsBuffer : IsBuffer empty_events
empty_events-IsBuffer = record {
  bounded = omega arith;
  known = omega arith;
  run = tt;
  flushed = omega arith;
}

IsRun-concat :
    (k : ℕ) (l : List Event) (e : Event)
    → IsRun k l
    → e.seq ≡ k + length l + 1
    → IsRun k (concat_elem l e)
IsRun-concat k [] e h q = (omega (arith, q), tt)
IsRun-concat k (x ∷ l) e h q = (h.0, IsRun-concat (k + 1) l e h.1 (omega (arith, q)))

IsRun-tail : (k : ℕ) (l : List Event) → IsRun k l → IsRun (k + 1) (drop 1 l)
IsRun-tail k [] h = tt
IsRun-tail k (e ∷ l) h = h.1

-- the buffer after the oldest event may have gone
abbrev pushed : EventBuffer → List Event → Event → EventBuffer
pushed b kept e = record b {
  buf = concat_elem kept (record e { seq = b.total + 1 });
  total = b.total + 1;
}

pushed-IsBuffer :
    (b : EventBuffer) (kept : List Event) (e : Event)
    → length kept < 256
    → length kept ≤ b.total
    → IsRun (b.total - length kept) kept
    → b.flushed_seq ≤ b.total
    → IsBuffer (pushed b kept e)
pushed-IsBuffer b kept e short known run flushed =
    let size = length-append kept (record e { seq = b.total + 1 } ∷ []) in
    let place : b.total + 1 - length (concat_elem kept (record e { seq = b.total + 1 }))
        ≡ b.total - length kept =
      ground (arith, size) in
    record {
      bounded = ground (arith, size);
      known = ground (arith, size);
      run = rw place (IsRun-concat _ kept _ run (omega (arith, known)));
      flushed = omega (arith, flushed);
    }

-- A push keeps the buffer at 256 events at most, numbered without a gap up to the total, and the
-- written mark below the total.
pub push-IsBuffer : (b : EventBuffer) (e : Event) → IsBuffer b → IsBuffer (push b e)
unfolding push
push-IsBuffer b e h = elim (Bool-cases (leb 256 (length b.buf))) [
  | inl full ↦
      let size = length-drop 1 b.buf in
      let place : b.total - length (drop 1 b.buf) ≡ b.total - length b.buf + 1 =
        ground (arith, h.known, size) in
      rw full (
        pushed-IsBuffer b (drop 1 b.buf) e (ground (arith, h.bounded, size))
          (ground (arith, h.known, size)) (rw place (IsRun-tail _ b.buf h.run)) h.flushed)
  | inr room ↦ rw room (pushed-IsBuffer b b.buf e (ground (arith, room)) h.known h.run h.flushed)
]

-- No event of a run has a number above its end.
none_above :
    (k mark : ℕ) (l : List Event)
    → IsRun k l
    → k + length l ≤ mark
    → filterb (λ e. ltb mark e.seq) l ≡ []
none_above k mark [] h m = refl
none_above k mark (e ∷ l) h m = ground (arith, h.0, none_above (k + 1) mark l h.1)

-- The last event of a run above a mark is the last of the run.
last_above :
    (k mark d : ℕ) (e : Event) (l : List Event)
    → IsRun k (e ∷ l)
    → mark < k + length (e ∷ l)
    → last_seq d (filterb (λ x. ltb mark x.seq) (e ∷ l)) ≡ k + length (e ∷ l)
last_above k mark d e [] h m = ground (arith, h.0)
last_above k mark d e (x ∷ l) h m =
    ground (arith, h.0, last_above (k + 1) mark d x l h.1, last_above (k + 1) mark e.seq x l h.1)

mark_of :
    (total mark : ℕ) (l : List Event)
    → length l ≤ total
    → IsRun (total - length l) l
    → (length (filterb (λ e. ltb mark e.seq) l) == 0) ≡ false
    → last_seq mark (filterb (λ e. ltb mark e.seq) l) ≡ total
mark_of total mark [] h r f = ground (arith, f)
mark_of total mark (e ∷ l) h r f = ground (
  arith,
  none_above (total - length (e ∷ l)) mark (e ∷ l) r,
  last_above (total - length (e ∷ l)) mark mark e l r,
)

-- what a write does, by its result
abbrev pub PersistOutcome : Bool → EventBuffer → ℕ × List Event × EventBuffer → Type 0
PersistOutcome true b r = (r.0 ≡ pending_persist b) × (pending_persist r.2 ≡ 0) × (r.2.buf ≡ b.buf)
PersistOutcome false b r = (r.0 ≡ 0) × (r.2 ≡ b)

-- On a well-formed buffer persist_new hands over exactly the events that are pending; when the
-- write succeeds it counts them and none is pending any more, and when it fails it counts none
-- and the buffer is unchanged.
pub persist_new_lem :
    (b : EventBuffer) (written : Bool)
    → IsBuffer b
    → let r = persist_new b written in
      (r.1 ≡ unflushed b) × PersistOutcome written b r × IsBuffer r.2
unfolding persist_new pending_persist
persist_new_lem b true h = elim (Bool-cases (length (unflushed b) == 0)) [
  | inl none_fresh ↦ rw none_fresh (ground arith, (ground arith, ground arith, refl), h)
  | inr fresh ↦
      let mark = mark_of b.total b.flushed_seq b.buf h.known h.run fresh in
      let gone = none_above (b.total - length b.buf) b.total b.buf h.run (omega (arith, h.known)) in
      rw fresh (
        refl,
        (refl, ground (arith, mark, gone), refl),
        record { bounded = h.bounded; known = h.known; run = h.run; flushed = omega (arith, mark) },
      )
]
persist_new_lem b false h = elim (Bool-cases (length (unflushed b) == 0)) [
  | inl none_fresh ↦ rw none_fresh (ground arith, (refl, refl), h)
  | inr fresh ↦ rw fresh (refl, (refl, refl), h)
]
