-- ===== src/Subscribe/Broadcast.antt =====
-- The two broadcasts: whom they count, who stays, and in what state.
use sundown.Base.{
  ℕ, ◌+◌, Bool, true, false, not, ◌≡◌, refl, arith, Option, none, List, [], ◌∷◌, Text, str, nat_eq,
  text_eq, filterb, length, map, ◌&&◌, ◌||◌, if◌then◌else◌,
}
use sundown.Subscribe.{
  Subscription, Registry, wants, pkg_of, told, send_line, send_frame, broadcast_to, broadcast_line,
  broadcast_dex, and_then,
}

module _ (Stream : Type 0) where
  abbrev Client : Type 0
  Client = ℕ × Stream × Subscription

  -- the clients that are told of an event, by what says that a write to one goes through; those
  -- that stay; and these with what the writes leave of the connections
  abbrev pub served : (Stream → Bool) → Text → Option Text → List Client → List Client
  served ok kind pkg l = filterb (λ c. wants c.2 kind pkg && ok c.1) l

  abbrev pub staying : (Stream → Bool) → Text → Option Text → List Client → List Client
  staying ok kind pkg l = filterb (λ c. not (wants c.2 kind pkg) || ok c.1) l

  abbrev pub written : (Stream → Stream) → Text → Option Text → List Client → List Client
  written left kind pkg l = map (λ c. if wants c.2 kind pkg then (c.0, left c.1, c.2) else c) l

  abbrev pub Delivered :
      (Stream → Bool)
      → (Stream → Stream)
      → Text
      → Option Text
      → List Client
      → ℕ × List Client
      → Type 0
  Delivered ok left kind pkg l out =
      (out.0 ≡ length (served ok kind pkg l))
      × (out.1 ≡ written left kind pkg (staying ok kind pkg l))

  told_sent :
      (id : ℕ) (sub : Subscription) (r : Bool × Stream) (out : ℕ × List Client)
      → r.0 ≡ true
      → told Stream id sub r out ≡ (out.0 + 1, (id, r.1, sub) ∷ out.1)
  told_sent id sub (true, s) (n, cs) h = refl
  told_sent id sub (false, s) (n, cs) h = ground (arith, h)

  told_failed :
      (id : ℕ) (sub : Subscription) (r : Bool × Stream) (out : ℕ × List Client)
      → r.0 ≡ false
      → told Stream id sub r out ≡ out
  told_failed id sub (true, s) (n, cs) h = ground (arith, h)
  told_failed id sub (false, s) (n, cs) h = refl

  -- `ok` says whether a write succeeds, and `left` what it then leaves
  abbrev Describes :
      (Stream → Bool × Stream) → (Stream → Bool) → (Stream → Stream) → Stream → Type 0
  Describes send ok left s = ((send s).0 ≡ ok s) × (ok s ≡ true → (send s).1 ≡ left s)

  broadcast_to_lem :
      (send : Stream → Bool × Stream) (ok : Stream → Bool) (left : Stream → Stream) (kind : Text)
      (pkg : Option Text)
      → ((s : Stream) → Describes send ok left s)
      → (l : List Client) → Delivered ok left kind pkg l (broadcast_to Stream send kind pkg l)
  unfolding broadcast_to
  broadcast_to_lem send ok left kind pkg d [] = (refl, refl)
  broadcast_to_lem send ok left kind pkg d ((id, s, sub) ∷ cs) =
      let out = broadcast_to Stream send kind pkg cs in
      ground (
        arith,
        broadcast_to_lem send ok left kind pkg d cs,
        d s,
        told_sent id sub (send s) out,
        told_failed id sub (send s) out,
      )

  and_then_lem :
      (r : Bool × Stream) (k : Stream → Bool × Stream)
      → ((and_then Stream r k).0 ≡ (r.0 && (k r.1).0))
        × ((r.0 && (k r.1).0) ≡ true → (and_then Stream r k).1 ≡ (k r.1).1)
  and_then_lem (true, s) k = (refl, λ h. refl)
  and_then_lem (false, s) k = (refl, λ h. ground (arith, h))

  module _ (write_all : Stream → Text → Bool × Stream) (flush : Stream → Bool × Stream) where
    -- whether a line goes through, and what is then left of the connection
    abbrev pub line_ok : Text → Stream → Bool
    line_ok line s = (write_all s line).0 && (flush (write_all s line).1).0

    abbrev pub line_left : Text → Stream → Stream
    line_left line s = (flush (write_all s line).1).1

    -- A broadcast of a line counts the clients that want it and whose write and flush both
    -- succeed; the clients after it are, in their order, those that do not want it, as they were,
    -- and those that were counted, with what the flush leaves of their connection; no new id is
    -- given.
    pub broadcast_line_lem :
        (kind line : Text) (r : Registry Stream)
        → let out = broadcast_line Stream write_all flush kind line r in
          (out.1.next_id ≡ r.next_id)
          × Delivered
              (line_ok line)
              (line_left line)
              kind
              (pkg_of line)
              r.clients
              (out.0, out.1.clients)
    unfolding broadcast_line
    broadcast_line_lem kind line r = (
      refl,
      broadcast_to_lem (send_line Stream write_all flush line) (line_ok line) (line_left line) kind
          (pkg_of line) (λ s. and_then_lem (write_all s line) flush) r.clients,
    )

    -- the same of a header line and the bytes behind it
    abbrev pub frame_ok : Text → Text → Stream → Bool
    frame_ok header_line payload s =
        (write_all s header_line).0 && line_ok payload (write_all s header_line).1

    abbrev pub frame_left : Text → Text → Stream → Stream
    frame_left header_line payload s = line_left payload (write_all s header_line).1

    frame_lem :
        (header_line payload : Text) (s : Stream)
        → Describes
            (send_frame Stream write_all flush header_line payload)
            (frame_ok header_line payload)
            (frame_left header_line payload)
            s
    frame_lem header_line payload s =
        let k : Stream → Bool × Stream = λ s'. write_all s' payload in
        let h = write_all s header_line in
        ground (arith, and_then_lem h k, and_then_lem (and_then Stream h k) flush)

    -- A broadcast of a dex file counts the clients that want its kind and whose header, bytes and
    -- flush all go through, drops those that want it and have one that fails, and leaves the
    -- others, all in their order.
    pub broadcast_dex_lem :
        (header_line payload : Text) (r : Registry Stream)
        → let out = broadcast_dex Stream write_all flush header_line payload r in
          (out.1.next_id ≡ r.next_id)
          × Delivered
              (frame_ok header_line payload)
              (frame_left header_line payload)
              (str "dex-push")
              none
              r.clients
              (out.0, out.1.clients)
    unfolding broadcast_dex
    broadcast_dex_lem header_line payload r = (
      refl,
      broadcast_to_lem (send_frame Stream write_all flush header_line payload)
          (frame_ok header_line payload) (frame_left header_line payload) (str "dex-push") none
          (frame_lem header_line payload) r.clients,
    )
