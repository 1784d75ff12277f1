-- ===== src/Sock/Dex/Fuse.antt =====
-- `serve_dex_bytes` and `push_dex` of daemon/src/sock.rs send no bytes of the wrong version.
use sundown.Base.{
  Bool, true, ◌≡◌, ◌⊎◌, refl, ap, inl, inr, Bool-cases, Option, none, some, Text, text_eq,
  text_beq_iff, is_empty, if◌then◌else◌,
}
use sundown.Engine.System.{System}
use sundown.Sock.{State}
use sundown.Sock.Dex.{
  ReadResult, contents, failed, consistent, extract_dex_version, serve_read, serve_dex_bytes,
  push_read, push_dex, write_reply, dex_file, mismatch, read_error,
}

-- there is no expected version, none can be read in the bytes, or it is the expected one
abbrev pub Allowed : Option Text → Option Text → Type 0
Allowed expected actual = (expected ≡ none) ⊎ ((actual ≡ none) ⊎ (actual ≡ expected))

consistent-Allowed :
    (expected actual : Option Text) → consistent expected actual ≡ true → Allowed expected actual
unfolding consistent
consistent-Allowed none actual h = inl refl
consistent-Allowed (some e) none h = inr (inl refl)
consistent-Allowed (some e) (some a) h = inr (inr (ap (λ t. some t) ((text_beq_iff a e).0 h)))

-- a file that is read and whose bytes may be sent
abbrev pub IsSendable : Option Text → ReadResult → Type 0
IsSendable expected (contents bytes) = Allowed expected (extract_dex_version bytes)
IsSendable expected (failed e) = ⊥

-- the line that is written in place of the bytes
abbrev pub refusal : Option Text → ReadResult → Text
refusal expected (contents bytes) = mismatch (extract_dex_version bytes) expected
refusal expected (failed e) = read_error dex_file e

module _ (system : System) (Stream : Type 0) (write_all : Stream → Text → Bool × Stream)
    (flush : Stream → Bool × Stream) (read : Text → system.Sys → ReadResult) where
  push_read_fused :
      (path : Text) (r : ReadResult) (d : State system Stream)
      → ((push_read system Stream write_all flush read path r d).1 ≡ d)
        ⊎ IsSendable d.expected_dex_hash r
  unfolding push_read
  push_read_fused path (failed e) d = inl refl
  push_read_fused path (contents bytes) d =
      elim (Bool-cases (consistent d.expected_dex_hash (extract_dex_version bytes))) [
        | inl b ↦ inr (consistent-Allowed d.expected_dex_hash (extract_dex_version bytes) b)
        | inr b ↦ inl (rw b refl)
      ]

  serve_read_fused :
      (r : ReadResult) (expected : Option Text) (s : Stream)
      → (serve_read system Stream write_all flush read r expected s
          ≡ write_reply system Stream write_all flush read (refusal expected r) s)
        ⊎ IsSendable expected r
  unfolding serve_read
  serve_read_fused (failed e) expected s = inl refl
  serve_read_fused (contents bytes) expected s =
      elim (Bool-cases (consistent expected (extract_dex_version bytes))) [
        | inl b ↦ inr (consistent-Allowed expected (extract_dex_version bytes) b)
        | inr b ↦ inl (rw b refl)
      ]

  -- Unless no version is expected, the file has none that can be read, or it has the expected
  -- one, push_dex changes nothing, no connection included, and serve_dex_bytes writes the refusal
  -- alone to its connection.
  pub push_dex_fused :
      (arg : Text) (s : Stream) (d : State system Stream)
      → let path = if is_empty arg then dex_file else arg in
        let expected = d.expected_dex_hash in
        let file = read dex_file d.engine.sys in
        (((push_dex system Stream write_all flush read arg d).1 ≡ d)
          ⊎ IsSendable expected (read path d.engine.sys))
        × ((serve_dex_bytes system Stream write_all flush read s d
              ≡ write_reply system Stream write_all flush read (refusal expected file) s)
            ⊎ IsSendable expected file)
  unfolding push_dex serve_dex_bytes
  push_dex_fused arg s d =
      let path = if is_empty arg then dex_file else arg in
      (
        push_read_fused path (read path d.engine.sys) d,
        serve_read_fused (read dex_file d.engine.sys) d.expected_dex_hash s,
      )
