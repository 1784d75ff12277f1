-- ===== src/Network/Laws.antt =====
-- What the traffic sampler reports: growth over a window that has passed since the last sample, and
-- nothing when the samples are closer together than the window.
use sundown.Base.{
  ℕ, ◌+◌, ◌-◌, ◌<◌, ◌≤◌, Bool, false, ◌≡◌, refl, arith, Option, none, some, List, [], ◌∷◌, All, get,
  insert, get-insert, nat_eq, nat_beq_iff, leb, ltb, Instant,
}
use sundown.Network.{Baselines, is_active, is_active_any}

-- A window or more after the last sample, the two tests compare the growth of the counter since
-- then with the threshold and with zero, and both take the new sample as the baseline.
pub is_active_lem :
    (last : Baselines) (uid bytes prev : ℕ) (now at : Instant) (window threshold : ℕ)
    → get uid last ≡ some (prev, at)
    → at + window ≤ now
    → ((is_active last uid (some bytes) now window threshold).0 ≡ leb threshold (bytes - prev))
      × ((is_active_any last uid (some bytes) now window).0 ≡ ltb 0 (bytes - prev))
      × (get uid (is_active last uid (some bytes) now window threshold).1 ≡ some (bytes, now))
      × (get uid (is_active_any last uid (some bytes) now window).1 ≡ some (bytes, now))
unfolding is_active is_active_any
is_active_lem last uid bytes prev now at window threshold h k =
    ground (arith, get-insert uid uid (bytes, now) last, nat_beq_iff uid uid)

-- `is_active_any` less than a window after a sample of the same uid is false, whatever the traffic.
pub is_active_any_masked :
    (last : Baselines) (uid bytes : ℕ) (bytes' : Option ℕ) (at now : Instant) (window threshold : ℕ)
    → now - at < window
    → (is_active_any
        (is_active last uid (some bytes) at window threshold).1
        uid
        bytes'
        now
        window).0
      ≡ false
unfolding is_active is_active_any
is_active_any_masked last uid bytes none at now window threshold h = refl
is_active_any_masked last uid bytes (some b) at now window threshold h =
    ground (arith, get-insert uid uid (bytes, at) last, nat_beq_iff uid uid)

-- a run of `is_active_any` on one uid: the counter and the instant of each sample
abbrev pub sampled : Baselines → ℕ → ℕ → List (ℕ × Instant) → List Bool
sampled last uid window [] = []
sampled last uid window ((bytes, now) ∷ l) =
    let r = is_active_any last uid (some bytes) now window in r.0 ∷ sampled r.1 uid window l

-- each sample is less than a window after the one before it
abbrev pub AreClose : Instant → ℕ → List (ℕ × Instant) → Type 0
AreClose at window [] = Unit
AreClose at window ((bytes, now) ∷ l) = (now - at < window) × AreClose now window l

close_from :
    (last : Baselines) (uid window prev : ℕ) (at : Instant) (l : List (ℕ × Instant))
    → get uid last ≡ some (prev, at)
    → AreClose at window l
    → All (λ b. b ≡ false) (sampled last uid window l)
unfolding is_active_any
close_from last uid window prev at [] h k = tt
close_from last uid window prev at ((bytes, now) ∷ l) h k = (
  ground arith,
  close_from (insert uid (bytes, now) last) uid window bytes now l
      (ground (arith, get-insert uid uid (bytes, now) last, nat_beq_iff uid uid)) k.1,
)

-- A uid without a baseline that is sampled in steps shorter than the window is not seen as active
-- in any sample, whatever its counter does.
pub close_samples_inactive :
    (last : Baselines) (uid window bytes : ℕ) (now : Instant) (l : List (ℕ × Instant))
    → get uid last ≡ none
    → AreClose now window l
    → All (λ b. b ≡ false) (sampled last uid window ((bytes, now) ∷ l))
unfolding is_active_any
close_samples_inactive last uid window bytes now l h k = (
  ground arith,
  close_from (insert uid (bytes, now) last) uid window bytes now l
      (ground (arith, get-insert uid uid (bytes, now) last, nat_beq_iff uid uid)) k,
)
