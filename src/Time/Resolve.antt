-- ===== src/Time/Resolve.antt =====
-- `timeAnchorResolve`: the time of a capture tick, before or after the anchor.
use vorsprung_logger.Base.{ℕ, ◌+◌, ◌-◌, ◌*◌, ◌%◌, ◌≤◌, ◌<◌, ◌^◌, ◌≡◌, ◌≢◌, some, arith, u64_mod}
use vorsprung_logger.Base.Int.{ℤ, pos_part, neg_part, ◌+ℤ◌}
use vorsprung_logger.Time.Anchor.{anchor_min_epoch, Anchor, int64, delta_sec, anchor_resolve}
use vorsprung_logger.Time.Session.{Plausible}

-- `delta_sec` rounds down, also below zero.
pub delta_sec_floor :
    (us : ℤ)
    → (pos_part (delta_sec us) * 1000000 + neg_part us
        ≤ pos_part us + neg_part (delta_sec us) * 1000000)
      × (pos_part us + neg_part (delta_sec us) * 1000000
          < pos_part (delta_sec us) * 1000000 + neg_part us + 1000000)
unfolding delta_sec ◌+ℤ◌
delta_sec_floor us = ground arith

-- Ticks of the first 35 years after boot.
abbrev pub IsTick : ℕ → Type 0
IsTick t = t < 2 ^ 50

-- Second `u` of the clock, counted by the anchor, holds tick `t`.
abbrev pub Holds : Anchor → ℕ → ℕ → Type 0
Holds a t u =
    (u * 1000000 + a.tick ≤ a.utc * 1000000 + t)
    × (a.utc * 1000000 + t < u * 1000000 + a.tick + 1000000)

module _ (a : Anchor) (t : ℕ) (isset : a.src ≢ 0) (sound : Plausible a.utc)
    (at_tick : IsTick a.tick) (in_time : IsTick t) where
  -- What a set anchor resolves a tick to is the second that holds it, whichever of the two came
  -- first.
  pub anchor_resolve-Holds :
      (u : ℕ) → anchor_resolve a t ≡ some u → Holds a t u × (anchor_min_epoch ≤ u)
  unfolding anchor_resolve ◌+ℤ◌
  anchor_resolve-Holds u e =
      ground (arith, delta_sec_floor (int64 ((t + u64_mod - a.tick) % u64_mod)))

  -- It answers for each tick in a second of the plausible past or later.
  pub anchor_resolve_total :
      (u : ℕ) → Holds a t u → anchor_min_epoch ≤ u → anchor_resolve a t ≡ some u
  unfolding anchor_resolve ◌+ℤ◌
  anchor_resolve_total u h lo =
      ground (arith, delta_sec_floor (int64 ((t + u64_mod - a.tick) % u64_mod)))
