-- ===== src/Time/Anchor.antt =====
-- The UTC anchor of src/timeanchor.cpp: "at tick M the clock read T". The lock round each access
-- makes it one step, so the three static variables are one record. A tick is a uint64_t of
-- microseconds, an epoch a uint32_t of seconds.
use vorsprung_logger.Base.{
  ℕ, ◌+◌, ◌-◌, ◌*◌, ◌%◌, ◌^◌, Bool, true, false, not, ◌||◌, ltb, leb, ◌==◌, if◌then◌else◌, Option,
  none, some, u32_mod, u64_mod,
}
use vorsprung_logger.Base.Int.{ℤ, pos, negsuc, pos_part, ◌+ℤ◌, ltb_ℤ, quot_ℤ, rem_ℤ}

abbrev pub time_src_none : ℕ
time_src_none = 0

abbrev pub time_src_modem : ℕ
time_src_modem = 1

abbrev pub time_src_server : ℕ
time_src_server = 2

abbrev pub time_src_gps : ℕ
time_src_gps = 3

abbrev pub anchor_stale_us : ℕ
anchor_stale_us = 120 * 1000000

abbrev pub anchor_min_epoch : ℕ
anchor_min_epoch = 1735689600

abbrev pub anchor_max_epoch : ℕ
anchor_max_epoch = 2524608000

pub record Anchor : Type 0 where
  pub src : ℕ
  pub utc : ℕ
  pub tick : ℕ

-- The static variables at boot.
abbrev pub unset : Anchor
unset = record { src = time_src_none; utc = 0; tick = 0 }

-- A UTC reading of a source, taken at a tick.
pub record Reading : Type 0 where
  pub source : ℕ
  pub utc_sec : ℕ
  pub tick_us : ℕ

-- What `timeAnchorSet` leaves: the anchor, its result, and the time it gives to `settimeofday`.
pub record Offer : Type 0 where
  pub anchor : Anchor
  pub accepted : Bool
  pub system_clock : Option ℕ

-- `timeAnchorSet`, but for the line that it prints at a handover.
unfoldable pub anchor_set : Reading → Anchor → Offer
anchor_set r a =
    if ltb r.utc_sec anchor_min_epoch || ltb anchor_max_epoch r.utc_sec
    then record { anchor = a; accepted = false; system_clock = none }
    else if leb a.src r.source || ltb ((a.tick + anchor_stale_us) % u64_mod) r.tick_us
    then record {
      anchor = record { src = r.source; utc = r.utc_sec; tick = r.tick_us };
      accepted = true;
      system_clock = if a.src == time_src_none then some r.utc_sec else none;
    }
    else record { anchor = a; accepted = false; system_clock = none }

unfoldable pub anchor_is_set : Anchor → Bool
anchor_is_set a = not (a.src == time_src_none)

-- A 64-bit word read as an int64_t.
abbrev pub int64 : ℕ → ℤ
int64 w = if ltb w (2 ^ 63) then pos w else negsuc (u64_mod - w - 1)

-- Whole seconds of a microsecond difference, rounded down.
unfoldable pub delta_sec : ℤ → ℤ
delta_sec us =
    if ltb_ℤ (rem_ℤ us 1000000) (pos 0) then quot_ℤ us 1000000 +ℤ negsuc 0 else quot_ℤ us 1000000

-- `timeAnchorResolve`. Past the test `sec` is positive, so `pos_part` is its value.
unfoldable pub anchor_resolve : Anchor → ℕ → Option ℕ
anchor_resolve a tick_us =
    if a.src == time_src_none
    then none
    else let delta_us = int64 ((tick_us + u64_mod - a.tick) % u64_mod) in
      let sec = pos a.utc +ℤ delta_sec delta_us in
      if ltb_ℤ sec (pos anchor_min_epoch) then none else some (pos_part sec % u32_mod)
