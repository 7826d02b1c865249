-- ===== src/Time/Session.antt =====
-- A session: the readings offered to the anchor since boot, in order (src/timeanchor.cpp).
use vorsprung_logger.Base.{
  ℕ, ◌+◌, ◌≤◌, ◌<◌, ◌^◌, ◌≡◌, refl, ap, ◌≢◌, ◌⊎◌, inl, inr, Bool, true, false, ◌&&◌, if◌then◌else◌,
  leb, List, [], ◌∷◌, Option, none, some, All, arith,
}
use native.Mathlib.Decide.{dec_lt}
use vorsprung_logger.Time.Anchor.{
  anchor_stale_us, anchor_min_epoch, anchor_max_epoch, Anchor, unset, Reading, anchor_set,
}

abbrev pub offer_all : List Reading → Anchor → Anchor
offer_all [] a = a
offer_all (r ∷ rs) a = offer_all rs (anchor_set r a).anchor

abbrev pub prepend : Option ℕ → List ℕ → List ℕ
prepend none ts = ts
prepend (some t) ts = t ∷ ts

-- The values that a session gives to `settimeofday`.
abbrev pub clock_settings : List Reading → Anchor → List ℕ
clock_settings [] a = []
clock_settings (r ∷ rs) a =
    prepend (anchor_set r a).system_clock (clock_settings rs (anchor_set r a).anchor)

-- A reading names a source, and its tick is one of the first 2 ^ 63.
pub record IsReading (r : Reading) : Type 0 where
  pub named : 1 ≤ r.source
  pub tick_in : r.tick_us < 2 ^ 63

abbrev pub Plausible : ℕ → Type 0
Plausible utc = (anchor_min_epoch ≤ utc) × (utc ≤ anchor_max_epoch)

-- An anchor is unset, or holds a plausible time.
pub record IsAnchor (a : Anchor) : Type 0 where
  pub tick_in : a.tick < 2 ^ 63
  pub utc_in : (a.src ≡ 0) ⊎ Plausible a.utc

pub anchor_set-IsAnchor :
    (r : Reading) (a : Anchor) → IsReading r → IsAnchor a → IsAnchor (anchor_set r a).anchor
unfolding anchor_set
anchor_set-IsAnchor r a hr ha = ground arith

-- Whatever readings arrive, the anchor is unset or holds a plausible time.
offer_all-IsAnchor :
    (rs : List Reading) (a : Anchor) → All IsReading rs → IsAnchor a → IsAnchor (offer_all rs a)
offer_all-IsAnchor [] a h v = v
offer_all-IsAnchor (r ∷ rs) a h v =
    offer_all-IsAnchor rs (anchor_set r a).anchor h.1 (anchor_set-IsAnchor r a h.0 v)

rank_kept :
    (r : Reading) (a : Anchor) (t₀ : ℕ)
    → IsAnchor a
    → t₀ ≤ a.tick
    → t₀ ≤ r.tick_us
    → r.tick_us ≤ t₀ + anchor_stale_us
    → (a.src ≤ (anchor_set r a).anchor.src) × (t₀ ≤ (anchor_set r a).anchor.tick)
unfolding anchor_set
rank_kept r a t₀ v h lo hi = ground arith

-- Within two minutes of the anchor's tick no weaker source takes over: over readings taken in
-- that time, and no earlier than the anchor, the rank of the source never falls.
pub offer_all-rank :
    (rs : List Reading) (a : Anchor) (t₀ : ℕ)
    → All IsReading rs
    → All (λ r. (t₀ ≤ r.tick_us) × (r.tick_us ≤ t₀ + anchor_stale_us)) rs
    → IsAnchor a
    → t₀ ≤ a.tick
    → a.src ≤ (offer_all rs a).src
offer_all-rank [] a t₀ h w v lo = omega arith
offer_all-rank (r ∷ rs) a t₀ h w v lo =
    let kept = rank_kept r a t₀ v lo w.0.0 w.0.1 in
    omega (
      arith,
      kept,
      offer_all-rank rs (anchor_set r a).anchor t₀ h.1 w.1 (anchor_set-IsAnchor r a h.0 v) kept.1,
    )

no_clock_when_set :
    (r : Reading) (a : Anchor)
    → IsReading r
    → a.src ≢ 0
    → ((anchor_set r a).system_clock ≡ none) × ((anchor_set r a).anchor.src ≢ 0)
unfolding anchor_set
no_clock_when_set r a h n = ground arith

no_clock_settings :
    (rs : List Reading) (a : Anchor) → All IsReading rs → a.src ≢ 0 → clock_settings rs a ≡ []
no_clock_settings [] a h n = refl
no_clock_settings (r ∷ rs) a h n =
    let step = no_clock_when_set r a h.0 n in
    rw step.0 (no_clock_settings rs (anchor_set r a).anchor h.1 step.1)

abbrev pub plausible : Reading → Bool
plausible r = leb anchor_min_epoch r.utc_sec && leb r.utc_sec anchor_max_epoch

first_clock :
    (r : Reading)
    → IsReading r
    → ((plausible r ≡ false)
        × ((anchor_set r unset).system_clock ≡ none)
        × ((anchor_set r unset).anchor ≡ unset))
      ⊎ ((plausible r ≡ true)
          × ((anchor_set r unset).system_clock ≡ some r.utc_sec)
          × ((anchor_set r unset).anchor.src ≢ 0))
unfolding anchor_set
first_clock r h = elim (dec_lt r.utc_sec anchor_min_epoch) [
  | yes p ↦ inl (ground arith, ground arith, ground arith)
  | no p ↦ elim (dec_lt anchor_max_epoch r.utc_sec) [
    | yes q ↦ inl (ground arith, ground arith, ground arith)
    | no q ↦ inr (ground arith, ground arith, ground arith)
  ]
]

-- The time of the first plausible reading of a session, if there is one.
abbrev pub first_plausible : List Reading → List ℕ
first_plausible [] = []
first_plausible (r ∷ rs) = if plausible r then r.utc_sec ∷ [] else first_plausible rs

-- A session from boot sets the system clock at most once, to its first plausible reading.
pub clock_settings_once :
    (rs : List Reading) → All IsReading rs → clock_settings rs unset ≡ first_plausible rs
clock_settings_once [] h = refl
clock_settings_once (r ∷ rs) h = elim (first_clock r h.0) [
  | inl (p, clock, kept) ↦ rw (p, clock, kept) (clock_settings_once rs h.1)
  | inr (p, clock, isset) ↦
      rw (p, clock)
        (ap (λ ts. r.utc_sec ∷ ts) (no_clock_settings rs (anchor_set r unset).anchor h.1 isset))
]
