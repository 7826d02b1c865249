-- ===== src/Telemetry/Link.antt =====
-- The flags of the link over the rounds of `telemetry` (src/main.cpp).
use vorsprung_logger.Base.{
  ℕ, zero, suc, ◌≡◌, refl, inl, inr, true, false, not, ◌||◌, Bool-cases, Option-cases, Option, none,
  some, get_elem?, arith,
}
use vorsprung_logger.Buffer.{Buffer}
use vorsprung_logger.Slots.{Slots}
use vorsprung_logger.Telemetry.Flags.{net_ready, cell_connected, working, Flags}
use vorsprung_logger.Telemetry.Task.{
  Setting, Task, now, init_cell, spool_all, deactivate, back_off, ensure_link, with_net,
  connect_full,
}
use vorsprung_logger.Telemetry.Loop.{
  check_signal, drain_turn, live_turn, poor_sync, cool_down, after_live, take_newest, working_turn,
}

-- The server's flag is never set without that of the modem.
abbrev pub IsLink : Flags → Type 0
IsLink s = (not (s net_ready) || s cell_connected) ≡ true

module _ (g : Setting) where
  flags-spool_all : (t : Task g) → (spool_all g t).flags ≡ t.flags
  unfolding spool_all
  flags-spool_all t = refl

  flags-back_off : (fuel since : ℕ) (t : Task g) → (back_off g fuel since t).flags ≡ t.flags
  unfolding back_off
  flags-back_off zero since t = refl
  flags-back_off (suc fuel) since t =
      let t' = spool_all g t in
      let u = with_net g (g.cell.delay 1000 t'.client.net) t' in
      ground (arith, flags-back_off fuel since u, flags-spool_all t)

  init_cell-IsLink : (t : Task g) → IsLink t.flags → IsLink (init_cell g t).1.flags
  unfolding init_cell
  init_cell-IsLink t h = ground arith

  init_cell-connected :
      (t : Task g) → (init_cell g t).0 ≡ true → (init_cell g t).1.flags cell_connected ≡ true
  unfolding init_cell
  init_cell-connected t h = ground arith

  ensure_link-IsLink : (t : Task g) → IsLink t.flags → IsLink (ensure_link g t).1.flags
  unfolding ensure_link
  ensure_link-IsLink t h =
      let t₁ = spool_all g (record t { conn_errors = 0 }) in
      let t₂ = (init_cell g t₁).1 in
      elim (Bool-cases (t.flags cell_connected)) [
        | inl up ↦ rw up h
        | inr no_link ↦ elim (Bool-cases (init_cell g t₁).0) [
          | inr a ↦ rw (no_link, a) (failed (deactivate g t₂) refl)
          | inl a ↦ elim (Bool-cases (connect_full g t₂).0) [
            | inr b ↦ rw (no_link, a, b) (failed (deactivate g (connect_full g t₂).1) refl)
            | inl b ↦ rw (no_link, a, b) (init_cell-connected t₁ a)
          ]
        ]
      ]
    where
      failed : (u : Task g) → u.flags net_ready ≡ false → IsLink (back_off g 180 (now g u) u).flags
      failed u off = rw (flags-back_off 180 (now g u) u, off) refl

  flags-check_signal : (t : Task g) → (check_signal g t).flags ≡ t.flags
  unfolding check_signal
  flags-check_signal t = ground arith

  flags-live_turn :
      (i : ℕ) (b : Buffer) (m : Slots) (t : Task g) → (live_turn g i b m t).flags ≡ t.flags
  unfolding live_turn
  flags-live_turn i b m t = ground arith

  after_live-IsLink : (t : Task g) → IsLink t.flags → IsLink (after_live g t).1.flags
  unfolding after_live poor_sync cool_down
  after_live-IsLink t h = ground arith

  flags-drain_turn : (t : Task g) → (drain_turn g t).flags ≡ t.flags
  unfolding drain_turn
  flags-drain_turn t = refl

  take_newest-IsLink :
      (o : Option ℕ) (m : Slots) (t : Task g)
      → IsLink t.flags
      → IsLink (take_newest g o m t).1.flags
  unfolding take_newest
  take_newest-IsLink none m t h = rw (flags-drain_turn t) h
  take_newest-IsLink (some i) m t h = elim (Option-cases (get_elem? m.slots i)) [
    | inl e ↦ rw (e, take_newest) h
    | inr (b, e) ↦
        rw (e, take_newest)
          (after_live-IsLink (live_turn g i b m t) (rw (flags-live_turn i b m t) h))
  ]

  -- Over a round of the working loop, whatever the network does, the server counts as reached only
  -- while the modem counts as connected.
  pub working_turn-IsLink : (t : Task g) → IsLink t.flags → IsLink (working_turn g t).1.flags
  unfolding working_turn
  working_turn-IsLink t h = elim (Bool-cases (t.flags working)) [
    | inr w ↦ rw w h
    | inl w ↦ elim (Bool-cases (ensure_link g t).0) [
      | inr l ↦ rw (w, l) (ensure_link-IsLink t h)
      | inl l ↦
          rw (w, l)
            (take_newest-IsLink _ _ (check_signal g (ensure_link g t).1)
              (rw (flags-check_signal (ensure_link g t).1) (ensure_link-IsLink t h)))
    ]
  ]
