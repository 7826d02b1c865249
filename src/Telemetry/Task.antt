-- ===== src/Telemetry/Task.antt =====
-- The state of the task `telemetry` of src/main.cpp, and `initCell`.
use vorsprung_logger.Base.{
  ℕ, zero, suc, ◌*◌, Bool, true, false, not, ltb, ◌&&◌, if◌then◌else◌, List, [], ◌∷◌, Option, none,
  some, length, sub32,
}
use vorsprung_logger.Base.Int.{ℤ}
use vorsprung_logger.Time.Anchor.{anchor_set, time_src_modem}
use vorsprung_logger.Store.{Store}
use vorsprung_logger.Store.Floats.{Format}
use vorsprung_logger.Slots.{Slots}
use vorsprung_logger.Spool.{World}
use vorsprung_logger.Spool.Media.{Card}
use vorsprung_logger.Client.{Cell, Device, Client}
use vorsprung_logger.Client.Connect.{connect}
use vorsprung_logger.Client.NetworkTime.{network_time}
use vorsprung_logger.Telemetry.Flags.{net_ready, cell_connected, working, Flags, check, set, clear}
use vorsprung_logger.Telemetry.Queue.{spool_queued}

-- What stays the same: the card, the modem, the text of a float, the boot identifier, and the stack
-- memory that `notify` finds.
pub record Setting : Type 1 where
  pub card : Card
  pub cell : Cell
  pub show : Format → ℕ → List ℕ
  pub boot : ℕ
  pub memory : List ℕ

module _ (g : Setting) where
  open g use {card, cell, show, boot, memory}

  -- The globals that the task works on, and its own variables.
  pub record Task : Type 0 where
    pub flags : Flags
    pub slots : Slots
    pub world : World card
    pub store : Store
    pub client : Client cell
    pub device : Device
    pub device_temp : ℤ
    pub timeouts_net : ℕ
    pub conn_errors : ℕ
    pub last_rssi_time : ℕ

  abbrev pub now : Task → ℕ
  now t = cell.millis t.client.net

  -- `millis() - since`
  abbrev pub elapsed : ℕ → Task → ℕ
  elapsed since t = sub32 (now t) since

  abbrev pub with_net : cell.Net → Task → Task
  with_net net t = record t { client = record (t.client) { net = net } }

  -- The modem's own clock goes to the anchor.
  abbrev take_network_time : Option ℕ → Client cell → Client cell
  take_network_time none u = u
  take_network_time (some utc) u = record u {
    anchor =
        (anchor_set (record { source = time_src_modem; utc_sec = utc; tick_us = cell.ticks u.net })
          u.anchor).anchor;
  }

  -- `initCell`
  unfoldable pub init_cell : Task → Bool × Task
  init_cell t =
      let (begun, net₁) = cell.begin t.client.net in
      let (_, net₂) = cell.check_sim net₁ in
      let (registered, net₃) = cell.setup net₂ in
      let (netop, net₄) = cell.operator_name net₃ in
      let (utc, net₅) = network_time cell net₄ in
      let (ip, net₆) = cell.address net₅ in
      let timed = take_network_time utc (record (t.client) { net = net₅ }) in
      let up : Task = record t {
        client = record timed { net = net₆ };
        flags = set (cell_connected ∷ []) t.flags;
        timeouts_net = 0;
      } in
      let down = record (with_net net₃ t) { timeouts_net = 0 } in
      if not begun
      then (false, with_net net₁ t)
      else if registered
      then (check (cell_connected ∷ []) up.flags, up)
      else (check (cell_connected ∷ []) down.flags, down)

  -- `spoolQueuedBuffers(store)`
  unfoldable pub spool_all : Task → Task
  spool_all t =
      let q =
        spool_queued card show t.device.devid t.client.anchor boot (length t.slots.slots)
          (record { slots = t.slots; out = (t.world, t.store) }) in
      record t { slots = q.slots; world = q.out.0; store = q.out.1 }

  -- The modem is switched off.
  abbrev pub deactivate : Task → Task
  deactivate t = record (with_net (cell.end t.client.net) t) {
    flags = clear (net_ready ∷ cell_connected ∷ []) t.flags;
  }

  -- The wait of three minutes after a failed connection, at most `fuel` rounds of a second.
  unfoldable pub back_off : ℕ → ℕ → Task → Task
  back_off zero since t = t
  back_off (suc fuel) since t =
      let t' = spool_all t in
      let t' = with_net (cell.delay 1000 t'.client.net) t' in
      let rest = back_off fuel since t' in
      if check (working ∷ []) t'.flags && ltb (elapsed since t') (60000 * 3) then rest else t'

  -- `teleClient.connect()`
  abbrev pub connect_full : Task → Bool × Task
  connect_full t =
      let (success, u) = connect cell false t.device memory t.client in
      (success, record t { client = u })

  -- The first part of the loop's body: the link is made if there is none. `false` leaves the loop.
  unfoldable pub ensure_link : Task → Bool × Task
  ensure_link t =
      let t₁ = spool_all (record t { conn_errors = 0 }) in
      let (up, t₂) = init_cell t₁ in
      let (connected, t₃) = connect_full t₂ in
      let failed : Task = deactivate (if up then t₃ else t₂) in
      if check (cell_connected ∷ []) t.flags
      then (true, t)
      else if up && connected
      then (true, record t₃ { flags = set (net_ready ∷ []) t₃.flags })
      else (false, back_off 180 (now failed) failed)
