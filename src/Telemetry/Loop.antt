-- ===== src/Telemetry/Loop.antt =====
-- The loops of `telemetry` (src/main.cpp), one round at a time. What the other task does between two
-- rounds is a change of the state that the next one starts from.
use vorsprung_logger.Base.{
  ℕ, ◌+◌, ◌*◌, ◌%◌, Bool, true, false, not, ltb, leb, ◌&&◌, if◌then◌else◌, List, [], ◌∷◌, Option,
  none, some, get_elem?, u8_mod, u32_mod,
}
use vorsprung_logger.Base.Int.{ℤ, pos, ltb_ℤ}
use vorsprung_logger.Store as St
use vorsprung_logger.Store.{Store}
use vorsprung_logger.Buffer.{Buffer}
use vorsprung_logger.Slots as Sl
use vorsprung_logger.Slots.{Slots, free, get_newest}
use vorsprung_logger.Spool.{end_outage, close_for_standby}
use vorsprung_logger.Spool.Drain.{drain_one_record}
use vorsprung_logger.Client.{Client, transmit, shutdown}
use vorsprung_logger.Client.Connect.{reset, connect, ping, inbound}
use vorsprung_logger.Telemetry.Flags.{net_ready, cell_connected, working, standby, check, clear}
use vorsprung_logger.Telemetry.Packet.{build_packet}
use vorsprung_logger.Telemetry.Queue.{spool_packet}
use vorsprung_logger.Telemetry.Task.{
  Setting, Task, now, elapsed, with_net, init_cell, deactivate, connect_full, ensure_link,
}

abbrev pub max_conn_errors_reconnect : ℕ
max_conn_errors_reconnect = 5

abbrev pub signal_check_interval : ℕ
signal_check_interval = 10

abbrev pub sync_interval : ℕ
sync_interval = 120 * 1000

abbrev pub cooling_down_temp : ℤ
cooling_down_temp = pos 75

module _ (g : Setting) where
  open g use {card, cell, show, boot, memory}

  -- The signal strength, every ten seconds.
  unfoldable pub check_signal : Task g → Task g
  check_signal t =
      let (rssi, net') = cell.signal t.client.net in
      let t' = record (with_net g net' t) { device = record (t.device) { rssi = rssi } } in
      if ltb (signal_check_interval * 1000) (elapsed g t.last_rssi_time t)
      then record t' { last_rssi_time = now g t' }
      else t

  -- The client behind a drain: `transmit` was called for the packet tried.
  abbrev sent_by : Option (List ℕ) → Client cell → Client cell
  sent_by none u = u
  sent_by (some packet) u = (transmit cell packet u).1

  -- No live record: one record of the spool, and a short wait.
  unfoldable pub drain_turn : Task g → Task g
  drain_turn t =
      let d =
        drain_one_record card t.client.anchor boot (λ packet. (transmit cell packet t.client).0)
          t.world t.store in
      let t' = record t { world = d.world; store = d.store; client = sent_by d.tried t.client } in
      with_net g (cell.delay (if d.result then 100 else 50) t'.client.net) t'

  -- A live packet that went out.
  abbrev sent : Task g → Task g
  sent t = record t { conn_errors = 0; world = end_outage card t.world }

  -- A live packet that did not go out is spooled, and the socket opened anew.
  abbrev unsent : Bool → List ℕ → ℕ → Task g → Task g
  unsent stamped packet tick t =
      let errors = (t.conn_errors + 1) % u8_mod in
      let (_, u) = connect cell true t.device memory t.client in
      record t {
        timeouts_net = (t.timeouts_net + 1) % u32_mod;
        conn_errors = errors;
        world = spool_packet card boot stamped packet tick t.world;
        client = if ltb errors max_conn_errors_reconnect then u else t.client;
      }

  -- A live record: packed, its slot freed, and sent or spooled.
  unfoldable pub live_turn : ℕ → Buffer → Slots → Task g → Task g
  live_turn i b m t =
      let (stamped, built) = build_packet show t.device.devid t.client.anchor b t.store in
      let (done, u) = transmit cell built.text t.client in
      let t' = record t { slots = free i m; store = built; client = u } in
      let t' : Task g = if done then sent t' else unsent stamped built.text b.tick t' in
      record t' { store = St.purge t'.store }

  -- The checks behind a live record. `false` leaves the loop.
  unfoldable pub poor_sync : Task g → Task g
  poor_sync t =
      let (success, t') =
        connect_full g (record t { timeouts_net = (t.timeouts_net + 1) % u32_mod }) in
      if ltb 10000 sync_interval && ltb sync_interval (elapsed g t.client.last_sync_time t)
      then (if success then t' else record t' { conn_errors = (t'.conn_errors + 1) % u8_mod })
      else t

  unfoldable pub cool_down : Task g → Task g
  cool_down t =
      if ltb_ℤ t.device_temp cooling_down_temp then t else record t { slots = Sl.purge t.slots }

  unfoldable pub after_live : Task g → Bool × Task g
  after_live t =
      let t₁ = record t { client = inbound cell t.client } in
      let (alive, net') = cell.check t₁.client.net in
      let connected = check (cell_connected ∷ []) t₁.flags in
      let t₂ : Task g = if connected then with_net g net' t₁ else t₁ in
      let t₃ = poor_sync t₂ in
      if connected && not alive
      then (false, record t₂ { flags = clear (net_ready ∷ cell_connected ∷ []) t₂.flags })
      else if leb max_conn_errors_reconnect t₃.conn_errors && check (cell_connected ∷ []) t₃.flags
      then (false, deactivate g t₃)
      else (true, cool_down t₃)

  -- The slot that `getNewest` locked.
  unfoldable pub take_newest : Option ℕ → Slots → Task g → Bool × Task g
  take_newest none m t = (true, drain_turn t)
  take_newest (some i) m t = elim (get_elem? m.slots i) [
    | none ↦ (true, t)
    | some b ↦ after_live (live_turn i b m t)
  ]

  -- A round of the loop `while (state.check(STATE_WORKING))`. `false` leaves it.
  unfoldable pub working_turn : Task g → Bool × Task g
  working_turn t =
      let (linked, t₁) = ensure_link g t in
      let t₂ = check_signal t₁ in
      let (found, m) = get_newest t₂.slots in
      if not (check (working ∷ []) t.flags)
      then (false, t)
      else if not linked
      then (false, t₁)
      else take_newest found m t₂

  -- The link is closed, the spool's files are closed, and the slots emptied.
  unfoldable pub enter_standby : Task g → Task g
  enter_standby t =
      let u : Client cell =
        if check (cell_connected ∷ []) t.flags
        then shutdown cell t.device memory t.client
        else t.client in
      record t {
        client = reset cell u;
        device =
            if check (cell_connected ∷ []) t.flags
            then record (t.device) { rssi = 0 }
            else t.device;
        flags = clear (net_ready ∷ cell_connected ∷ []) t.flags;
        world = close_for_standby card t.world;
        slots = Sl.purge t.slots;
      }

  -- The ping at the end of the quarter of an hour.
  unfoldable pub ping_back : Task g → Task g
  ping_back t =
      let (up, t₁) = init_cell g t in
      let t₂ : Task g =
        if up then record t₁ { client = (ping cell t₁.device memory t₁.client).1 } else t₁ in
      record t₂ {
        client = shutdown cell t₂.device memory t₂.client;
        flags = clear (cell_connected ∷ []) t₂.flags;
      }

  -- A round of the outer loop in standby. `waited` is the state behind the wait, which the other
  -- task may have ended.
  unfoldable pub standby_turn : (Task g → Task g) → Task g → Task g
  standby_turn waited t =
      let t' = waited (enter_standby t) in
      if check (standby ∷ []) t'.flags then ping_back t' else t'
