-- ===== src/Process/Startup.antt =====
-- What `initialize` and `setup` of src/main.cpp leave for the cycles.
use vorsprung_logger.Base.{
  ℕ, ◌≡◌, refl, sym, inl, inr, false, ◌==◌, if◌then◌else◌, Bool-cases, List, [], ◌∷◌, Option, none,
  some,
}
use mathlib.Core.Path.{subst}
use mathlib.Core.Option.{some-injective, none-ne-some}
use vorsprung_logger.Slots.{Slots, init, purge}
use vorsprung_logger.Slots.Clear.{AllClear, map-purge-AllClear}
use vorsprung_logger.Telemetry.Flags.{storage_ready, obd_ready, gps_ready, mems_ready, check}
use vorsprung_logger.Uds.Decode.{FloatOps}
use vorsprung_logger.Obd.Tiers.{IsTable, IsIdx}
use vorsprung_logger.Identity.{vin_is_valid}
use vorsprung_logger.Identity.Vin.{vin_is_valid-take}
use vorsprung_logger.Process.Board.{Board}
use vorsprung_logger.Process.Parts.{Logger}
use vorsprung_logger.Process.Room.{IsLogger}
use vorsprung_logger.Process.Whole.{IsReady}
use vorsprung_logger.Process.Task.{
  calibrate, begin_gnss, begin_engine, begin_storage, keep_vin, identify, initialize, load_config,
  begin_flash, begin_link, begin_mems, set_up, with_flash, setup,
}

module _ (f : FloatOps) (board : Board f) where
  open board use {Hw, obd_init, get_vin}

  begin_gnss-IsLogger :
      {m : Slots} (s : Logger f board)
      → IsLogger f board m s
      → IsLogger f board m (begin_gnss f board s)
  unfolding begin_gnss
  begin_gnss-IsLogger s good = elim (Bool-cases (check (gps_ready ∷ []) s.flags)) [
    | inl e ↦ rw e good
    | inr e ↦ rw e (record { table = good.table; idx = good.idx; at = good.at; named = good.named })
  ]

  begin_engine-IsLogger :
      {m : Slots} (s : Logger f board)
      → IsLogger f board m s
      → IsLogger f board m (begin_engine f board s)
  unfolding begin_engine
  begin_engine-IsLogger s good = elim (Bool-cases (check (obd_ready ∷ []) s.flags)) [
    | inl e ↦ rw e good
    | inr e ↦ elim (Bool-cases (obd_init false s.hw).0) [
      | inl o ↦
          rw (e, o)
            (record { table = good.table; idx = good.idx; at = good.at; named = good.named })
      | inr o ↦
          rw (e, o)
            (record { table = good.table; idx = good.idx; at = good.at; named = good.named })
    ]
  ]

  begin_storage-IsLogger :
      {m : Slots} (s : Logger f board)
      → IsLogger f board m s
      → IsLogger f board m (begin_storage f board s)
  unfolding begin_storage
  begin_storage-IsLogger s good = elim (Bool-cases (check (storage_ready ∷ []) s.flags)) [
    | inl e ↦ rw e good
    | inr e ↦ rw e (record { table = good.table; idx = good.idx; at = good.at; named = good.named })
  ]

  keep_vin-IsLogger :
      {m : Slots} (o : Option (List ℕ)) (s : Logger f board)
      → IsLogger f board m s
      → IsLogger f board m (keep_vin f board o s)
  keep_vin-IsLogger none s good = good
  keep_vin-IsLogger (some buf) s good = elim (Bool-cases (vin_is_valid buf)) [
    | inr e ↦ rw e good
    | inl e ↦ rw e (record {
      table = good.table;
      idx = good.idx;
      at = good.at;
      named = inr (vin_is_valid-take buf e);
    })
  ]

  identify-IsLogger :
      {m : Slots} (s : Logger f board)
      → IsLogger f board m s
      → IsLogger f board m (identify f board s)
  unfolding identify
  identify-IsLogger s good =
      let kept = keep_vin-IsLogger (get_vin s.hw).0 s good in
      elim (Bool-cases (check (obd_ready ∷ []) s.flags)) [
        | inr e ↦ rw e good
        | inl e ↦
            rw e (record { table = kept.table; idx = kept.idx; at = kept.at; named = kept.named })
      ]

  -- With the slots emptied, `initialize` begins.
  pub initialize-IsReady :
      {m : Slots} (fuel : ℕ) (s : Logger f board)
      → IsLogger f board m s
      → IsReady f board (initialize f board fuel s)
  unfolding initialize purge
  initialize-IsReady fuel s good =
      let s₁ : Logger f board = record s { slots = purge s.slots } in
      let first : IsLogger f board s₁.slots s₁ = record {
        table = good.table;
        idx = good.idx;
        at = refl;
        named = good.named;
      } in
      let second : IsLogger f board s₁.slots
          (if check (mems_ready ∷ []) s₁.flags then calibrate f board fuel s₁ else s₁) =
        elim (Bool-cases (check (mems_ready ∷ []) s₁.flags)) [
          | inl e ↦
              rw e (record {
                table = first.table;
                idx = first.idx;
                at = first.at;
                named = first.named;
              })
          | inr e ↦ rw e first
        ] in
      let last =
        identify-IsLogger _
          (begin_storage-IsLogger _ (begin_engine-IsLogger _ (begin_gnss-IsLogger _ second))) in
      record {
        logger = record { table = last.table; idx = last.idx; at = refl; named = last.named };
        clear =
            subst (λ (m : Slots). AllClear m.slots) (sym last.at)
              (map-purge-AllClear (λ b. b) s.slots.slots);
      }

  -- The memory at boot: the globals, and what lies behind the table.
  pub record IsBoot (s : Logger f board) : Type 0 where
    pub table : IsTable s.cells
    pub idx : IsIdx s.idx
    pub unnamed : s.vin ≡ []

  begin_link-IsLogger :
      {m : Slots} (s : Logger f board)
      → IsLogger f board m s
      → IsLogger f board m (begin_link f board s)
  unfolding begin_link
  begin_link-IsLogger s good = elim (Bool-cases (board.sys_begin s.hw).0) [
    | inl e ↦ rw e (record { table = good.table; idx = good.idx; at = good.at; named = good.named })
    | inr e ↦ rw e (record { table = good.table; idx = good.idx; at = good.at; named = good.named })
  ]

  begin_mems-IsLogger :
      {m : Slots} (s : Logger f board)
      → IsLogger f board m s
      → IsLogger f board m (begin_mems f board s)
  unfolding begin_mems
  begin_mems-IsLogger s good =
      let (first, hw') = board.icm_42627_begin s.hw in
      elim (Bool-cases (check (mems_ready ∷ []) s.flags)) [
        | inl e ↦ rw e good
        | inr e ↦ elim (Bool-cases first) [
          | inl o ↦
              rw (e, o)
                (record { table = good.table; idx = good.idx; at = good.at; named = good.named })
          | inr o ↦ elim (Bool-cases (board.icm_20948_begin hw').0) [
            | inl p ↦
                rw (e, o, p)
                  (record { table = good.table; idx = good.idx; at = good.at; named = good.named })
            | inr p ↦
                rw (e, o, p)
                  (record { table = good.table; idx = good.idx; at = good.at; named = good.named })
          ]
        ]
      ]

  load_config-IsLogger :
      {m : Slots} (s : Logger f board)
      → IsLogger f board m s
      → IsLogger f board m (load_config f board s)
  unfolding load_config
  load_config-IsLogger s good = record {
    table = good.table;
    idx = good.idx;
    at = good.at;
    named = good.named;
  }

  set_up-IsReady :
      (fuel : ℕ) (s : Logger f board) → IsBoot s → IsReady f board (set_up f board fuel s)
  unfolding set_up
  set_up-IsReady fuel s boot =
      let (err, hw') = board.nvs_open s.hw in
      let s₁ : Logger f board = record s { hw = hw' } in
      let first : IsLogger f board s₁.slots s₁ = record {
        table = boot.table;
        idx = boot.idx;
        at = refl;
        named = inl boot.unnamed;
      } in
      let second : IsLogger f board s₁.slots (if err == 0 then load_config f board s₁ else s₁) =
        elim (Bool-cases (err == 0)) [
          | inl e ↦ rw e (load_config-IsLogger s₁ first)
          | inr e ↦ rw e first
        ] in
      let last = begin_mems-IsLogger _ (
        begin_link-IsLogger {m = init (board.blocks _)} _
          (record { table = second.table; idx = second.idx; at = refl; named = second.named })) in
      initialize-IsReady fuel _
        (record { table = last.table; idx = last.idx; at = last.at; named = last.named })

  with_flash-IsReady :
      (fuel : ℕ) (o : Option Hw) (s t : Logger f board)
      → IsBoot s
      → with_flash f board fuel s o ≡ some t
      → IsReady f board t
  with_flash-IsReady fuel none s t boot runs = absurd (none-ne-some t runs)
  with_flash-IsReady fuel (some hw') s t boot runs =
      let s' : Logger f board = record s { hw = hw' } in
      subst (IsReady f board) (some-injective (set_up f board fuel s') t runs) (
        set_up-IsReady fuel s'
          (record { table = boot.table; idx = boot.idx; unnamed = boot.unnamed }))

  pub setup-IsReady :
      (fuel : ℕ) (s t : Logger f board)
      → IsBoot s
      → setup f board fuel s ≡ some t
      → IsReady f board t
  unfolding setup
  setup-IsReady fuel s t boot runs =
      with_flash-IsReady fuel (begin_flash f board (board.delay 500 s.hw)) s t boot runs
