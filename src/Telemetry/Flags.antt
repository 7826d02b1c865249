-- ===== src/Telemetry/Flags.antt =====
-- The class `State` of src/main.cpp: a word of flags that both tasks read and write.
use vorsprung_logger.Base.{ℕ, Bool, true, false, not, ◌==◌, ◌&&◌, ◌||◌, List, [], ◌∷◌}

pub data Flag : Type 0 where
  storage_ready obd_ready gps_ready mems_ready net_ready gps_online cell_connected working standby :
      Flag

-- The mask of a flag.
abbrev pub mask : Flag → ℕ
mask storage_ready = 0x1
mask obd_ready = 0x2
mask gps_ready = 0x4
mask mems_ready = 0x8
mask net_ready = 0x10
mask gps_online = 0x20
mask cell_connected = 0x40
mask working = 0x100
mask standby = 0x200

-- `m_state`, as the bits that are set in it.
abbrev pub Flags : Type 0
Flags = Flag → Bool

abbrev pub among : Flag → List Flag → Bool
among f [] = false
among f (g ∷ gs) = mask f == mask g || among f gs

-- `check`, `set` and `clear` of flags that are joined by `|`.
abbrev pub check : List Flag → Flags → Bool
check [] s = true
check (f ∷ fs) s = s f && check fs s

abbrev pub set : List Flag → Flags → Flags
set fs s f = among f fs || s f

abbrev pub clear : List Flag → Flags → Flags
clear fs s f = not (among f fs) && s f
