-- ===== src/Examples/Receivers.antt =====
-- A receiver that always begins again, with a clock and the list of its shutdowns.
use vorsprung_logger.Base.{ℕ, ◌+◌, ◌≡◌, refl, Bool, true, false, List, [], ◌∷◌}
use vorsprung_logger.Gnss.{gnss_src_external, Receiver, Gnss, init_gps, restart, watch}
use vorsprung_logger.Gnss.Watchdog.{IsLog, without_fix}

pub record Module : Type 0 where
  pub time : ℕ
  pub ends : List Bool

abbrev steady_module : Receiver
steady_module = record {
  Sys = Module;
  gps_begin_ext = λ sys. (true, sys);
  gps_begin = λ sys. (true, sys);
  gps_end = λ cut sys. record sys { ends = cut ∷ sys.ends };
  buzzer = λ frequency sys. sys;
  delay = λ ms sys. record sys { time = sys.time + ms };
  millis = λ sys. sys.time;
}

ends-IsLog : IsLog steady_module (λ sys. sys.ends)
ends-IsLog = record {
  ended = λ cut sys. refl;
  begun_ext = λ sys. refl;
  begun = λ sys. refl;
  buzzed = λ frequency sys. refl;
  waited = λ ms sys. refl;
}

abbrev fixed : Gnss steady_module
fixed = record {
  source = gnss_src_external;
  last_gps_tick = 1000;
  resets = 0;
  flags = λ f. true;
  sys = record { time = 1000; ends = [] };
}

-- Six minutes go by.
abbrev six_minutes : Module → Module
six_minutes sys = record sys { time = sys.time + 360000 }

two_restarts :
    (without_fix steady_module
      (λ sys. sys.ends)
      ends-IsLog
      (six_minutes ∷ six_minutes ∷ [])
      fixed).sys.ends
    ≡ true ∷ false ∷ []
unfolding watch restart init_gps
two_restarts = refl
