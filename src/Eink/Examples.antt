-- ===== src/Eink/Examples.antt =====
-- firmware/src/eink.rs: three rounds of which one refreshes the panel.
use cydrust.Prelude.{ℕ, refl, true, false, none, List, [], ◌∷◌, ◌++◌, ◌==◌, arith}
use cydrust.Prelude.Int.{pos, negsuc}
use cydrust.Proto.Model.{Bytes, Usage, DisplayState}
use cydrust.Eink.{Eink, Input, current}
use cydrust.Eink.Refresh.{Glass, drive_all, Shows, run-Shows}
use cydrust.Eink.Spaced.{refreshes, AreSpaced, refreshes-AreSpaced}

abbrev no_usage : Usage ℕ
no_usage = record {
  ok = false;
  pct = 0;
  reset_sec = 0;
  week_pct = 0;
  week_reset_sec = negsuc 0;
  will_exhaust = false;
  burn_per_hr = 0;
  leftover_pct = 0;
  eta_clock = [];
}

abbrev quiet : DisplayState ℕ
quiet = record {
  sessions = [];
  claude = no_usage;
  codex = no_usage;
  metrics = record {
    models = [];
    total_tokens = 0;
    total_usd = 0;
    has_usd = false;
    usd_complete = false;
    total_sessions = pos 0;
    dropped_models = 0;
  };
  offline = false;
  dropped_sessions = 0;
}

-- a round that begins at a time and ends three seconds later
abbrev at_time : ℕ → ℕ → Input ℕ
at_time now after = record {
  shared = quiet;
  last_rx = 5000;
  now = now;
  after = after;
  updates = true;
}

abbrev started : Eink ℕ
started = record { prev = none; last_refresh = 1000 }

abbrev show : ℕ → Bytes
show n = []

abbrev rounds : List (Input ℕ)
rounds = at_time 45_000 45_000 ∷ at_time 46_000 49_000 ∷ []

abbrev blank : Glass
blank = record { frame = none; displayed = none }

run-Shows_example :
    Shows ◌==◌ show
      (drive_all ◌==◌ show (rounds ++ at_time 50_000 50_000 ∷ []) started blank)
      (current (at_time 50_000 50_000))
unfolding current
run-Shows_example =
    run-Shows ◌==◌ show started blank rounds (at_time 50_000 50_000) (refl, (refl, tt))
      (refl, (refl, (refl, tt))) (omega arith) tt

refreshes-AreSpaced_example : AreSpaced 1000 (refreshes ◌==◌ show rounds started)
refreshes-AreSpaced_example =
    refreshes-AreSpaced ◌==◌ show rounds started (omega arith, (omega arith, tt))
