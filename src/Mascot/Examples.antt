-- ===== src/Mascot/Examples.antt =====
-- firmware/src/mascot.rs: single states and delays.
use cydrust.Prelude.{ℕ, ◌≡◌, ◌↔◌, refl, false, List, [], ◌∷◌}
use cydrust.Prelude.Int.{pos, negsuc}
use cydrust.Proto.Model.{SessionStatus, working, idle, SessionRow, Usage, DisplayState}
use cydrust.Mascot.{mood_for, building, juggling}
use cydrust.Mascot.Ladder.{Shows, mood_for_iff}

abbrev pub row : SessionStatus → ℕ → SessionRow
row st age = record {
  project = [];
  status = st;
  tool = [];
  id = [];
  age_sec = pos age;
  wait_sec = negsuc 0;
  summary = [];
}

abbrev no_usage : Usage ℕ
no_usage = record {
  ok = false;
  pct = 0;
  reset_sec = 0;
  week_pct = 0;
  week_reset_sec = negsuc 0;
  will_exhaust = false;
  burn_per_hr = 0;
  leftover_pct = 0;
  eta_clock = [];
}

abbrev pub showing : List SessionRow → DisplayState ℕ
showing rows = record {
  sessions = rows;
  claude = no_usage;
  codex = no_usage;
  metrics = record {
    models = [];
    total_tokens = 0;
    total_usd = 0;
    has_usd = false;
    usd_complete = false;
    total_sessions = pos 0;
    dropped_models = 0;
  };
  offline = false;
  dropped_sessions = 0;
}

long_build : mood_for (showing (row idle 5 ∷ row working 121 ∷ [])) ≡ building
unfolding mood_for
long_build = refl

mood_for_iff_example :
    (mood_for (showing (row working 7 ∷ row working 121 ∷ [])) ≡ juggling)
    ↔ Shows juggling (showing (row working 7 ∷ row working 121 ∷ []))
mood_for_iff_example = mood_for_iff (showing (row working 7 ∷ row working 121 ∷ [])) juggling
