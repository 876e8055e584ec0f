-- ===== src/Ui/Loop/Examples.antt =====
-- firmware/src/main.rs: single rounds of the display loop.
use cydrust.Prelude.{ℕ, ◌≡◌, refl, true, false, none, List, [], ◌∷◌, ◌==◌}
use cydrust.Prelude.Run.{ok}
use cydrust.Proto.Model.{working, waiting}
use cydrust.Proto.Reflexive.{==_refl}
use cydrust.Mascot.{Mood}
use cydrust.Mascot.Examples.{row, showing}
use cydrust.Ui.{list, sessions}
use cydrust.Ui.Settings.{default}
use cydrust.Ui.Settings.Examples.{default-IsValid}
use cydrust.Ui.Art.{new}
use cydrust.Ui.Loop.{
  Effect, Input, Loop, round, settle, shown_state, read_touch, fall_asleep, keep_awake, refresh,
}
use cydrust.Ui.Loop.Kept.{Device, apply_all, InSync, round-InSync}
use cydrust.Ui.Loop.Screen.{waiting_awake}
use cydrust.Ui.Loop.Current.{Displays, round-IsCurrent}
use cydrust.Ui.Loop.Drawn.{draw_all}

-- a screen that sleeps, its art showing
abbrev asleep : Loop ℕ
asleep = record {
  active_tab = sessions;
  view = list;
  was_touched = false;
  last_touch = 0;
  sleeping = true;
  prev = none;
  prev_paint = none;
  art = new 0;
  last_mood = Mood.happy;
  settings = default;
}

abbrev dark_device : Device
dark_device = record { stored = default; level = 0; dark = true }

-- no finger, and a session that waits
abbrev alarm : Input ℕ
alarm = record {
  now = 70000;
  received = showing (row working 7 ∷ row waiting 3 ∷ []);
  last_rx = 69500;
  z = 0;
  raw_x = 0;
  raw_y = 0;
}

asleep-InSync : InSync dark_device asleep
asleep-InSync = record { valid = default-IsValid; stored = refl; level = refl; dark = refl }

round-InSync_example :
    (r : Loop ℕ × List (Effect ℕ)) × (round ◌==◌ true alarm asleep ≡ ok r)
    × InSync (apply_all dark_device r.1) r.0
round-InSync_example = round-InSync ◌==◌ true alarm dark_device asleep asleep-InSync

abbrev after : Loop ℕ × List (Effect ℕ)
after = settle ◌==◌ true alarm (record asleep { was_touched = false }, [])

alarm-round : round ◌==◌ true alarm asleep ≡ ok after
unfolding round read_touch
alarm-round = refl

waiting_awake_example : after.0.sleeping ≡ false
waiting_awake_example = waiting_awake ◌==◌ true alarm asleep after refl alarm-round

awake : after.0.sleeping ≡ false
unfolding settle fall_asleep keep_awake refresh
awake = refl

round-IsCurrent_example : Displays ◌==◌ (shown_state alarm) after.0 (draw_all none after.1)
round-IsCurrent_example =
    round-IsCurrent ◌==◌ ==_refl true alarm none asleep after tt alarm-round awake
