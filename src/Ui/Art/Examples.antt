-- ===== src/Ui/Art/Examples.antt =====
-- firmware/src/main.rs: a screensaver that engages after half a minute.
use cydrust.Prelude.{◌≡◌, refl, false, true, List, [], ◌∷◌}
use cydrust.Ui.Art.{new, tick, wake}
use cydrust.Ui.Art.Idle.{Event, ticked, touched, run}

abbrev half_minute : List Event
half_minute = ticked 50 30 false ∷ touched 900 ∷ ticked 20000 30 true ∷ ticked 30900 30 false ∷ []

half_minute_engages : (run (new 0) half_minute).engaged ≡ true
unfolding new tick wake
half_minute_engages = refl
