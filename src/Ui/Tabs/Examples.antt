-- ===== src/Ui/Tabs/Examples.antt =====
-- firmware/src/main.rs: the tab bar at single touches.
use cydrust.Prelude.{◌≡◌, refl, true, some, get_elem?}
use cydrust.Prelude.Int.{pos, clamp_0, ◌-ℤ◌, ◌/ℤ◌}
use cydrust.Prelude.Run.{ok, read}
use cydrust.Ui.{sessions, metrics, settings}
use cydrust.Ui.Tabs.{Cell, draw_tab_bar, tab_at}

abbrev third_cell : Cell
third_cell = record { x = 127; w = 62; text_x = 158; label = "METRIC"; tab = metrics }

third_drawn : get_elem? (draw_tab_bar true) 2 ≡ some third_cell
unfolding draw_tab_bar
third_drawn = refl

edges : (tab_at true (pos 0) ≡ ok sessions) × (tab_at true (pos 319) ≡ ok settings)
unfolding tab_at clamp_0 ◌-ℤ◌ ◌/ℤ◌ read
edges = (refl, refl)
