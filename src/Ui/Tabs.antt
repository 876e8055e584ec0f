-- ===== src/Ui/Tabs.antt =====
-- firmware/src/main.rs: `tab_list`, `draw_tab_bar` and `tab_at`, for a colour LCD.
-- `has_sprites` is `sprites().is_some()`; drawing is the list of the cells that are painted.
pub mod Geometry
mod Examples
use Prim.Native.String.{String}
use cydrust.Prelude.{
  ℕ, ◌+◌, ◌-◌, ◌/◌, Bool, true, false, Option, none, some, List, [], ◌∷◌, length, if◌then◌else◌,
}
use cydrust.Prelude.Int.{ℤ, pos, ◌-ℤ◌, ◌/ℤ◌, clamp_0}
use cydrust.Prelude.Run.{Run, ok, ◌>>=◌, read}
use cydrust.Ui.{Tab, sessions, usage, metrics, pixel, settings}

abbrev pub with_pixel : List (String × Tab)
with_pixel =
    ("SESS", sessions)
    ∷ ("USAGE", usage)
    ∷ ("METRIC", metrics)
    ∷ ("PIXEL", pixel)
    ∷ ("SET", settings)
    ∷ []

abbrev pub no_pixel : List (String × Tab)
no_pixel =
    ("SESSIONS", sessions) ∷ ("USAGE", usage) ∷ ("METRICS", metrics) ∷ ("SETTINGS", settings) ∷ []

abbrev pub tab_list : Bool → List (String × Tab)
tab_list has_sprites = if has_sprites then with_pixel else no_pixel

abbrev pub tab_width : ℕ → ℕ
tab_width n = (320 - (n + 1)) / n

-- one painted cell: its rectangle is (x, 1, w, 24), its text is centred at `text_x`
pub record Cell : Type 0 where
  pub x : ℕ
  pub w : ℕ
  pub text_x : ℕ
  pub label : String
  pub tab : Tab

-- the loop of `draw_tab_bar`
cells_from : ℕ → ℕ → List (String × Tab) → List Cell
cells_from x w [] = []
cells_from x w ((label, tab) ∷ tabs) =
    record { x = x; w = w; text_x = x + w / 2; label = label; tab = tab }
    ∷ cells_from (x + (w + 1)) w tabs

unfoldable pub draw_tab_bar : Bool → List Cell
unfolding cells_from
draw_tab_bar has_sprites =
    let tabs = tab_list has_sprites in cells_from 1 (tab_width (length tabs)) tabs

unfoldable pub tab_at : Bool → ℤ → Run Tab
tab_at has_sprites sx =
    let tabs = tab_list has_sprites in
    let n = length tabs in
    let w = tab_width n in
    let i = clamp_0 (n - 1) ((sx -ℤ pos 1) /ℤ (w + 1)) in read tabs i >>= λ t. ok t.1
