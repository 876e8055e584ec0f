-- ===== src/Ui/Tabs/Geometry.antt =====
-- firmware/src/main.rs: the painted tab bar against the hit test.
use cydrust.Prelude.{
  ℕ, zero, suc, ◌+◌, ◌-◌, ◌*◌, ◌≤◌, ◌<◌, ◌≡◌, refl, Bool, true, false, some, arith, get_elem?,
  length,
}
use cydrust.Prelude.Int.{ℤ, pos, ◌-ℤ◌, ◌/ℤ◌, clamp_0}
use cydrust.Prelude.Run.{ok, ◌>>=◌, read}
use cydrust.Ui.Tabs.{Cell, tab_list, tab_width, draw_tab_bar, tab_at}

-- the index that `tab_at` reads
abbrev hit : Bool → ℤ → ℕ
hit has sx = let n = length (tab_list has) in clamp_0 (n - 1) ((sx -ℤ pos 1) /ℤ (tab_width n + 1))

-- A touch anywhere on a painted cell, or on the gutter right of it, selects the cell's tab.
pub tab_at-cell :
    (has : Bool) (i : ℕ) (c : Cell) (sx : ℕ)
    → get_elem? (draw_tab_bar has) i ≡ some c
    → c.x ≤ sx
    → sx ≤ c.x + c.w
    → tab_at has (pos sx) ≡ ok c.tab
unfolding draw_tab_bar tab_at clamp_0 ◌-ℤ◌ ◌/ℤ◌ read
tab_at-cell true zero c sx e l r = ground arith
tab_at-cell true (suc zero) c sx e l r = ground arith
tab_at-cell true (suc (suc zero)) c sx e l r = ground arith
tab_at-cell true (suc (suc (suc zero))) c sx e l r = ground arith
tab_at-cell true (suc (suc (suc (suc zero)))) c sx e l r = ground arith
tab_at-cell true (suc (suc (suc (suc (suc i))))) c sx e l r = cc
tab_at-cell false zero c sx e l r = ground arith
tab_at-cell false (suc zero) c sx e l r = ground arith
tab_at-cell false (suc (suc zero)) c sx e l r = ground arith
tab_at-cell false (suc (suc (suc zero))) c sx e l r = ground arith
tab_at-cell false (suc (suc (suc (suc i)))) c sx e l r = cc

cell_of :
    (has : Bool) (i : ℕ)
    → i < length (tab_list has)
    → (c : Cell) × (get_elem? (draw_tab_bar has) i ≡ some c)
      × ((read (tab_list has) i >>= λ t. ok t.1) ≡ ok c.tab)
unfolding draw_tab_bar read
cell_of true zero h = (_, refl, refl)
cell_of true (suc zero) h = (_, refl, refl)
cell_of true (suc (suc zero)) h = (_, refl, refl)
cell_of true (suc (suc (suc zero))) h = (_, refl, refl)
cell_of true (suc (suc (suc (suc zero)))) h = (_, refl, refl)
cell_of false zero h = (_, refl, refl)
cell_of false (suc zero) h = (_, refl, refl)
cell_of false (suc (suc zero)) h = (_, refl, refl)
cell_of false (suc (suc (suc zero))) h = (_, refl, refl)
cell_of true (suc (suc (suc (suc (suc i))))) h = absurd (omega arith)
cell_of false (suc (suc (suc (suc i)))) h = absurd (omega arith)

hit-lt : (has : Bool) (sx : ℤ) → hit has sx < length (tab_list has)
unfolding clamp_0
hit-lt true sx = ground arith
hit-lt false sx = ground arith

-- Every touch, off the bar too, selects one of the tabs that are shown.
pub tab_at_total :
    (has : Bool) (sx : ℤ)
    → (i : ℕ) × (c : Cell) × (get_elem? (draw_tab_bar has) i ≡ some c) × (tab_at has sx ≡ ok c.tab)
unfolding tab_at
tab_at_total has sx =
    let (c, e, r) = cell_of has (hit has sx) (hit-lt has sx) in (hit has sx, c, e, r)

-- The cells stand one pixel apart and end inside the 320 pixels of the screen.
pub draw_tab_bar_fits :
    (has : Bool) (i : ℕ) (c : Cell)
    → get_elem? (draw_tab_bar has) i ≡ some c
    → (c.x ≡ 1 + i * (c.w + 1)) × (c.x + c.w < 320)
unfolding draw_tab_bar
draw_tab_bar_fits true zero c e = ground arith
draw_tab_bar_fits true (suc zero) c e = ground arith
draw_tab_bar_fits true (suc (suc zero)) c e = ground arith
draw_tab_bar_fits true (suc (suc (suc zero))) c e = ground arith
draw_tab_bar_fits true (suc (suc (suc (suc zero)))) c e = ground arith
draw_tab_bar_fits false zero c e = ground arith
draw_tab_bar_fits false (suc zero) c e = ground arith
draw_tab_bar_fits false (suc (suc zero)) c e = ground arith
draw_tab_bar_fits false (suc (suc (suc zero))) c e = ground arith
draw_tab_bar_fits true (suc (suc (suc (suc (suc i))))) c e = cc
draw_tab_bar_fits false (suc (suc (suc (suc i)))) c e = cc
