-- ===== src/Ui/Art.antt =====
-- firmware/src/main.rs: the screensaver's state. An `Instant` is the number of milliseconds on the
-- monotonic clock; the calls of `Instant::now` within one method are taken to answer one `now`.
pub mod Idle
mod Examples
use cydrust.Prelude.{
  ℕ, ◌+◌, ◌-◌, ◌*◌, ◌%◌, ◌^◌, Bool, true, false, not, ◌&&◌, ltb, leb, if◌then◌else◌,
}

pub record ArtState : Type 0 where
  pub last_input : ℕ
  pub engaged : Bool
  pub frame : ℕ  -- usize
  pub last_advance : ℕ

abbrev pub art_frame_ms : ℕ
art_frame_ms = 125

unfoldable pub new : ℕ → ArtState
new now = record { last_input = now; engaged = false; frame = 0; last_advance = now }

-- Dismisses the screensaver and restarts the clock; true where the touch was used up by that.
unfoldable pub wake : ℕ → ArtState → ArtState × Bool
wake now a =
    if a.engaged
    then (record a { last_input = now; engaged = false; frame = 0 }, true)
    else (record a { last_input = now }, false)

-- Advances the clock; true where the display wants repainting.
unfoldable pub tick : ℕ → ℕ → Bool → ArtState → ArtState × Bool
tick now art_sec mood_changed a =
    if ltb 0 art_sec && not a.engaged && leb (art_sec * 1000) (now - a.last_input)
    then (record a { engaged = true; frame = 0; last_advance = now }, true)
    else if mood_changed
    then (record a { frame = 0; last_advance = now }, true)
    else if leb art_frame_ms (now - a.last_advance)
    then (record a { last_advance = now; frame = (a.frame + 1) % 2 ^ 32 }, true)
    else (a, false)
