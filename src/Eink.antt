-- ===== src/Eink.antt =====
-- firmware/src/eink.rs: the picture of the e-paper panel and one round of its loop. Times are
-- milliseconds on one clock; fonts, the bus and the printing of a percentage are left out or
-- parameters.
pub mod Refresh
pub mod Spaced
mod Examples
use cydrust.Prelude.{
  ℕ, ◌+◌, ◌-◌, ◌/◌, Bool, true, false, not, ◌&&◌, Option, none, some, List, [], ◌∷◌, ◌++◌,
  if◌then◌else◌, ltb, leb, take, map,
}
use cydrust.Proto.Model.{
  Bytes, SessionStatus, working, idle, waiting, SessionRow, Usage, DisplayState,
}
use cydrust.Proto.Same.{same_state}

abbrev pub min_refresh : ℕ
min_refresh = 45_000

-- what is drawn, from the top left; the styles of texts are left out
pub data Draw : Type 0 where
  clear : Draw
  line : ℕ → ℕ → ℕ → ℕ → Draw
  text : Bytes → ℕ → ℕ → Draw

unfoldable pub symbol : SessionStatus → Bytes
symbol working = (b'W' ∷ [])
symbol waiting = (b'!' ∷ [])
symbol idle = (b'z' ∷ [])

-- the rows from height `y` on
unfoldable pub draw_rows : ℕ → List SessionRow → List Draw
draw_rows y [] = []
draw_rows y (row ∷ rows) =
    text (symbol row.status ++ ((b' ' ∷ b' ' ∷ []) ++ row.project)) 4 y ∷ draw_rows (y + 12) rows

module _ {F : Type 0} (percent : F → Bytes) where
  unfoldable pub pct : Usage F → Bytes → Bytes
  pct u name = if u.ok then name ++ (b' ' ∷ percent u.pct) else name ++ (b' ' ∷ b'-' ∷ b'-' ∷ [])

  unfoldable pub body : DisplayState F → List Draw
  body ds =
      if ds.offline
      then text (b'h' ∷ b'u' ∷ b'b' ∷ b' ' ∷ b'o' ∷ b'f' ∷ b'f' ∷ b'l' ∷ b'i' ∷ b'n' ∷ b'e' ∷ []) 4
          40
        ∷ []
      else elim (ds.sessions) [
        | [] ↦
            text (b'n' ∷ b'o' ∷ b' ' ∷ b's' ∷ b'e' ∷ b's' ∷ b's' ∷ b'i' ∷ b'o' ∷ b'n' ∷ b's' ∷ []) 4
              40
            ∷ []
        | row ∷ rows ↦ draw_rows 32 (take 7 (row ∷ rows))
      ]

  unfoldable pub render_status : DisplayState F → List Draw
  render_status ds =
      clear
        ∷ text (b'V' ∷ b'i' ∷ b'b' ∷ b'e' ∷ b'M' ∷ b'o' ∷ b'n' ∷ b'i' ∷ b't' ∷ b'o' ∷ b'r' ∷ []) 4
            13
        ∷ line 0 18 295 18
        ∷ body ds
      ++ text (pct ds.claude (b'C' ∷ []) ++ ((b' ' ∷ b' ' ∷ b' ' ∷ []) ++ pct ds.codex (b'X' ∷ [])))
          4 124
        ∷ []

-- the calls of the panel's driver
pub data Panel : Type 0 where
  wake_up display_frame sleep : Panel
  update_frame : List Draw → Panel

-- what the loop keeps
pub record Eink (F : Type 0) : Type 0 where
  pub prev : Option (DisplayState F)
  pub last_refresh : ℕ

-- what a round reads: the shared state, its time and the clock, at each place where it is read
pub record Input (F : Type 0) : Type 0 where
  pub shared : DisplayState F
  pub last_rx : ℕ
  pub now : ℕ
  pub after : ℕ
  pub updates : Bool

module _ {F : Type 0} where
  -- at boot; where the clock has not run for that long, `checked_sub` gives nothing
  unfoldable pub boot : ℕ → Eink F
  boot now = record {
    prev = none;
    last_refresh = if leb min_refresh now then now - min_refresh else now;
  }

  -- the state as it is to be shown
  unfoldable pub current : Input F → DisplayState F
  current i = record (i.shared) { offline = ltb 6 ((i.now - i.last_rx) / 1000) }

module _ {F : Type 0} (same_f : F → F → Bool) where
  unfoldable pub changed : Option (DisplayState F) → DisplayState F → Bool
  changed none state = true
  changed (some p) state = not (same_state same_f p state)

module _ {F : Type 0} (same_f : F → F → Bool) (percent : F → Bytes) where
  -- the calls of a full refresh; `updates` is whether the driver takes the frame
  unfoldable pub refresh : Bool → DisplayState F → List Panel
  refresh updates state =
      wake_up
      ∷ update_frame (render_status percent state)
      ∷ (if updates then display_frame ∷ sleep ∷ [] else sleep ∷ [])

  -- whether the round refreshes the panel
  unfoldable pub is_due : Input F → Eink F → Bool
  is_due i s = changed same_f s.prev (current i) && leb min_refresh (i.now - s.last_refresh)

  unfoldable pub round : Input F → Eink F → Eink F × List Panel
  round i s =
      if is_due i s
      then (
        record { prev = some (current i); last_refresh = i.after },
        refresh i.updates (current i),
      )
      else (s, [])

  -- the state after some rounds
  unfoldable pub run : List (Input F) → Eink F → Eink F
  run [] s = s
  run (i ∷ is) s = run is (round i s).0
