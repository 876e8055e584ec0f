-- ===== src/Ui/Cards.antt =====
-- firmware/src/main.rs: the sessions tab. `render_sessions` is the list of what its six slots
-- show; the texts of its header and footer are left out.
pub mod Touch
mod Examples
use cydrust.Prelude.{
  ℕ, zero, suc, ◌+◌, ◌-◌, ◌*◌, min, Bool, true, false, not, ◌&&◌, Option, none, some, List, [], ◌∷◌,
  ltb, leb, ◌==◌, if◌then◌else◌, get_elem?, length,
}
use cydrust.Prelude.Int.{ℤ, pos, ◌-ℤ◌, ◌/ℤ◌, pos_part, leb_ℤ, contains_ℤ}
use cydrust.Prelude.Run.{Run, ok, ◌>>=◌, read}
use cydrust.Proto.Model.{Bytes, SessionRow, DisplayState}
use cydrust.Mascot.{is_waiting, is_working}
use cydrust.Ui.{View, list, detail}

-- The number of slots for cards, and of the sessions that no slot shows.
unfoldable pub session_overflow : {F : Type 0} → DisplayState F → ℕ × ℕ
session_overflow ds =
    let hidden = (length ds.sessions - 6) + ds.dropped_sessions in
    (if ltb 0 hidden then 5 else 6, hidden)

pub data Slot : Type 0 where
  card : SessionRow → Slot
  more : ℕ → Slot
  blank : Slot

-- a slot is drawn at (2, y) with 316 by 25 pixels
abbrev pub slot_y : ℕ → ℕ
slot_y i = 47 + i * 27

module _ {F : Type 0} (ds : DisplayState F) where
  caps : ℕ × ℕ
  caps = if ds.offline then (6, 0) else session_overflow ds

  unfoldable pub shown : ℕ
  unfolding caps
  shown = if ds.offline then 0 else min (length ds.sessions) caps.0

  -- one round of the drawing loop
  unfoldable pub slot : ℕ → Run Slot
  unfolding shown caps
  slot i =
      if ltb i shown
      then (read ds.sessions i >>= λ row. ok (card row))
      else ok (if i == caps.0 && ltb 0 caps.1 then more caps.1 else blank)

  -- the loop over the slots from `i`, `k` of them
  unfoldable pub slots : ℕ → ℕ → Run (List Slot)
  slots zero i = ok []
  slots (suc k) i = do s ← slot i; rest ← slots k (i + 1); ok (s ∷ rest)

  -- `none` is the text "no sessions"
  unfoldable pub render_sessions : Run (Option (List Slot))
  render_sessions =
      let drawn = slots 6 0 >>= λ l. ok (some l) in
      if not ds.offline && length ds.sessions == 0 then ok none else drawn

  -- the band of the six slots; a card is hit on its 25 rows and one row above and below
  touch_list : ℤ → View
  touch_list sy =
      let i = pos_part ((sy -ℤ pos 47) /ℤ 27) in
      let within = leb_ℤ ((sy -ℤ pos 47) -ℤ pos (i * 27)) (pos 25) in
      if contains_ℤ 46 214 sy && not ds.offline
      then (if within && ltb i (session_overflow ds).0 && ltb i (length ds.sessions)
          then detail i
          else list)
      else list

  -- `send_ack` of the USB build: nothing is sent for an empty id
  send_ack : Bytes → Option Bytes
  send_ack [] = none
  send_ack (b ∷ bs) = some (b ∷ bs)

  touch_detail : ℤ → ℤ → Option SessionRow → Option Bytes
  touch_detail sx sy none = none
  touch_detail sx sy (some r) =
      if is_waiting r.status && contains_ℤ 8 158 sx && contains_ℤ 210 236 sy
      then send_ack r.id
      else none

  -- The view after a touch, and the id that is acknowledged.
  unfoldable pub sessions_touch : ℤ → ℤ → View → View × Option Bytes
  unfolding touch_list touch_detail send_ack
  sessions_touch sx sy list = (touch_list sy, none)
  sessions_touch sx sy (detail index) = (list, touch_detail sx sy (get_elem? ds.sessions index))
