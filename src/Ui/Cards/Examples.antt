-- ===== src/Ui/Cards/Examples.antt =====
-- firmware/src/main.rs: the sessions tab with seven sessions.
use cydrust.Prelude.{ℕ, ◌≡◌, refl, none, [], ◌∷◌, arith}
use cydrust.Prelude.Int.{pos, ◌-ℤ◌, ◌/ℤ◌}
use cydrust.Prelude.Run.{ok, read}
use cydrust.Proto.Model.{working, idle, DisplayState}
use cydrust.Mascot.Examples.{row, showing}
use cydrust.Ui.{list, detail}
use cydrust.Ui.Cards.{card, slot, session_overflow, sessions_touch}
use cydrust.Ui.Cards.Touch.{card-touch}

abbrev seven : DisplayState ℕ
seven = showing (
    row working 1
    ∷ row idle 2
    ∷ row idle 3
    ∷ row idle 4
    ∷ row idle 5
    ∷ row idle 6
    ∷ row idle 7
    ∷ [])

second_touched : (sessions_touch seven (pos 9) (pos 80) list).0 ≡ detail 1
unfolding sessions_touch session_overflow ◌-ℤ◌ ◌/ℤ◌
second_touched = refl

second_drawn : slot seven 1 ≡ ok (card (row idle 2))
unfolding slot session_overflow read
second_drawn = refl

card-touch_example : sessions_touch seven (pos 9) (pos 80) list ≡ (detail 1, none)
card-touch_example =
    card-touch seven (pos 9) 80 1 (row idle 2) second_drawn (omega arith) (omega arith)
