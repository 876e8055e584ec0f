-- ===== src/Mascot.antt =====
-- firmware/src/mascot.rs: which animation is shown, and the delays of the screensaver.
pub mod Ladder
pub mod Delay
pub mod Examples
use cydrust.Prelude.{
  ℕ, zero, suc, ◌*◌, ◌%◌, ◌^◌, Bool, true, false, ◌&&◌, ◌||◌, Option, none, some, List, [], ◌∷◌,
  max, ltb, leb, ◌==◌, if◌then◌else◌, any, filter, length,
}
use cydrust.Prelude.Int.{ℤ, pos, ltb_ℤ}
use cydrust.Proto.Model.{SessionStatus, working, idle, waiting, SessionRow, DisplayState}

pub data Mood : Type 0 where
  happy juggling building typing sleeping : Mood

abbrev pub art_building_sec : ℕ
art_building_sec = 120

unfoldable pub mood_index : Mood → ℕ
mood_index happy = 0
mood_index juggling = 1
mood_index building = 2
mood_index typing = 3
mood_index sleeping = 4

abbrev pub is_waiting : SessionStatus → Bool
is_waiting waiting = true
is_waiting _ = false

abbrev pub is_working : SessionStatus → Bool
is_working working = true
is_working _ = false

-- the `match` on the list of working sessions
by_working : List SessionRow → Mood
by_working [] = sleeping
by_working (s ∷ []) = if ltb_ℤ (pos art_building_sec) s.age_sec then building else typing
by_working (_ ∷ _ ∷ _) = juggling

unfoldable pub mood_for : {F : Type 0} → DisplayState F → Mood
unfolding by_working
mood_for ds =
    if ds.offline
    then sleeping
    else if any (λ s. is_waiting s.status) ds.sessions
    then happy
    else by_working (filter (λ s. is_working s.status) ds.sessions)

abbrev pub art_vals : List ℕ
art_vals = 0 ∷ 30 ∷ 60 ∷ 300 ∷ []

-- the delays are u16 and the product is one of u32
unfoldable pub art_is_valid : ℕ → ℕ → Bool
art_is_valid art_sec sleep_min =
    if art_sec == 0 || sleep_min == 0 then true else ltb art_sec (sleep_min * 60 % 2 ^ 32)

-- `iter().max().unwrap_or(d)`
max_or : ℕ → List ℕ → ℕ
max_or d [] = d
max_or d (x ∷ []) = x
max_or d (x ∷ y ∷ xs) = max x (max_or d (y ∷ xs))

unfoldable pub snap_art : ℕ → ℕ → ℕ
unfolding max_or
snap_art art_sec sleep_min =
    max_or 0 (filter (λ v. leb v art_sec && art_is_valid v sleep_min) art_vals)
