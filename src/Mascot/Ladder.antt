-- ===== src/Mascot/Ladder.antt =====
-- firmware/src/mascot.rs: the ladder of `mood_for`, as the README's table states it.
use cydrust.Prelude.{
  ℕ, zero, suc, ◌≤◌, ◌<◌, ◌≡◌, ◌↔◌, ◌⊎◌, refl, Bool, true, false, List, [], ◌∷◌, arith, any, filter,
  length, ltb, if◌then◌else◌, Bool-cases, inl, inr,
}
use cydrust.Prelude.Int.{pos, ltb_ℤ}
use cydrust.Proto.Model.{SessionRow, DisplayState}
use cydrust.Mascot.{
  Mood, happy, juggling, building, typing, sleeping, art_building_sec, mood_for, by_working,
  is_waiting, is_working,
}

-- how many sessions wait, and how many work
abbrev pub waiting_count : List SessionRow → ℕ
waiting_count [] = 0
waiting_count (s ∷ ss) = if is_waiting s.status then suc (waiting_count ss) else waiting_count ss

abbrev pub working_count : List SessionRow → ℕ
working_count [] = 0
working_count (s ∷ ss) = if is_working s.status then suc (working_count ss) else working_count ss

-- some working session has been quiet for longer than `art_building_sec`
abbrev pub quiet : List SessionRow → Bool
quiet [] = false
quiet (s ∷ ss) = if is_working s.status then ltb_ℤ (pos art_building_sec) s.age_sec else quiet ss

-- What each animation tells. An offline bridge comes before all else, then a session that waits.
abbrev pub Shows : {F : Type 0} → Mood → DisplayState F → Type 0
Shows happy ds = (ds.offline ≡ false) × (0 < waiting_count ds.sessions)
Shows juggling ds =
    (ds.offline ≡ false) × (waiting_count ds.sessions ≡ 0) × (2 ≤ working_count ds.sessions)
Shows building ds =
    (ds.offline ≡ false)
    × (waiting_count ds.sessions ≡ 0)
    × (working_count ds.sessions ≡ 1)
    × (quiet ds.sessions ≡ true)
Shows typing ds =
    (ds.offline ≡ false)
    × (waiting_count ds.sessions ≡ 0)
    × (working_count ds.sessions ≡ 1)
    × (quiet ds.sessions ≡ false)
Shows sleeping ds =
    (ds.offline ≡ true) ⊎ ((waiting_count ds.sessions ≡ 0) × (working_count ds.sessions ≡ 0))

-- The rungs below "waiting", by the number of working sessions.
abbrev rung : ℕ → Bool → Mood
rung zero q = sleeping
rung (suc zero) q = if q then building else typing
rung (suc (suc n)) q = juggling

length-filter :
    (ss : List SessionRow) → length (filter (λ s. is_working s.status) ss) ≡ working_count ss
length-filter [] = refl
length-filter (s ∷ ss) = ground (arith, length-filter ss)

by_working-cons :
    (s : SessionRow) (l : List SessionRow) (n : ℕ)
    → length l ≡ n
    → by_working (s ∷ l) ≡ rung (suc n) (ltb_ℤ (pos art_building_sec) s.age_sec)
unfolding by_working
by_working-cons s [] n e = rw (← e)
by_working-cons s (t ∷ l) n e = rw (← e)

by_working-filter :
    (ss : List SessionRow)
    → by_working (filter (λ s. is_working s.status) ss) ≡ rung (working_count ss) (quiet ss)
by_working-filter [] = unfold by_working in refl
by_working-filter (s ∷ ss) = elim (Bool-cases (is_working s.status)) [
  | inl w ↦ rw w (by_working-cons s (filter (λ s. is_working s.status) ss) _ (length-filter ss))
  | inr w ↦ rw w (by_working-filter ss)
]

any-waiting : (ss : List SessionRow) → any (λ s. is_waiting s.status) ss ≡ ltb 0 (waiting_count ss)
any-waiting [] = refl
any-waiting (s ∷ ss) = ground (arith, any-waiting ss)

module _ {F : Type 0} (ds : DisplayState F) where
  mood_for_lem : mood_for ds ≡ (
      if ds.offline
      then sleeping
      else if ltb 0 (waiting_count ds.sessions)
      then happy
      else rung (working_count ds.sessions) (quiet ds.sessions))
  unfolding mood_for
  mood_for_lem = rw (any-waiting ds.sessions, by_working-filter ds.sessions)

  -- `mood_for` answers an animation exactly when that animation tells the truth.
  pub mood_for_iff : (m : Mood) → (mood_for ds ≡ m) ↔ Shows m ds
  mood_for_iff happy = rw mood_for_lem (λ e. ground arith, λ e. ground arith)
  mood_for_iff juggling = rw mood_for_lem (λ e. ground arith, λ e. ground arith)
  mood_for_iff building = rw mood_for_lem (λ e. ground arith, λ e. ground arith)
  mood_for_iff typing = rw mood_for_lem (λ e. ground arith, λ e. ground arith)
  mood_for_iff sleeping = rw mood_for_lem (λ e. ground arith, λ e. ground arith)
