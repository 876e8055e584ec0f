-- ===== src/Eink/Refresh.antt =====
-- firmware/src/eink.rs: a state that stays is on the panel in the end.
use cydrust.Prelude.{
  ◌+◌, ◌-◌, ◌≤◌, ◌≡◌, refl, sym, ap, ◌⊎◌, inl, inr, Bool, true, false, Option, none, some, List, [],
  ◌∷◌, ◌++◌, arith, All, leb, Bool-cases, subst,
}
use cydrust.Proto.Model.{Bytes, DisplayState}
use cydrust.Proto.Same.{same_state}
use cydrust.Eink.{
  Draw, Panel, wake_up, display_frame, sleep, update_frame, render_status, Eink, Input, min_refresh,
  current, changed, refresh, is_due, round, run,
}

-- the glass: the frame that the driver holds, and the one that is displayed
pub record Glass : Type 0 where
  pub frame : Option (List Draw)
  pub displayed : Option (List Draw)

-- what the calls leave on the glass, where the driver takes each frame
abbrev pub drive : List Panel → Glass → Glass
drive [] g = g
drive (wake_up ∷ calls) g = drive calls g
drive (sleep ∷ calls) g = drive calls g
drive (update_frame draws ∷ calls) g = drive calls (record g { frame = some draws })
drive (display_frame ∷ calls) g = drive calls (record g { displayed = g.frame })

module _ {F : Type 0} (same_f : F → F → Bool) (percent : F → Bytes) where
  -- the glass after some rounds
  abbrev pub drive_all : List (Input F) → Eink F → Glass → Glass
  drive_all [] s g = g
  drive_all (i ∷ is) s g =
      drive_all is (round same_f percent i s).0 (drive (round same_f percent i s).1 g)

  -- the picture of the state is displayed, or that of one which the code takes for the same
  abbrev pub Shows : Glass → DisplayState F → Type 0
  Shows g state =
      (p : DisplayState F) × (g.displayed ≡ some (render_status percent p))
      × ((p ≡ state) ⊎ (same_state same_f p state ≡ true))

  -- the state that is remembered is the one that is displayed
  abbrev pub Matches : Option (DisplayState F) → Glass → Type 0
  Matches none g = Unit
  Matches (some p) g = g.displayed ≡ some (render_status percent p)

  -- a refresh that the driver takes displays its state
  refresh-displays :
      (updates : Bool) (state : DisplayState F) (g : Glass)
      → updates ≡ true
      → (drive (refresh same_f percent updates state) g).displayed
        ≡ some (render_status percent state)
  unfolding refresh
  refresh-displays true state g h = refl
  refresh-displays false state g h = cc

  round-Matches :
      (i : Input F) (s : Eink F) (g : Glass)
      → i.updates ≡ true
      → Matches s.prev g
      → Matches (round same_f percent i s).0.prev (drive (round same_f percent i s).1 g)
  unfolding round
  round-Matches i s g u m = elim (Bool-cases (is_due same_f percent i s)) [
    | inl d ↦ rw d (refresh-displays i.updates (current i) g u)
    | inr d ↦ rw d m
  ]

  drive_all-Matches :
      (is : List (Input F)) (s : Eink F) (g : Glass)
      → All (λ i. i.updates ≡ true) is
      → Matches s.prev g
      → Matches (run same_f percent is s).prev (drive_all is s g)
  unfolding run
  drive_all-Matches [] s g u m = m
  drive_all-Matches (i ∷ is) s g u m =
      drive_all-Matches is (round same_f percent i s).0 (drive (round same_f percent i s).1 g) u.1
        (round-Matches i s g u.0 m)

  -- the state that is remembered is this one, or one that compares equal
  abbrev Holds : Option (DisplayState F) → DisplayState F → Type 0
  Holds prev state =
      (p : DisplayState F) × (prev ≡ some p) × ((p ≡ state) ⊎ (same_state same_f p state ≡ true))

  -- refreshed since, with the state; or not refreshed
  abbrev Since : Eink F → DisplayState F → Eink F → Type 0
  Since start state s = (s.prev ≡ some state) ⊎ (s ≡ start)

  round-Since :
      (start s : Eink F) (i : Input F) (state : DisplayState F)
      → current i ≡ state
      → Since start state s
      → Since start state (round same_f percent i s).0
  unfolding round
  round-Since start s i state e b = elim (Bool-cases (is_due same_f percent i s)) [
    | inl d ↦ rw d (inl (ap some e))
    | inr d ↦ rw d b
  ]

  unchanged-Holds :
      (prev : Option (DisplayState F)) (state : DisplayState F)
      → changed same_f prev state ≡ false
      → Holds prev state
  unfolding changed
  unchanged-Holds none state c = cc
  unchanged-Holds (some p) state c = (p, refl, inr (ground arith))

  -- a round that reads the clock late enough
  late_round-Holds :
      (s : Eink F) (i : Input F)
      → s.last_refresh + min_refresh ≤ i.now
      → Holds (round same_f percent i s).0.prev (current i)
  unfolding round is_due
  late_round-Holds s i h = elim (Bool-cases (changed same_f s.prev (current i))) [
    | inl c ↦
        let late : leb min_refresh (i.now - s.last_refresh) ≡ true = ground arith in
        rw (c, late) (current i, refl, inl refl)
    | inr c ↦ rw c (unchanged-Holds s.prev (current i) c)
  ]

  round-Holds :
      (start s : Eink F) (i : Input F)
      → start.last_refresh + min_refresh ≤ i.now
      → Since start (current i) s
      → Holds (round same_f percent i s).0.prev (current i)
  unfolding round
  round-Holds start s i h (inl b) = elim (Bool-cases (is_due same_f percent i s)) [
    | inl d ↦ rw d (current i, refl, inl refl)
    | inr d ↦ rw d (current i, b, inl refl)
  ]
  round-Holds start s i h (inr b) =
      late_round-Holds s i (subst (λ (u : Eink F). u.last_refresh + min_refresh ≤ i.now) (sym b) h)

  run-Since :
      (start s : Eink F) (is : List (Input F)) (state : DisplayState F)
      → All (λ i. current i ≡ state) is
      → Since start state s
      → Since start state (run same_f percent is s)
  unfolding run
  run-Since start s [] state e b = b
  run-Since start s (i ∷ is) state e b =
      run-Since start (round same_f percent i s).0 is state e.1 (round-Since start s i state e.0 b)

  run-append :
      (is js : List (Input F)) (s : Eink F)
      → run same_f percent (is ++ js) s ≡ run same_f percent js (run same_f percent is s)
  unfolding run
  run-append [] js s = refl
  run-append (i ∷ is) js s = run-append is js (round same_f percent i s).0

  -- what is remembered at the end of rounds that see one state
  run-Holds :
      (s : Eink F) (is : List (Input F)) (i : Input F)
      → All (λ j. current j ≡ current i) is
      → s.last_refresh + min_refresh ≤ i.now
      → Holds (run same_f percent (is ++ i ∷ []) s).prev (current i)
  unfolding run
  run-Holds s is i e h =
      rw (run-append is (i ∷ []) s)
        (round-Holds s (run same_f percent is s) i h (run-Since s s is (current i) e (inr refl)))

  -- Let the driver take every frame, and let the panel display at first what the loop remembers,
  -- which is nothing at boot. Where the state stays the same over some rounds, of which the last
  -- reads the clock 45 seconds or more after the refresh before them, the calls on the panel leave
  -- the picture of that state displayed, or that of a state which compares equal.
  pub run-Shows :
      (s : Eink F) (g : Glass) (is : List (Input F)) (i : Input F)
      → All (λ j. current j ≡ current i) is
      → All (λ j. j.updates ≡ true) (is ++ i ∷ [])
      → s.last_refresh + min_refresh ≤ i.now
      → Matches s.prev g
      → Shows (drive_all (is ++ i ∷ []) s g) (current i)
  run-Shows s g is i e u h m =
      let (p, q, r) = run-Holds s is i e h in
      let k = drive_all-Matches (is ++ i ∷ []) s g u m in
      (p, subst (λ o. Matches o (drive_all (is ++ i ∷ []) s g)) q k, r)
