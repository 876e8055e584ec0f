-- ===== src/Ui/Art/Idle.antt =====
-- firmware/src/main.rs: when the screensaver engages, over any run of ticks and touches.
use cydrust.Prelude.{
  ℕ, ◌+◌, ◌*◌, ◌≤◌, ◌<◌, ◌≡◌, ◌↔◌, refl, Bool, true, false, List, [], ◌∷◌, arith, ap, ◌∙◌,
}
use cydrust.Ui.Art.{ArtState, new, wake, tick}

-- what the loop does to the state: a tick, or a touch, at a time
pub data Event : Type 0 where
  ticked : ℕ → ℕ → Bool → Event
  touched : ℕ → Event

abbrev pub at : Event → ℕ
at (ticked now art_sec mood) = now
at (touched now) = now

abbrev pub step : ArtState → Event → ArtState
step a (ticked now art_sec mood) = (tick now art_sec mood a).0
step a (touched now) = (wake now a).0

abbrev pub run : ArtState → List Event → ArtState
run a [] = a
run a (e ∷ es) = run (step a e) es

-- A tick engages the art exactly where it is on, not engaged yet, and the last input lies
-- `art_sec` seconds back; a touch ends it.
pub tick_engages_iff :
    (now art_sec : ℕ) (mood : Bool) (a : ArtState)
    → a.engaged ≡ false
    → ((tick now art_sec mood a).0.engaged ≡ true)
      ↔ ((0 < art_sec) × (a.last_input + art_sec * 1000 ≤ now))
unfolding tick
tick_engages_iff now art_sec mood a off = (λ e. ground arith, λ h. ground arith)

-- Events in the order of time, from `clock` on, whose ticks all read the delay `k`.
abbrev pub Ordered : ℕ → ℕ → List Event → Type 0
Ordered k clock [] = Unit
Ordered k clock (ticked now art_sec mood ∷ es) = (clock ≤ now) × (art_sec ≡ k) × Ordered k now es
Ordered k clock (touched now ∷ es) = (clock ≤ now) × Ordered k now es

abbrev pub last_time : ℕ → List Event → ℕ
last_time clock [] = clock
last_time clock (e ∷ es) = last_time (at e) es

-- the time of the last touch, or `t` where there is none
abbrev pub last_touch : ℕ → List Event → ℕ
last_touch t [] = t
last_touch t (ticked now art_sec mood ∷ es) = last_touch t es
last_touch t (touched now ∷ es) = last_touch now es

-- the art is on only after `k` seconds, at least one, without a touch
abbrev Rested : ℕ → ℕ → ArtState → Type 0
Rested k clock a = a.engaged ≡ true → (0 < k) × (a.last_input + k * 1000 ≤ clock)

tick-Rested :
    (k clock now : ℕ) (mood : Bool) (a : ArtState)
    → clock ≤ now
    → Rested k clock a
    → Rested k now (tick now k mood a).0
unfolding tick
tick-Rested k clock now mood a le r e = ground arith

wake-Rested : (k now : ℕ) (a : ArtState) → Rested k now (wake now a).0
unfolding wake
wake-Rested k now a e = ground arith

last_input-tick :
    (now k : ℕ) (mood : Bool) (a : ArtState) → (tick now k mood a).0.last_input ≡ a.last_input
unfolding tick
last_input-tick now k mood a = ground arith

last_input-wake : (now : ℕ) (a : ArtState) → (wake now a).0.last_input ≡ now
unfolding wake
last_input-wake now a = ground arith

run-Rested :
    (k clock : ℕ) (a : ArtState) (es : List Event)
    → Ordered k clock es
    → Rested k clock a
    → Rested k (last_time clock es) (run a es)
run-Rested k clock a [] o r = r
run-Rested k clock a (ticked now art_sec mood ∷ es) o r =
    run-Rested k now (tick now art_sec mood a).0 es o.2
      (rw o.1 (tick-Rested k clock now mood a o.0 r))
run-Rested k clock a (touched now ∷ es) o r =
    run-Rested k now (wake now a).0 es o.1 (wake-Rested k now a)

last_input-run :
    (a : ArtState) (es : List Event) → (run a es).last_input ≡ last_touch a.last_input es
last_input-run a [] = refl
last_input-run a (ticked now k mood ∷ es) =
    last_input-run (tick now k mood a).0 es
    ∙ ap (λ t. last_touch t es) (last_input-tick now k mood a)
last_input-run a (touched now ∷ es) =
    last_input-run (wake now a).0 es ∙ ap (λ t. last_touch t es) (last_input-wake now a)

new-Rested : (k t : ℕ) → Rested k t (new t)
unfolding new
new-Rested k t e = cc

last_input-new : (t : ℕ) → (new t).last_input ≡ t
unfolding new
last_input-new t = refl

-- Over any run of ticks and touches in the order of time, all at one delay `k`: the art is
-- engaged at the end only if `k` is not 0 and `k` seconds have gone since the last touch, or
-- since the start where there was none.
pub run_engaged :
    (k t : ℕ) (es : List Event)
    → Ordered k t es
    → (run (new t) es).engaged ≡ true
    → (0 < k) × (last_touch t es + k * 1000 ≤ last_time t es)
run_engaged k t es o e =
    let i : (run (new t) es).last_input ≡ last_touch t es =
      last_input-run (new t) es ∙ ap (λ u. last_touch u es) (last_input-new t) in
    let r = run-Rested k t (new t) es o (new-Rested k t) e in (r.0, rw (← i) r.1)
