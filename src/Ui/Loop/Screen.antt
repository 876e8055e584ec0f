-- ===== src/Ui/Loop/Screen.antt =====
-- firmware/src/main.rs: when the screen is on, and what it shows.
use cydrust.Prelude.{
  ℕ, ◌≡◌, refl, ◌∙◌, ◌⊎◌, subst, Bool, true, false, not, ◌&&◌, ◌||◌, none, List, [], ◌∷◌, arith,
  any, if◌then◌else◌,
}
use cydrust.Prelude.Run.{ok, >>=-eq-ok, ok-injective}
use cydrust.Proto.Model.{DisplayState}
use cydrust.Mascot.{mood_for, is_waiting}
use cydrust.Ui.{pixel}
use cydrust.Ui.Art.{wake, tick}
use cydrust.Ui.Loop.{
  Effect, backlight, Input, Loop, shown_state, on_touch, keep_awake, fall_asleep, needs_paint,
  paint_when, refresh, refresh_unless, read_touch, settle, round, same_mood, same_tab,
}

module _ {F : Type 0} where
  -- A touch on a sleeping screen, or on one that shows the art, is used up by waking it: tab, view
  -- and settings stay, nothing is acknowledged or stored, and the whole screen is painted anew.
  pub touch_used_up :
      (art_ok : Bool) (now : ℕ) (ds : DisplayState F) (sx sy : ℕ) (s : Loop F)
      → (s.sleeping ≡ true) ⊎ (s.art.engaged ≡ true)
      → on_touch art_ok now ds sx sy s
        ≡ ok (
          record s {
            sleeping = false;
            prev = none;
            last_touch = now;
            art = record (s.art) {
              last_input = now;
              engaged = false;
              frame = if s.art.engaged then 0 else s.art.frame;
            };
          },
          if s.sleeping then backlight s.settings.brightness ∷ [] else [],
        )
  unfolding on_touch wake
  touch_used_up art_ok now ds sx sy s h = ground arith

  awake_after :
      (now : ℕ) (ds : DisplayState F) (s : Loop F)
      → any (λ r. is_waiting r.status) ds.sessions ≡ true
      → (fall_asleep now (keep_awake now ds s).0).0.sleeping ≡ false
  unfolding keep_awake fall_asleep
  awake_after now ds s h = ground arith

module _ {F : Type 0} (same_f : F → F → Bool) where
  sleeping-paint_when :
      (b : Bool) (ds : DisplayState F) (s : Loop F)
      → (paint_when same_f b ds s).0.sleeping ≡ s.sleeping
  unfolding paint_when
  sleeping-paint_when true ds s = refl
  sleeping-paint_when false ds s = refl

  sleeping-refresh :
      (art_ok : Bool) (now : ℕ) (ds : DisplayState F) (s : Loop F)
      → (refresh same_f art_ok now ds s).0.sleeping ≡ s.sleeping
  unfolding refresh
  sleeping-refresh art_ok now ds s =
      let mood = mood_for ds in
      let sec = if art_ok then s.settings.art_sec else 0 in
      let (art, ticked) = tick now sec (not (same_mood mood s.last_mood)) s.art in
      let t = record s { last_mood = mood; art = art } in
      let dirty = ticked && (s.art.engaged || same_tab s.active_tab pixel) in
      sleeping-paint_when (needs_paint same_f ds dirty t) ds t

  pub sleeping-refresh_unless :
      (b art_ok : Bool) (now : ℕ) (ds : DisplayState F) (s : Loop F)
      → (refresh_unless same_f b art_ok now ds s).0.sleeping ≡ s.sleeping
  unfolding refresh_unless
  sleeping-refresh_unless true art_ok now ds s = refl
  sleeping-refresh_unless false art_ok now ds s = sleeping-refresh art_ok now ds s

  settled_awake :
      (art_ok : Bool) (i : Input F) (a : Loop F × List (Effect F))
      → any (λ row. is_waiting row.status) i.received.sessions ≡ true
      → (settle same_f art_ok i a).0.sleeping ≡ false
  unfolding settle
  settled_awake art_ok i a h =
      let b = keep_awake i.now (shown_state i) a.0 in
      let c = fall_asleep i.now b.0 in
      sleeping-refresh_unless c.0.sleeping art_ok i.now (shown_state i) c.0
      ∙ awake_after i.now (shown_state i) a.0 h

  -- While a session of the payload waits, the screen is on after every round.
  pub waiting_awake :
      (art_ok : Bool) (i : Input F) (s : Loop F) (r : Loop F × List (Effect F))
      → any (λ row. is_waiting row.status) i.received.sessions ≡ true
      → round same_f art_ok i s ≡ ok r
      → r.0.sleeping ≡ false
  unfolding round
  waiting_awake art_ok i s r h e =
      let (a, ea, er) =
        >>=-eq-ok (read_touch art_ok i (shown_state i) s) (λ a. ok (settle same_f art_ok i a)) e in
      subst (λ x. x.0.sleeping ≡ false) (ok-injective er) (settled_awake art_ok i a h)
