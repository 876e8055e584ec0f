-- ===== src/Ui/Loop/Drawn.antt =====
-- firmware/src/main.rs: what the effects of a round leave on the screen.
use cydrust.Prelude.{
  ℕ, ◌≡◌, refl, Bool, true, false, Option, none, some, List, [], ◌∷◌, ◌++◌, if◌then◌else◌, ◌&&◌,
  not, ◌||◌, ltb, Bool-cases, inl, inr, any, subst, if_both,
}
use cydrust.Prelude.Int.{pos}
use cydrust.Prelude.Run.{Run, ok, ok-injective}
use cydrust.Proto.Model.{Bytes, DisplayState}
use cydrust.Proto.Same.{same_bool}
use cydrust.Mascot.{mood_for, is_waiting}
use cydrust.Ui.{Tab, sessions, pixel, settings, View, list}
use cydrust.Ui.Tabs.Geometry.{tab_at_total}
use cydrust.Ui.Settings.{Settings, settings_touch}
use cydrust.Ui.Cards.{sessions_touch}
use cydrust.Ui.Art.{wake, tick}
use cydrust.Ui.Loop.{
  Effect, backlight, backlight_off, palette, store, ack, paint, Input, Loop, shown_state, adopt,
  touch_body, ack_effects, route, use_touch, on_touch, maybe_touch, z_touch, read_touch, keep_awake,
  fall_asleep, needs_paint, paint_when, refresh, refresh_unless, settle, same_mood, same_tab, round,
  raw_to_screen,
}

-- what a call of `render` draws
pub record Picture (F : Type 0) : Type 0 where
  pub state : DisplayState F
  pub tab : Tab
  pub view : View
  pub settings : Settings
  pub full : Bool

-- the picture on the screen after an effect
abbrev pub draw : {F : Type 0} → Option (Picture F) → Effect F → Option (Picture F)
draw pic (paint ds t v set clear frame full) =
    some (record { state = ds; tab = t; view = v; settings = set; full = full })
draw pic (backlight p) = pic
draw pic backlight_off = pic
draw pic (palette b) = pic
draw pic (store s) = pic
draw pic (ack id) = pic

abbrev pub draw_all : {F : Type 0} → Option (Picture F) → List (Effect F) → Option (Picture F)
draw_all pic [] = pic
draw_all pic (e ∷ es) = draw_all (draw pic e) es

draw_all-append :
    {F : Type 0} (pic : Option (Picture F)) (es fs : List (Effect F))
    → draw_all pic (es ++ fs) ≡ draw_all (draw_all pic es) fs
draw_all-append pic [] fs = refl
draw_all-append pic (e ∷ es) fs = draw_all-append (draw pic e) es fs

module _ {F : Type 0} where
  -- what the loop remembers of its last paint, where it does, is on the screen
  abbrev pub Remembers :
      Option (DisplayState F × Tab × View × Settings)
      → Option (Tab × Bool)
      → Option (Picture F)
      → Type 0
  Remembers none q pic = Unit
  Remembers (some p) none pic = Unit
  Remembers (some p) (some q) pic =
      pic ≡ some (record { state = p.0; tab = q.0; view = p.2; settings = p.3; full = q.1 })

  abbrev pub Matches : Option (Picture F) → Loop F → Type 0
  Matches pic s = Remembers s.prev s.prev_paint pic

  ack_effects-Matches :
      (o : Option Bytes) (pic : Option (Picture F)) (s : Loop F)
      → Matches pic s
      → Matches (draw_all pic (ack_effects o)) s
  unfolding ack_effects
  ack_effects-Matches none pic s m = m
  ack_effects-Matches (some id) pic s m = m

  adopt-Matches :
      (set : Settings) (changed : Bool) (pic : Option (Picture F)) (s : Loop F)
      → Matches pic s
      → Matches (draw_all pic (adopt set changed s).1) (adopt set changed s).0
  unfolding adopt
  adopt-Matches set false pic s m = m
  adopt-Matches set true pic s m = elim (Bool-cases (not (same_bool set.dark s.settings.dark))) [
    | inl e ↦ rw e tt
    | inr e ↦ rw e m
  ]

  touch_body-Matches :
      (t : Tab) (ds : DisplayState F) (sx sy : ℕ) (pic : Option (Picture F)) (s : Loop F)
      → Matches pic s
      → Matches (draw_all pic (touch_body t ds sx sy s).1) (touch_body t ds sx sy s).0
  unfolding touch_body
  touch_body-Matches settings ds sx sy pic s m =
      adopt-Matches (settings_touch (pos sx) (pos sy) s.settings).0
        (settings_touch (pos sx) (pos sy) s.settings).1 pic s m
  touch_body-Matches sessions ds sx sy pic s m =
      ack_effects-Matches (sessions_touch ds (pos sx) (pos sy) s.view).1 pic
        (record s { view = (sessions_touch ds (pos sx) (pos sy) s.view).0 }) m
  touch_body-Matches _ ds sx sy pic s m = m

  -- what a phase of the round that cannot panic promises
  abbrev Draws : Run (Loop F × List (Effect F)) → Option (Picture F) → Type 0
  Draws m pic = (r : Loop F × List (Effect F)) × (m ≡ ok r) × Matches (draw_all pic r.1) r.0

  route-Draws :
      (art_ok : Bool) (ds : DisplayState F) (sx sy : ℕ) (pic : Option (Picture F)) (s : Loop F)
      → Matches pic s
      → Draws (route art_ok ds sx sy s) pic
  unfolding route
  route-Draws art_ok ds sx sy pic s m = elim (Bool-cases (ltb sy 34)) [
    | inl e ↦
        let (k, c, h, t) = tab_at_total art_ok (pos sx) in
        ((record s { active_tab = c.tab; view = list }, []), rw (e, t), m)
    | inr e ↦
        (touch_body s.active_tab ds sx sy s, rw e, touch_body-Matches s.active_tab ds sx sy pic s m)
  ]

  use_touch-Draws :
      (asleep dismissed art_ok : Bool) (ds : DisplayState F) (sx sy : ℕ) (pic : Option (Picture F))
      (s : Loop F)
      → Matches pic s
      → Draws (use_touch asleep dismissed art_ok ds sx sy s) pic
  unfolding use_touch
  use_touch-Draws true dismissed art_ok ds sx sy pic s m = (_, refl, tt)
  use_touch-Draws false true art_ok ds sx sy pic s m = (_, refl, tt)
  use_touch-Draws false false art_ok ds sx sy pic s m = route-Draws art_ok ds sx sy pic s m

  maybe_touch-Draws :
      (touched art_ok : Bool) (i : Input F) (ds : DisplayState F) (pic : Option (Picture F))
      (s : Loop F)
      → Matches pic s
      → Draws (maybe_touch touched art_ok i ds s) pic
  unfolding maybe_touch on_touch
  maybe_touch-Draws true art_ok i ds pic s m =
      use_touch-Draws s.sleeping (wake i.now s.art).1 art_ok ds (raw_to_screen i.raw_x i.raw_y).0
        (raw_to_screen i.raw_x i.raw_y).1 pic
        (record s { last_touch = i.now; art = (wake i.now s.art).0 }) m
  maybe_touch-Draws false art_ok i ds pic s m = ((s, []), refl, m)

  read_touch-Draws :
      (art_ok : Bool) (i : Input F) (ds : DisplayState F) (pic : Option (Picture F)) (s : Loop F)
      → Matches pic s
      → Draws (read_touch art_ok i ds s) pic
  unfolding read_touch
  read_touch-Draws art_ok i ds pic s m =
      let (r, e, k) =
        maybe_touch-Draws (ltb z_touch i.z && not s.was_touched) art_ok i ds pic s m in
      ((record (r.0) { was_touched = ltb z_touch i.z }, r.1), rw e, k)

  keep_awake-Matches :
      (now : ℕ) (ds : DisplayState F) (pic : Option (Picture F)) (s : Loop F)
      → Matches pic s
      → Matches (draw_all pic (keep_awake now ds s).1) (keep_awake now ds s).0
  unfolding keep_awake
  keep_awake-Matches now ds pic s m =
      elim (Bool-cases (any (λ r. is_waiting r.status) ds.sessions)) [
        | inl e ↦ elim (Bool-cases s.sleeping) [ inl a ↦ rw (e, a) tt | inr a ↦ rw (e, a) m ]
        | inr e ↦ rw e m
      ]

  fall_asleep-Matches :
      (now : ℕ) (pic : Option (Picture F)) (s : Loop F)
      → Matches pic s
      → Matches (draw_all pic (fall_asleep now s).1) (fall_asleep now s).0
  unfolding fall_asleep
  fall_asleep-Matches now pic s m =
      if_both (λ (r : Loop F × List (Effect F)). Matches (draw_all pic r.1) r.0) _ m m

module _ {F : Type 0} (same_f : F → F → Bool) where
  paint_when-Matches :
      (b : Bool) (ds : DisplayState F) (pic : Option (Picture F)) (s : Loop F)
      → Matches pic s
      → Matches (draw_all pic (paint_when same_f b ds s).1) (paint_when same_f b ds s).0
  unfolding paint_when
  paint_when-Matches true ds pic s m = refl
  paint_when-Matches false ds pic s m = m

  refresh-Matches :
      (art_ok : Bool) (now : ℕ) (ds : DisplayState F) (pic : Option (Picture F)) (s : Loop F)
      → Matches pic s
      → Matches (draw_all pic (refresh same_f art_ok now ds s).1) (refresh same_f art_ok now ds s).0
  unfolding refresh
  refresh-Matches art_ok now ds pic s m =
      let mood = mood_for ds in
      let sec = if art_ok then s.settings.art_sec else 0 in
      let (art, ticked) = tick now sec (not (same_mood mood s.last_mood)) s.art in
      let t = record s { last_mood = mood; art = art } in
      let dirty = ticked && (s.art.engaged || same_tab s.active_tab pixel) in
      paint_when-Matches (needs_paint same_f ds dirty t) ds pic t m

  refresh_unless-Matches :
      (b art_ok : Bool) (now : ℕ) (ds : DisplayState F) (pic : Option (Picture F)) (s : Loop F)
      → Matches pic s
      → Matches
          (draw_all pic (refresh_unless same_f b art_ok now ds s).1)
          (refresh_unless same_f b art_ok now ds s).0
  unfolding refresh_unless
  refresh_unless-Matches true art_ok now ds pic s m = m
  refresh_unless-Matches false art_ok now ds pic s m = refresh-Matches art_ok now ds pic s m

  settle-Matches :
      (art_ok : Bool) (i : Input F) (pic : Option (Picture F)) (a : Loop F × List (Effect F))
      → Matches (draw_all pic a.1) a.0
      → Matches (draw_all pic (settle same_f art_ok i a).1) (settle same_f art_ok i a).0
  unfolding settle
  settle-Matches art_ok i pic a m =
      let b = keep_awake i.now (shown_state i) a.0 in
      let mb = keep_awake-Matches i.now (shown_state i) (draw_all pic a.1) a.0 m in
      let c = fall_asleep i.now b.0 in
      let mc = fall_asleep-Matches i.now (draw_all (draw_all pic a.1) b.1) b.0 mb in
      let mp =
        refresh_unless-Matches c.0.sleeping art_ok i.now (shown_state i)
          (draw_all (draw_all (draw_all pic a.1) b.1) c.1) c.0 mc in
      rw draw_all-append (rw draw_all-append (rw draw_all-append mp))

  -- What the loop remembers of its last paint stays what is on the screen.
  pub round-Matches :
      (art_ok : Bool) (i : Input F) (pic : Option (Picture F)) (s : Loop F)
      (r : Loop F × List (Effect F))
      → Matches pic s
      → round same_f art_ok i s ≡ ok r
      → Matches (draw_all pic r.1) r.0
  unfolding round
  round-Matches art_ok i pic s r m e =
      let (a, ea, ma) = read_touch-Draws art_ok i (shown_state i) pic s m in
      let same : settle same_f art_ok i a ≡ r = ok-injective (rw ea at e) in
      subst (λ x. Matches (draw_all pic x.1) x.0) same (settle-Matches art_ok i pic a ma)
