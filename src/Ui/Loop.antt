-- ===== src/Ui/Loop.antt =====
-- firmware/src/main.rs: one round of the display loop of the USB build, for a colour LCD.
-- What the round reads of the world is an `Input`, what it does to it a list of `Effect`s. Times
-- are milliseconds on one clock, read once in a round. The heartbeat log line is left out.
pub mod Screen
pub mod Current
pub mod Kept
pub mod Drawn
mod Examples
use cydrust.Prelude.{
  ℕ, ◌+◌, ◌-◌, ◌*◌, ◌/◌, ◌%◌, ◌^◌, min, max, Bool, true, false, not, ◌&&◌, ◌||◌, Option, none, some,
  List, [], ◌∷◌, ◌++◌, ltb, leb, ◌==◌, if◌then◌else◌, any,
}
use cydrust.Prelude.Int.{ℤ, pos, ltb_ℤ}
use cydrust.Prelude.Run.{Run, ok, ◌>>=◌}
use cydrust.Proto.Model.{Bytes, DisplayState}
use cydrust.Proto.Same.{same_bool, same_metrics, same_state}
use cydrust.Mascot.{Mood, mood_for, is_waiting}
use cydrust.Ui.{Tab, sessions, usage, metrics, pixel, settings, View, list, detail}
use cydrust.Ui.Tabs.{tab_at}
use cydrust.Ui.Settings.{Settings, settings_touch}
use cydrust.Ui.Cards.{sessions_touch}
use cydrust.Ui.Art.{ArtState, wake, tick}

-- `raw.saturating_sub(low) * size / (high - low)`, at most `size - 1`; u32 holds the product
axis : ℕ → ℕ → ℕ → ℕ → ℕ
axis low high size raw = min ((raw - low) * size / (high - low)) (size - 1)

unfoldable pub raw_to_screen : ℕ → ℕ → ℕ × ℕ
unfolding axis
raw_to_screen raw_x raw_y = (axis 200 3900 320 raw_x, axis 240 3800 240 raw_y)

abbrev pub z_touch : ℕ
z_touch = 400

pub data Effect (F : Type 0) : Type 0 where
  -- `set_brightness`, in per cent
  backlight : ℕ → Effect F
  backlight_off : Effect F
  -- the flag `DARK` of the palette
  palette : Bool → Effect F
  store : Settings → Effect F
  ack : Bytes → Effect F
  -- `render` of a state: tab, view, settings, full clear, frame, full screen
  paint : DisplayState F → Tab → View → Settings → Bool → ℕ → Bool → Effect F

pub record Input (F : Type 0) : Type 0 where
  pub now : ℕ
  pub received : DisplayState F
  pub last_rx : ℕ
  pub z : ℕ
  pub raw_x : ℕ
  pub raw_y : ℕ

pub record Loop (F : Type 0) : Type 0 where
  pub active_tab : Tab
  pub view : View
  pub was_touched : Bool
  pub last_touch : ℕ
  pub sleeping : Bool
  pub prev : Option (DisplayState F × Tab × View × Settings)
  pub prev_paint : Option (Tab × Bool)
  pub art : ArtState
  pub last_mood : Mood
  pub settings : Settings

abbrev pub same_tab : Tab → Tab → Bool
same_tab sessions sessions = true
same_tab usage usage = true
same_tab metrics metrics = true
same_tab pixel pixel = true
same_tab settings settings = true
same_tab _ _ = false

abbrev pub same_view : View → View → Bool
same_view list list = true
same_view (detail i) (detail j) = i == j
same_view _ _ = false

abbrev pub same_mood : Mood → Mood → Bool
same_mood Mood.happy Mood.happy = true
same_mood Mood.juggling Mood.juggling = true
same_mood Mood.building Mood.building = true
same_mood Mood.typing Mood.typing = true
same_mood Mood.sleeping Mood.sleeping = true
same_mood _ _ = false

abbrev pub same_settings : Settings → Settings → Bool
same_settings a b =
    a.brightness == b.brightness
    && a.sleep_min == b.sleep_min
    && same_bool a.dark b.dark
    && a.art_sec == b.art_sec

ack_effects : {F : Type 0} → Option Bytes → List (Effect F)
ack_effects none = []
ack_effects (some id) = ack id ∷ []

module _ {F : Type 0} where
  -- the state that is shown: offline after more than six whole seconds of silence
  abbrev pub shown_state : Input F → DisplayState F
  shown_state i = record (i.received) { offline = ltb 6 ((i.now - i.last_rx) / 1000) }

  -- the settings tab's answer to a touch; a new palette repaints the whole screen
  adopt : Settings → Bool → Loop F → Loop F × List (Effect F)
  adopt set changed s =
      let themed = not (same_bool set.dark s.settings.dark) in
      let saved = backlight set.brightness ∷ store set ∷ [] in
      if changed
      then (if themed
          then (record s { settings = set; prev = none }, palette set.dark ∷ saved)
          else (record s { settings = set }, saved))
      else (record s { settings = set }, [])

  touch_settings : ℕ → ℕ → Loop F → Loop F × List (Effect F)
  unfolding adopt
  touch_settings sx sy s =
      let (set, changed) = settings_touch (pos sx) (pos sy) s.settings in adopt set changed s

  touch_sessions : DisplayState F → ℕ → ℕ → Loop F → Loop F × List (Effect F)
  unfolding ack_effects
  touch_sessions ds sx sy s =
      let r = sessions_touch ds (pos sx) (pos sy) s.view in
      (record s { view = r.0 }, ack_effects r.1)

  -- the body of the tab that is shown; the usage, metrics and pixel tabs ignore touches
  touch_body : Tab → DisplayState F → ℕ → ℕ → Loop F → Loop F × List (Effect F)
  unfolding touch_sessions touch_settings
  touch_body sessions ds sx sy s = touch_sessions ds sx sy s
  touch_body settings ds sx sy s = touch_settings sx sy s
  touch_body _ ds sx sy s = (s, [])

  -- a touch on a screen that shows its tabs
  route : Bool → DisplayState F → ℕ → ℕ → Loop F → Run (Loop F × List (Effect F))
  unfolding touch_body
  route art_ok ds sx sy s =
      if ltb sy 34
      then (tab_at art_ok (pos sx) >>= λ t. ok (record s { active_tab = t; view = list }, []))
      else ok (touch_body s.active_tab ds sx sy s)

  -- the ladder of `if`s: on a sleeping screen, on one that shows the art, on any other
  use_touch : Bool → Bool → Bool → DisplayState F → ℕ → ℕ → Loop F → Run (Loop F × List (Effect F))
  unfolding route
  use_touch true dismissed art_ok ds sx sy s =
      ok (record s { sleeping = false; prev = none }, backlight s.settings.brightness ∷ [])
  use_touch false true art_ok ds sx sy s = ok (record s { prev = none }, [])
  use_touch false false art_ok ds sx sy s = route art_ok ds sx sy s

  -- A new touch: it wakes a sleeping screen, or dismisses the art, and is used up by that.
  unfoldable pub on_touch :
      Bool → ℕ → DisplayState F → ℕ → ℕ → Loop F → Run (Loop F × List (Effect F))
  unfolding use_touch
  on_touch art_ok now ds sx sy s =
      let (art, dismissed) = wake now s.art in
      use_touch s.sleeping dismissed art_ok ds sx sy (record s { last_touch = now; art = art })

  -- the touch controller is read for a new touch
  maybe_touch : Bool → Bool → Input F → DisplayState F → Loop F → Run (Loop F × List (Effect F))
  maybe_touch true art_ok i ds s =
      let (sx, sy) = raw_to_screen i.raw_x i.raw_y in on_touch art_ok i.now ds sx sy s
  maybe_touch false art_ok i ds s = ok (s, [])

  -- a touch is new where the pressure passes the threshold and did not in the round before
  unfoldable pub read_touch :
      Bool → Input F → DisplayState F → Loop F → Run (Loop F × List (Effect F))
  unfolding maybe_touch
  read_touch art_ok i ds s = do
    let touched = ltb z_touch i.z
    r ← maybe_touch (touched && not s.was_touched) art_ok i ds s
    ok (record (r.0) { was_touched = touched }, r.1)

  -- a session that waits keeps the screen on, and wakes it
  unfoldable pub keep_awake : ℕ → DisplayState F → Loop F → Loop F × List (Effect F)
  keep_awake now ds s =
      if any (λ r. is_waiting r.status) ds.sessions
      then (if s.sleeping
          then (
            record s { last_touch = now; sleeping = false; prev = none },
            backlight s.settings.brightness ∷ [],
          )
          else (record s { last_touch = now }, []))
      else (s, [])

  unfoldable pub fall_asleep : ℕ → Loop F → Loop F × List (Effect F)
  fall_asleep now s =
      if not s.sleeping
        && ltb 0 s.settings.sleep_min
        && leb (s.settings.sleep_min * 60 * 1000) (now - s.last_touch)
      then (record s { sleeping = true }, backlight_off ∷ [])
      else (s, [])

  -- what `render` is to draw: the tab, and whether it fills the screen
  abbrev pub target : Loop F → Tab × Bool
  target s = if s.art.engaged then (pixel, true) else (s.active_tab, false)

module _ {F : Type 0} (same_f : F → F → Bool) where
  layout_changed : Loop F → Bool
  layout_changed s = elim s.prev [
    | none ↦ true
    | some p ↦ not (same_tab p.1 s.active_tab) || not (same_view p.2 s.view)
  ]

  -- what the shown tab depends on
  unfoldable pub same_content :
      Tab → DisplayState F × Tab × View × Settings → DisplayState F → Settings → Bool
  same_content settings p ds set = same_settings p.3 set
  same_content metrics p ds set = same_metrics same_f p.0.metrics ds.metrics
  same_content _ p ds set = same_state same_f p.0 ds

  content_changed : DisplayState F → Loop F → Bool
  unfolding same_content
  content_changed ds s = elim s.prev [
    | none ↦ true
    | some p ↦ not (same_content s.active_tab p ds s.settings)
  ]

  paint_changed : Loop F → Bool
  paint_changed s = elim s.prev_paint [
    | none ↦ true
    | some p ↦ not (same_tab p.0 (target s).0) || not (same_bool p.1 (target s).1)
  ]

  painted : DisplayState F → Loop F → Loop F × List (Effect F)
  unfolding layout_changed paint_changed
  painted ds s = (
    record s { prev = some (ds, s.active_tab, s.view, s.settings); prev_paint = some (target s) },
    paint ds (target s).0 s.view s.settings (layout_changed s || paint_changed s) s.art.frame
          (target s).1
        ∷ [],
  )

  needs_paint : DisplayState F → Bool → Loop F → Bool
  unfolding layout_changed content_changed paint_changed
  needs_paint ds art_dirty s =
      layout_changed s || content_changed ds s || art_dirty || paint_changed s

  paint_when : Bool → DisplayState F → Loop F → Loop F × List (Effect F)
  unfolding painted
  paint_when true ds s = painted ds s
  paint_when false ds s = (s, [])

  -- the last `if` of the round
  repaint : DisplayState F → Bool → Loop F → Loop F × List (Effect F)
  unfolding needs_paint paint_when
  repaint ds art_dirty s = paint_when (needs_paint ds art_dirty s) ds s

  -- a screen that is on: the clock of the art, then the paint
  unfoldable pub refresh : Bool → ℕ → DisplayState F → Loop F → Loop F × List (Effect F)
  unfolding repaint
  refresh art_ok now ds s =
      let mood = mood_for ds in
      let showing_art = s.art.engaged || same_tab s.active_tab pixel in
      let art_sec = if art_ok then s.settings.art_sec else 0 in
      let (art, ticked) = tick now art_sec (not (same_mood mood s.last_mood)) s.art in
      repaint ds (ticked && showing_art) (record s { last_mood = mood; art = art })

  -- `if !sleeping`
  unfoldable pub refresh_unless :
      Bool → Bool → ℕ → DisplayState F → Loop F → Loop F × List (Effect F)
  refresh_unless true art_ok now ds s = (s, [])
  refresh_unless false art_ok now ds s = refresh art_ok now ds s

  -- the round after its touch
  unfoldable pub settle : Bool → Input F → Loop F × List (Effect F) → Loop F × List (Effect F)
  unfolding refresh_unless
  settle art_ok i a =
      let ds = shown_state i in
      let b = keep_awake i.now ds a.0 in
      let c = fall_asleep i.now b.0 in
      let d = refresh_unless c.0.sleeping art_ok i.now ds c.0 in (d.0, a.1 ++ (b.1 ++ (c.1 ++ d.1)))

  -- one round of the loop, with its effects in their order
  unfoldable pub round : Bool → Input F → Loop F → Run (Loop F × List (Effect F))
  unfolding settle
  round art_ok i s = read_touch art_ok i (shown_state i) s >>= λ a. ok (settle art_ok i a)
