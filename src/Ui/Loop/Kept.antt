-- ===== src/Ui/Loop/Kept.antt =====
-- firmware/src/main.rs: the settings in memory, in the store, and on the device.
use cydrust.Prelude.{
  ℕ, ◌≡◌, refl, Bool, true, false, Option, none, some, List, [], ◌∷◌, ◌++◌, arith, if◌then◌else◌,
  ◌&&◌, not, ◌||◌, ltb, Bool-cases, inl, inr,
}
use cydrust.Prelude.Int.{pos}
use cydrust.Prelude.Run.{Run, ok}
use cydrust.Proto.Model.{Bytes, DisplayState}
use cydrust.Ui.{Tab, sessions, pixel, settings, list}
use cydrust.Ui.Tabs.Geometry.{tab_at_total}
use cydrust.Ui.Settings.{Settings}
use cydrust.Ui.Settings.Valid.{IsValid, settings_touch-IsValid, settings_touch-false}
use cydrust.Mascot.{mood_for}
use cydrust.Ui.Cards.{sessions_touch}
use cydrust.Ui.Art.{wake, tick}
use cydrust.Ui.Loop.{
  Effect, backlight, backlight_off, palette, store, ack, paint, Input, Loop, shown_state, adopt,
  touch_body, ack_effects, route, use_touch, on_touch, maybe_touch, z_touch, read_touch, keep_awake,
  fall_asleep, needs_paint, paint_when, refresh, refresh_unless, same_mood, same_tab, round,
  raw_to_screen,
}

-- what the effects leave behind: the store, the backlight in per cent, and the palette
pub record Device : Type 0 where
  pub stored : Settings
  pub level : ℕ
  pub dark : Bool

abbrev pub apply : {F : Type 0} → Device → Effect F → Device
apply d (backlight p) = record d { level = p }
apply d backlight_off = record d { level = 0 }
apply d (palette b) = record d { dark = b }
apply d (store s) = record d { stored = s }
apply d (ack id) = d
apply d (paint ds t v set c f w) = d

abbrev pub apply_all : {F : Type 0} → Device → List (Effect F) → Device
apply_all d [] = d
apply_all d (e ∷ es) = apply_all (apply d e) es

apply_all-append :
    {F : Type 0} (d : Device) (es fs : List (Effect F))
    → apply_all d (es ++ fs) ≡ apply_all (apply_all d es) fs
apply_all-append d [] fs = refl
apply_all-append d (e ∷ es) fs = apply_all-append (apply d e) es fs

-- The settings are valid and stored, the palette is theirs, and so is the backlight unless the
-- screen sleeps and it is off.
pub record InSync {F : Type 0} (d : Device) (s : Loop F) : Type 0 where
  pub valid : IsValid s.settings
  pub stored : d.stored ≡ s.settings
  pub level : d.level ≡ (if s.sleeping then 0 else s.settings.brightness)
  pub dark : d.dark ≡ s.settings.dark

module _ {F : Type 0} where
  ack_effects-InSync :
      (o : Option Bytes) (d : Device) (s : Loop F)
      → InSync d s
      → InSync (apply_all d (ack_effects {F = F} o)) s
  unfolding ack_effects
  ack_effects-InSync none d s i = i
  ack_effects-InSync (some id) d s i = i

  adopt-InSync :
      (set : Settings) (changed : Bool) (d : Device) (s : Loop F)
      → IsValid set
      → (changed ≡ false → set ≡ s.settings)
      → s.sleeping ≡ false
      → InSync d s
      → InSync (apply_all d (adopt set changed s).1) (adopt set changed s).0
  unfolding adopt
  adopt-InSync set changed d s v same awake i = ground arith

  touch_body-InSync :
      (t : Tab) (ds : DisplayState F) (sx sy : ℕ) (d : Device) (s : Loop F)
      → s.sleeping ≡ false
      → InSync d s
      → InSync (apply_all d (touch_body t ds sx sy s).1) (touch_body t ds sx sy s).0
  unfolding touch_body
  touch_body-InSync settings ds sx sy d s awake i =
      adopt-InSync _ _ d s (settings_touch-IsValid (pos sx) (pos sy) s.settings i.valid)
        (settings_touch-false (pos sx) (pos sy) s.settings) awake i
  touch_body-InSync sessions ds sx sy d s awake i =
      ack_effects-InSync (sessions_touch ds (pos sx) (pos sy) s.view).1 d
        (record s { view = (sessions_touch ds (pos sx) (pos sy) s.view).0 })
        (record { valid = i.valid; stored = i.stored; level = i.level; dark = i.dark })
  touch_body-InSync _ ds sx sy d s awake i = i

  -- what a phase of the round that cannot panic promises
  abbrev Syncs : Run (Loop F × List (Effect F)) → Device → Type 0
  Syncs m d = (r : Loop F × List (Effect F)) × (m ≡ ok r) × InSync (apply_all d r.1) r.0

  route-Syncs :
      (art_ok : Bool) (ds : DisplayState F) (sx sy : ℕ) (d : Device) (s : Loop F)
      → s.sleeping ≡ false
      → InSync d s
      → Syncs (route art_ok ds sx sy s) d
  unfolding route
  route-Syncs art_ok ds sx sy d s awake i = elim (Bool-cases (ltb sy 34)) [
    | inl e ↦
        let (k, c, h, t) = tab_at_total art_ok (pos sx) in
        (
          (record s { active_tab = c.tab; view = list }, []),
          rw (e, t),
          record { valid = i.valid; stored = i.stored; level = i.level; dark = i.dark },
        )
    | inr e ↦ (
      touch_body s.active_tab ds sx sy s,
      rw e,
      touch_body-InSync s.active_tab ds sx sy d s awake i,
    )
  ]

  use_touch-Syncs :
      (asleep dismissed art_ok : Bool) (ds : DisplayState F) (sx sy : ℕ) (d : Device) (s : Loop F)
      → s.sleeping ≡ asleep
      → InSync d s
      → Syncs (use_touch asleep dismissed art_ok ds sx sy s) d
  unfolding use_touch
  use_touch-Syncs true dismissed art_ok ds sx sy d s e i =
      (_, refl, record { valid = i.valid; stored = i.stored; level = refl; dark = i.dark })
  use_touch-Syncs false true art_ok ds sx sy d s e i =
      (_, refl, record { valid = i.valid; stored = i.stored; level = i.level; dark = i.dark })
  use_touch-Syncs false false art_ok ds sx sy d s e i = route-Syncs art_ok ds sx sy d s e i

  on_touch-Syncs :
      (art_ok : Bool) (now : ℕ) (ds : DisplayState F) (sx sy : ℕ) (d : Device) (s : Loop F)
      → InSync d s
      → Syncs (on_touch art_ok now ds sx sy s) d
  unfolding on_touch
  on_touch-Syncs art_ok now ds sx sy d s i =
      use_touch-Syncs s.sleeping (wake now s.art).1 art_ok ds sx sy d
        (record s { last_touch = now; art = (wake now s.art).0 }) refl
        (record { valid = i.valid; stored = i.stored; level = i.level; dark = i.dark })

  -- the touch of a round, where there is one
  maybe_touch-Syncs :
      (touched art_ok : Bool) (i : Input F) (ds : DisplayState F) (d : Device) (s : Loop F)
      → InSync d s
      → Syncs (maybe_touch touched art_ok i ds s) d
  unfolding maybe_touch
  maybe_touch-Syncs true art_ok i ds d s h =
      on_touch-Syncs art_ok i.now ds (raw_to_screen i.raw_x i.raw_y).0
        (raw_to_screen i.raw_x i.raw_y).1 d s h
  maybe_touch-Syncs false art_ok i ds d s h = ((s, []), refl, h)

  read_touch-Syncs :
      (art_ok : Bool) (i : Input F) (ds : DisplayState F) (d : Device) (s : Loop F)
      → InSync d s
      → Syncs (read_touch art_ok i ds s) d
  unfolding read_touch
  read_touch-Syncs art_ok i ds d s h =
      let (r, e, j) = maybe_touch-Syncs (ltb z_touch i.z && not s.was_touched) art_ok i ds d s h in
      (
        (record (r.0) { was_touched = ltb z_touch i.z }, r.1),
        rw e,
        record { valid = j.valid; stored = j.stored; level = j.level; dark = j.dark },
      )

  keep_awake-InSync :
      (now : ℕ) (ds : DisplayState F) (d : Device) (s : Loop F)
      → InSync d s
      → InSync (apply_all d (keep_awake now ds s).1) (keep_awake now ds s).0
  unfolding keep_awake
  keep_awake-InSync now ds d s i = ground arith

  fall_asleep-InSync :
      (now : ℕ) (d : Device) (s : Loop F)
      → InSync d s
      → InSync (apply_all d (fall_asleep now s).1) (fall_asleep now s).0
  unfolding fall_asleep
  fall_asleep-InSync now d s i = ground arith

module _ {F : Type 0} (same_f : F → F → Bool) where
  paint_when-InSync :
      (b : Bool) (ds : DisplayState F) (d : Device) (s : Loop F)
      → InSync d s
      → InSync (apply_all d (paint_when same_f b ds s).1) (paint_when same_f b ds s).0
  unfolding paint_when
  paint_when-InSync true ds d s i = record {
    valid = i.valid;
    stored = i.stored;
    level = i.level;
    dark = i.dark;
  }
  paint_when-InSync false ds d s i = i

  refresh-InSync :
      (art_ok : Bool) (now : ℕ) (ds : DisplayState F) (d : Device) (s : Loop F)
      → InSync d s
      → InSync (apply_all d (refresh same_f art_ok now ds s).1) (refresh same_f art_ok now ds s).0
  unfolding refresh
  refresh-InSync art_ok now ds d s i =
      let mood = mood_for ds in
      let sec = if art_ok then s.settings.art_sec else 0 in
      let (art, ticked) = tick now sec (not (same_mood mood s.last_mood)) s.art in
      let t = record s { last_mood = mood; art = art } in
      let dirty = ticked && (s.art.engaged || same_tab s.active_tab pixel) in
      paint_when-InSync (needs_paint same_f ds dirty t) ds d t
        (record { valid = i.valid; stored = i.stored; level = i.level; dark = i.dark })

  refresh_unless-InSync :
      (b art_ok : Bool) (now : ℕ) (ds : DisplayState F) (d : Device) (s : Loop F)
      → InSync d s
      → InSync
          (apply_all d (refresh_unless same_f b art_ok now ds s).1)
          (refresh_unless same_f b art_ok now ds s).0
  unfolding refresh_unless
  refresh_unless-InSync true art_ok now ds d s i = i
  refresh_unless-InSync false art_ok now ds d s i = refresh-InSync art_ok now ds d s i

  -- No round of the loop panics, and after it, as before it, the settings are valid, the store
  -- holds them, and palette and backlight follow them (the backlight is off while the screen
  -- sleeps).
  pub round-InSync :
      (art_ok : Bool) (i : Input F) (d : Device) (s : Loop F)
      → InSync d s
      → (r : Loop F × List (Effect F)) × (round same_f art_ok i s ≡ ok r)
        × InSync (apply_all d r.1) r.0
  unfolding round
  round-InSync art_ok i d s h =
      let (a, ea, ja) = read_touch-Syncs art_ok i (shown_state i) d s h in
      let b = keep_awake i.now (shown_state i) a.0 in
      let jb = keep_awake-InSync i.now (shown_state i) (apply_all d a.1) a.0 ja in
      let c = fall_asleep i.now b.0 in
      let jc = fall_asleep-InSync i.now (apply_all (apply_all d a.1) b.1) b.0 jb in
      let p = refresh_unless same_f c.0.sleeping art_ok i.now (shown_state i) c.0 in
      let jp =
        refresh_unless-InSync c.0.sleeping art_ok i.now (shown_state i)
          (apply_all (apply_all (apply_all d a.1) b.1) c.1) c.0 jc in
      (
        (p.0, a.1 ++ (b.1 ++ (c.1 ++ p.1))),
        rw ea,
        rw apply_all-append (rw apply_all-append (rw apply_all-append jp)),
      )
