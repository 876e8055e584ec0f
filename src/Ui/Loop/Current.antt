-- ===== src/Ui/Loop/Current.antt =====
-- firmware/src/main.rs: what a screen that is on shows.
use cydrust.Prelude.{
  ℕ, ◌≡◌, refl, sym, ◌∙◌, subst, Bool, true, false, not, ◌&&◌, ◌||◌, Option, some, List, arith,
  Option-cases, if◌then◌else◌, inl, inr, ap,
}
use cydrust.Prelude.Run.{ok, >>=-eq-ok, ok-injective}
use cydrust.Proto.Model.{DisplayState}
use cydrust.Proto.Same.{same_bool, same_metrics, same_state}
use cydrust.Proto.Reflexive.{==_refl, same_bool_refl, same_metrics_refl, same_state_refl}
use cydrust.Mascot.{mood_for}
use cydrust.Ui.{Tab, sessions, usage, metrics, pixel, settings, View}
use cydrust.Ui.Settings.{Settings}
use cydrust.Ui.Art.{tick}
use cydrust.Ui.Loop.{
  Effect, Input, Loop, shown_state, keep_awake, fall_asleep, needs_paint, paint_when, read_touch,
  refresh, refresh_unless, settle, round, same_mood, same_tab, same_view, same_settings,
  same_content, target, layout_changed, content_changed, paint_changed,
}
use cydrust.Ui.Loop.Drawn.{Picture, Remembers, Matches, draw_all, round-Matches}
use cydrust.Ui.Loop.Screen.{sleeping-refresh_unless}

same_tab→≡ : (a b : Tab) → same_tab a b ≡ true → a ≡ b
same_tab→≡ a b h = ground arith

same_view→≡ : (a b : View) → same_view a b ≡ true → a ≡ b
same_view→≡ a b h = ground arith

same_bool→≡ : (a b : Bool) → same_bool a b ≡ true → a ≡ b
same_bool→≡ a b h = ground arith

same_settings→≡ : (a b : Settings) → same_settings a b ≡ true → a ≡ b
same_settings→≡ a b h = ground arith

same_target : (p q : Tab × Bool) → same_tab p.0 q.0 ≡ true → same_bool p.1 q.1 ≡ true → p ≡ q
same_target (t, b) (u, c) e f = rw (same_tab→≡ t u e, same_bool→≡ b c f)

module _ {F : Type 0} (same_f : F → F → Bool) where
  -- The last paint drew the tab and the view that are active, from a state and from settings that
  -- agree with the present ones in all that this tab shows.
  record IsCurrent (ds : DisplayState F) (s : Loop F) : Type 0 where
    shown : DisplayState F × Tab × View × Settings
    drawn : s.prev ≡ some shown
    tab : shown.1 ≡ s.active_tab
    view : shown.2 ≡ s.view
    content : same_content same_f s.active_tab shown ds s.settings ≡ true
    screen : s.prev_paint ≡ some (target s)

  -- what the tab depends on is as it was drawn: the settings, the metrics, or the whole state
  abbrev pub Agrees : Tab → Picture F → DisplayState F → Settings → Type 0
  Agrees settings p ds set = p.settings ≡ set
  Agrees metrics p ds set = same_metrics same_f p.state.metrics ds.metrics ≡ true
  Agrees sessions p ds set = same_state same_f p.state ds ≡ true
  Agrees usage p ds set = same_state same_f p.state ds ≡ true
  Agrees pixel p ds set = same_state same_f p.state ds ≡ true

  same_content-Agrees :
      (t active : Tab) (v w : View) (full : Bool) (old ds : DisplayState F) (was set : Settings)
      (tab : Tab)
      → same_content same_f t (old, tab, v, was) ds set ≡ true
      → Agrees t
          (record { state = old; tab = active; view = w; settings = was; full = full })
          ds
          set
  unfolding same_content
  same_content-Agrees settings active v w full old ds was set tab h = same_settings→≡ was set h
  same_content-Agrees metrics active v w full old ds was set tab h = h
  same_content-Agrees sessions active v w full old ds was set tab h = h
  same_content-Agrees usage active v w full old ds was set tab h = h
  same_content-Agrees pixel active v w full old ds was set tab h = h

  -- What is on the screen: the tab that is to be shown, full screen where the art shows, in the view
  -- of now, from a state and settings that agree with the present ones in what the active tab
  -- depends on.
  pub record Displays (ds : DisplayState F) (s : Loop F) (pic : Option (Picture F)) : Type 0 where
    pub picture : Picture F
    pub drawn : pic ≡ some picture
    pub tab : picture.tab ≡ (target s).0
    pub full : picture.full ≡ (target s).1
    pub view : picture.view ≡ s.view
    pub content : Agrees s.active_tab picture ds s.settings

  module _ (h : (x : F) → same_f x x ≡ true) where
    same_content_refl :
        (t : Tab) (v : View) (ds : DisplayState F) (set : Settings)
        → same_content same_f t (ds, t, v, set) ds set ≡ true
    unfolding same_content
    same_content_refl settings v ds set = simp (==_refl, same_bool_refl)
    same_content_refl metrics v ds set = same_metrics_refl same_f h ds.metrics
    same_content_refl sessions v ds set = same_state_refl same_f h ds
    same_content_refl usage v ds set = same_state_refl same_f h ds
    same_content_refl pixel v ds set = same_state_refl same_f h ds

    drawn_before :
        (s : Loop F)
        → layout_changed same_f s ≡ false
        → (p : DisplayState F × Tab × View × Settings) × (s.prev ≡ some p)
    unfolding layout_changed
    drawn_before s l = elim (Option-cases s.prev) [ inl e ↦ ground arith | inr e ↦ e ]

    painted_before :
        (s : Loop F) → paint_changed same_f s ≡ false → (q : Tab × Bool) × (s.prev_paint ≡ some q)
    unfolding paint_changed
    painted_before s l = elim (Option-cases s.prev_paint) [ inl e ↦ ground arith | inr e ↦ e ]

    unchanged-IsCurrent :
        (ds : DisplayState F) (s : Loop F) (p : DisplayState F × Tab × View × Settings)
        (q : Tab × Bool)
        → s.prev ≡ some p
        → s.prev_paint ≡ some q
        → layout_changed same_f s ≡ false
        → content_changed same_f ds s ≡ false
        → paint_changed same_f s ≡ false
        → IsCurrent ds s
    unfolding layout_changed content_changed paint_changed
    unchanged-IsCurrent ds s p q e f l c d = record {
      shown = p;
      drawn = e;
      tab = same_tab→≡ p.1 s.active_tab (ground arith);
      view = same_view→≡ p.2 s.view (ground arith);
      content = ground arith;
      screen = f ∙ ap some (same_target q (target s) (ground arith) (ground arith));
    }

    needs_paint-IsCurrent :
        (dirty : Bool) (ds : DisplayState F) (s : Loop F)
        → needs_paint same_f ds dirty s ≡ false
        → IsCurrent ds s
    unfolding needs_paint
    needs_paint-IsCurrent dirty ds s n =
        let l : layout_changed same_f s ≡ false = ground arith in
        let d : paint_changed same_f s ≡ false = ground arith in
        let (p, e) = drawn_before s l in
        let (q, f) = painted_before s d in unchanged-IsCurrent ds s p q e f l (ground arith) d

    paint_when-IsCurrent :
        (b : Bool) (ds : DisplayState F) (s : Loop F)
        → (b ≡ false → IsCurrent ds s)
        → IsCurrent ds (paint_when same_f b ds s).0
    unfolding paint_when
    paint_when-IsCurrent true ds s n = record {
      shown = (ds, s.active_tab, s.view, s.settings);
      drawn = refl;
      tab = refl;
      view = refl;
      content = same_content_refl s.active_tab s.view ds s.settings;
      screen = refl;
    }
    paint_when-IsCurrent false ds s n = n refl

    refresh-IsCurrent :
        (art_ok : Bool) (now : ℕ) (ds : DisplayState F) (s : Loop F)
        → IsCurrent ds (refresh same_f art_ok now ds s).0
    unfolding refresh
    refresh-IsCurrent art_ok now ds s =
        let mood = mood_for ds in
        let sec = if art_ok then s.settings.art_sec else 0 in
        let (art, ticked) = tick now sec (not (same_mood mood s.last_mood)) s.art in
        let t = record s { last_mood = mood; art = art } in
        let dirty = ticked && (s.art.engaged || same_tab s.active_tab pixel) in
        paint_when-IsCurrent (needs_paint same_f ds dirty t) ds t (needs_paint-IsCurrent dirty ds t)

    refresh_unless-IsCurrent :
        (b art_ok : Bool) (now : ℕ) (ds : DisplayState F) (s : Loop F)
        → b ≡ false
        → IsCurrent ds (refresh_unless same_f b art_ok now ds s).0
    unfolding refresh_unless
    refresh_unless-IsCurrent true art_ok now ds s e = cc
    refresh_unless-IsCurrent false art_ok now ds s e = refresh-IsCurrent art_ok now ds s

    settle-IsCurrent :
        (art_ok : Bool) (i : Input F) (a : Loop F × List (Effect F))
        → (settle same_f art_ok i a).0.sleeping ≡ false
        → IsCurrent (shown_state i) (settle same_f art_ok i a).0
    unfolding settle
    settle-IsCurrent art_ok i a h =
        let b = keep_awake i.now (shown_state i) a.0 in
        let c = fall_asleep i.now b.0 in
        refresh_unless-IsCurrent c.0.sleeping art_ok i.now (shown_state i) c.0
          (sym (sleeping-refresh_unless same_f c.0.sleeping art_ok i.now (shown_state i) c.0) ∙ h)

    round-remembers :
        (art_ok : Bool) (i : Input F) (s : Loop F) (r : Loop F × List (Effect F))
        → round same_f art_ok i s ≡ ok r
        → r.0.sleeping ≡ false
        → IsCurrent (shown_state i) r.0
    unfolding round
    round-remembers art_ok i s r e awake =
        let (a, ea, er) =
          >>=-eq-ok (read_touch art_ok i (shown_state i) s) (λ a. ok (settle same_f art_ok i a))
            e in
        subst (λ x. IsCurrent (shown_state i) x.0) (ok-injective er)
          (settle-IsCurrent art_ok i a (ap (λ x. x.0.sleeping) (ok-injective er) ∙ awake))

    -- Let what the loop remembers of its last paint be on the screen, which holds at the start,
    -- where it remembers nothing. After a round that leaves the screen on, the last call of `render`
    -- drew the tab that is to be shown, with the view of now, from a state and settings that agree
    -- with those of now in what the active tab depends on: the settings, the metrics, or for any
    -- other tab the whole state received, with the link's silence in it. This asks that no number of
    -- the state is a NaN, which differs from itself.
    pub round-IsCurrent :
        (art_ok : Bool) (i : Input F) (pic : Option (Picture F)) (s : Loop F)
        (r : Loop F × List (Effect F))
        → Matches pic s
        → round same_f art_ok i s ≡ ok r
        → r.0.sleeping ≡ false
        → Displays (shown_state i) r.0 (draw_all pic r.1)
    round-IsCurrent art_ok i pic s r m e awake =
        let c = round-remembers art_ok i s r e awake in
        let k = round-Matches same_f art_ok i pic s r m e in
        let at : Remembers (some c.shown) (some (target r.0)) (draw_all pic r.1) =
          subst (λ o. Remembers o (some (target r.0)) (draw_all pic r.1)) c.drawn
            (subst (λ o. Remembers r.0.prev o (draw_all pic r.1)) c.screen k) in
        record {
          picture = record {
            state = c.shown.0;
            tab = (target r.0).0;
            view = c.shown.2;
            settings = c.shown.3;
            full = (target r.0).1;
          };
          drawn = at;
          tab = refl;
          full = refl;
          view = c.view;
          content =
              same_content-Agrees r.0.active_tab (target r.0).0 c.shown.2 c.shown.2 (target r.0).1
                c.shown.0 (shown_state i) c.shown.3 r.0.settings c.shown.1 c.content;
        }
