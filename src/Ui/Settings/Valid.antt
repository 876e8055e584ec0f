-- ===== src/Ui/Settings/Valid.antt =====
-- firmware/src/main.rs: the settings against what the screen offers.
use cydrust.Prelude.{
  ℕ, zero, suc, ◌≤◌, ◌≡◌, ◌≢◌, ◌↔◌, refl, Bool, true, false, arith, any, ◌==◌, get_or, Bool-cases,
  if_both, inl, inr,
}
use cydrust.Prelude.Int.{ℤ, pos, clamp_0, ◌-ℤ◌, ◌/ℤ◌}
use cydrust.Mascot.{art_is_valid, art_vals}
use cydrust.Mascot.Delay.{IsOffered, snap_art-IsSnapped}
use cydrust.Ui.Settings.{
  Settings, sleep_vals, settings_touch, slider, touch_art, touch_theme, touch_sleep, sleep_chip,
  art_chip,
}

abbrev pub IsSleepVal : ℕ → Type 0
IsSleepVal m = any (λ v. v == m) sleep_vals ≡ true

pub record IsValid (s : Settings) : Type 0 where
  pub dimmest : 10 ≤ s.brightness
  pub brightest : s.brightness ≤ 100
  pub sleep : IsSleepVal s.sleep_min
  pub art : IsOffered s.art_sec
  pub fires : art_is_valid s.art_sec s.sleep_min ≡ true

sleep_vals-IsSleepVal : (i : ℕ) → IsSleepVal (get_or sleep_vals i 0)
sleep_vals-IsSleepVal zero = refl
sleep_vals-IsSleepVal (suc zero) = refl
sleep_vals-IsSleepVal (suc (suc zero)) = refl
sleep_vals-IsSleepVal (suc (suc (suc zero))) = refl
sleep_vals-IsSleepVal (suc (suc (suc (suc zero)))) = refl
sleep_vals-IsSleepVal (suc (suc (suc (suc (suc i))))) = refl

art_vals-IsOffered : (i : ℕ) → IsOffered (get_or art_vals i 0)
art_vals-IsOffered zero = refl
art_vals-IsOffered (suc zero) = refl
art_vals-IsOffered (suc (suc zero)) = refl
art_vals-IsOffered (suc (suc (suc zero))) = refl
art_vals-IsOffered (suc (suc (suc (suc i)))) = refl

module _ (sx : ℤ) where
  slider_bounds : (10 ≤ slider sx) × (slider sx ≤ 100)
  unfolding slider
  slider_bounds = omega arith

  sleep_chip-IsSleepVal : IsSleepVal (sleep_chip sx)
  unfolding sleep_chip
  sleep_chip-IsSleepVal = sleep_vals-IsSleepVal (clamp_0 4 ((sx -ℤ pos 4) /ℤ 62))

  art_chip-IsOffered : IsOffered (art_chip sx)
  unfolding art_chip
  art_chip-IsOffered = art_vals-IsOffered (clamp_0 3 ((sx -ℤ pos 4) /ℤ 78))

module _ (sx sy : ℤ) (s : Settings) (v : IsValid s) where
  touch_art-IsValid : IsValid (touch_art sx sy s).0
  unfolding touch_art
  touch_art-IsValid = ground (arith, art_chip-IsOffered sx)

  touch_theme-IsValid : IsValid (touch_theme sx sy s).0
  unfolding touch_theme
  touch_theme-IsValid = ground (arith, touch_art-IsValid)

  touch_sleep-IsValid : IsValid (touch_sleep sx sy s).0
  unfolding touch_sleep
  touch_sleep-IsValid =
      let snapped = snap_art-IsSnapped s.art_sec (sleep_chip sx) in
      if_both {A = Settings × Bool} (λ r. IsValid r.0) _
        (record {
          dimmest = v.dimmest;
          brightest = v.brightest;
          sleep = sleep_chip-IsSleepVal sx;
          art = snapped.offered;
          fires = snapped.valid;
        })
        touch_theme-IsValid

  -- Any touch anywhere keeps the settings within what the screen offers: a brightness of 10 to
  -- 100, an offered sleep time, and an offered delay of the art that is valid for that time.
  pub settings_touch-IsValid : IsValid (settings_touch sx sy s).0
  unfolding settings_touch
  settings_touch-IsValid =
      if_both {A = Settings × Bool} (λ r. IsValid r.0) _
        (if_both {A = Settings × Bool} (λ r. IsValid r.0) _ v
          (record {
            dimmest = (slider_bounds sx).0;
            brightest = (slider_bounds sx).1;
            sleep = v.sleep;
            art = v.art;
            fires = v.fires;
          }))
        touch_sleep-IsValid

module _ (sx sy : ℤ) (s : Settings) where
  pub settings_touch-false : (settings_touch sx sy s).1 ≡ false → (settings_touch sx sy s).0 ≡ s
  unfolding settings_touch touch_sleep touch_theme touch_art
  settings_touch-false e = ground arith

  settings_touch-true : (settings_touch sx sy s).1 ≡ true → (settings_touch sx sy s).0 ≢ s
  unfolding settings_touch touch_sleep touch_theme touch_art
  settings_touch-true e p = ground arith

  -- The handler reports a change exactly when the settings are others than before.
  pub settings_touch_iff : ((settings_touch sx sy s).1 ≡ true) ↔ ((settings_touch sx sy s).0 ≢ s)
  settings_touch_iff = (
    settings_touch-true,
    λ n. elim (Bool-cases (settings_touch sx sy s).1) [
      | inl e ↦ e
      | inr e ↦ absurd (n (settings_touch-false e))
    ],
  )
