-- ===== src/Ui/Settings/Examples.antt =====
-- firmware/src/main.rs: the settings screen at single touches and stores.
use cydrust.Prelude.{◌≡◌, refl, true, none, some, arith}
use cydrust.Prelude.Int.{pos, clamp_0, ◌-ℤ◌, ◌/ℤ◌}
use cydrust.Mascot.{art_is_valid, snap_art}
use cydrust.Ui.Settings.{Nvs, default, settings_touch, settings_load, settings_save}
use cydrust.Ui.Settings.Valid.{IsValid, settings_touch-IsValid}
use cydrust.Ui.Settings.Stored.{settings_load-settings_save}

pub default-IsValid : IsValid default
unfolding art_is_valid
default-IsValid = record {
  dimmest = omega arith;
  brightest = omega arith;
  sleep = refl;
  art = refl;
  fires = refl;
}

-- the screen sleeps after one minute, so a delay of one minute is cut to half of one
short_sleep :
    settings_touch (pos 70) (pos 120) default
    ≡ (record default { sleep_min = 1; art_sec = 30 }, true)
unfolding settings_touch snap_art art_is_valid clamp_0 ◌-ℤ◌ ◌/ℤ◌
short_sleep = refl

settings_touch-IsValid_example : IsValid (settings_touch (pos 70) (pos 120) default).0
settings_touch-IsValid_example = settings_touch-IsValid (pos 70) (pos 120) default default-IsValid

abbrev corrupt : Nvs
corrupt = record { bright = some 255; sleep = some 9; dark = none; art = some 9999 }

settings_load-settings_save_example : settings_load (settings_save default) ≡ default
settings_load-settings_save_example = settings_load-settings_save default default-IsValid
