-- ===== src/Ui/Settings.antt =====
-- firmware/src/main.rs: the settings, their touch handler and their store.
pub mod Valid
pub mod Stored
pub mod Examples
use cydrust.Prelude.{
  ℕ, ◌+◌, ◌-◌, ◌*◌, ◌/◌, ◌%◌, ◌^◌, min, max, Bool, true, false, not, ◌&&◌, Option, none, some, List,
  [], ◌∷◌, ltb, leb, ◌==◌, if◌then◌else◌, get_or,
}
use cydrust.Prelude.Int.{ℤ, pos, ◌-ℤ◌, ◌/ℤ◌, clamp_0, contains_ℤ}
use cydrust.Mascot.{art_vals, art_is_valid, snap_art}

pub record Settings : Type 0 where
  pub brightness : ℕ  -- u8
  pub sleep_min : ℕ  -- u16
  pub dark : Bool
  pub art_sec : ℕ  -- u16

abbrev pub default : Settings
default = record { brightness = 100; sleep_min = 0; dark = true; art_sec = 60 }

abbrev pub sleep_vals : List ℕ
sleep_vals = 0 ∷ 1 ∷ 5 ∷ 15 ∷ 30 ∷ []

-- `|v - m|`, which i32 holds for two values of u16
abs_diff : ℕ → ℕ → ℕ
abs_diff v m = if leb m v then v - m else m - v

-- `min_by_key`: the first of the values with the least key
min_by_key : (ℕ → ℕ) → ℕ → List ℕ → ℕ
min_by_key key best [] = best
min_by_key key best (v ∷ vs) = min_by_key key (if ltb (key v) (key best) then v else best) vs

unfoldable pub snap_sleep : ℕ → ℕ
unfolding min_by_key abs_diff
snap_sleep m = min_by_key (λ v. abs_diff v m) 0 (1 ∷ 5 ∷ 15 ∷ 30 ∷ [])

-- `x.clamp(10, 100)`
clamp_pct : ℕ → ℕ
clamp_pct x = max 10 (min 100 x)

-- the cast to u8 keeps the low eight bits
slider : ℤ → ℕ
unfolding clamp_pct
slider sx = clamp_pct (10 + (clamp_0 304 (sx -ℤ pos 8) * 90 / 304) % 2 ^ 8)

-- An index is clamped to the list, so the default of `get_or` is never taken.
sleep_chip : ℤ → ℕ
sleep_chip sx = get_or sleep_vals (clamp_0 4 ((sx -ℤ pos 4) /ℤ 62)) 0

art_chip : ℤ → ℕ
art_chip sx = get_or art_vals (clamp_0 3 ((sx -ℤ pos 4) /ℤ 78)) 0

-- The bands of the screen, one below the other. A sleep chip that is already chosen falls through
-- to the later bands, which its y does not reach. The flag is the handler's result.
touch_art : ℤ → ℤ → Settings → Settings × Bool
unfolding art_chip
touch_art sx sy set =
    let v = art_chip sx in
    if contains_ℤ 206 236 sy && contains_ℤ 4 316 sx
    then (if art_is_valid v set.sleep_min && not (v == set.art_sec)
        then (record set { art_sec = v }, true)
        else (set, false))
    else (set, false)

touch_theme : ℤ → ℤ → Settings → Settings × Bool
unfolding touch_art
touch_theme sx sy set =
    if contains_ℤ 162 190 sy && contains_ℤ 246 316 sx
    then (record set { dark = not set.dark }, true)
    else touch_art sx sy set

touch_sleep : ℤ → ℤ → Settings → Settings × Bool
unfolding sleep_chip touch_theme
touch_sleep sx sy set =
    let v = sleep_chip sx in
    if contains_ℤ 114 148 sy && contains_ℤ 4 314 sx && not (v == set.sleep_min)
    then (record set { sleep_min = v; art_sec = snap_art set.art_sec v }, true)
    else touch_theme sx sy set

unfoldable pub settings_touch : ℤ → ℤ → Settings → Settings × Bool
unfolding slider touch_sleep
settings_touch sx sy set =
    let p = slider sx in
    if contains_ℤ 50 74 sy && contains_ℤ 4 316 sx
    then (if p == set.brightness then (set, false) else (record set { brightness = p }, true))
    else touch_sleep sx sy set

-- The stored values, as `get_u8` and `get_u16` of the NVS answer them; `none` is a missing or
-- unreadable key.
pub record Nvs : Type 0 where
  pub bright : Option ℕ  -- u8
  pub sleep : Option ℕ  -- u16
  pub dark : Option ℕ  -- u8
  pub art : Option ℕ  -- u16

unwrap_or : ℕ → Option ℕ → ℕ
unwrap_or d none = d
unwrap_or d (some x) = x

unfoldable pub settings_load : Nvs → Settings
unfolding unwrap_or clamp_pct
settings_load nvs =
    let sleep_min = snap_sleep (unwrap_or 0 nvs.sleep) in
    record {
      brightness = clamp_pct (unwrap_or 100 nvs.bright);
      sleep_min = sleep_min;
      dark = not (unwrap_or 1 nvs.dark == 0);
      art_sec = snap_art (unwrap_or 60 nvs.art) sleep_min;
    }

-- what the store holds after writes that all succeed
unfoldable pub settings_save : Settings → Nvs
settings_save s = record {
  bright = some s.brightness;
  sleep = some s.sleep_min;
  dark = some (if s.dark then 1 else 0);
  art = some s.art_sec;
}
