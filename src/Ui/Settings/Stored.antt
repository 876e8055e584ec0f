-- ===== src/Ui/Settings/Stored.antt =====
-- firmware/src/main.rs: what the store gives back.
use cydrust.Prelude.{
  ℕ, ◌-◌, ◌≤◌, ◌≡◌, true, arith, ltb, leb, if◌then◌else◌, List, [], ◌∷◌, All, All-any, Bool-cases,
  inl, inr, ltb→lt,
}
use native.Mathlib.Nat.{le_trans}
use cydrust.Mascot.{art_is_valid, snap_art}
use cydrust.Mascot.Delay.{IsOffered, snap_art-IsSnapped}
use cydrust.Ui.Settings.{
  Settings, Nvs, snap_sleep, settings_load, settings_save, unwrap_or, clamp_pct, min_by_key,
  sleep_vals,
}
use cydrust.Ui.Settings.Valid.{IsValid, IsSleepVal}

abbrev pub dist : ℕ → ℕ → ℕ
dist v m = if leb m v then v - m else m - v

snap_sleep-IsSleepVal : (m : ℕ) → IsSleepVal (snap_sleep m)
unfolding snap_sleep
snap_sleep-IsSleepVal m = ground arith

-- The better of two candidates.
pick-le :
    (key : ℕ → ℕ) (v best : ℕ)
    → let c = if ltb (key v) (key best) then v else best in (key c ≤ key best) × (key c ≤ key v)
pick-le key v best = elim (Bool-cases (ltb (key v) (key best))) [
  | inl e ↦ rw e (omega (arith, ltb→lt (key v) (key best) e))
  | inr e ↦ rw e (ground arith)
]

-- No candidate has a smaller key than the one chosen.
min_by_key-le :
    (key : ℕ → ℕ) (best : ℕ) (vs : List ℕ)
    → (key (min_by_key key best vs) ≤ key best) × All (λ x. key (min_by_key key best vs) ≤ key x) vs
unfolding min_by_key
min_by_key-le key best [] = (omega arith, tt)
min_by_key-le key best (v ∷ vs) =
    let ih = min_by_key-le key (if ltb (key v) (key best) then v else best) vs in
    let p = pick-le key v best in (le_trans ih.0 p.0, (le_trans ih.0 p.1, ih.1))

-- `snap_sleep` answers an offered time, and no offered time is nearer to the one given.
pub snap_sleep_nearest :
    (m v : ℕ) → IsSleepVal v → IsSleepVal (snap_sleep m) × (dist (snap_sleep m) m ≤ dist v m)
unfolding snap_sleep
snap_sleep_nearest m v h =
    let near = min_by_key-le (λ u. dist u m) 0 (1 ∷ 5 ∷ 15 ∷ 30 ∷ []) in
    (
      snap_sleep-IsSleepVal m,
      All-any (λ u. dist (snap_sleep m) m ≤ dist u m) v sleep_vals h (near.0, near.1),
    )

snap_sleep_fixed : (m : ℕ) → IsSleepVal m → snap_sleep m ≡ m
unfolding snap_sleep
snap_sleep_fixed m h = ground arith

snap_art_fixed : (a s : ℕ) → IsOffered a → art_is_valid a s ≡ true → snap_art a s ≡ a
snap_art_fixed a s o h =
    let f = snap_art-IsSnapped a s in omega (arith, f.below, f.largest a o h (omega arith))

clamp_pct_bounds : (x : ℕ) → (10 ≤ clamp_pct x) × (clamp_pct x ≤ 100)
unfolding clamp_pct
clamp_pct_bounds x = omega arith

-- Whatever the store holds, or where it holds nothing, valid settings are loaded.
pub settings_load-IsValid : (nvs : Nvs) → IsValid (settings_load nvs)
unfolding settings_load
settings_load-IsValid nvs =
    let f = snap_art-IsSnapped (unwrap_or 60 nvs.art) (snap_sleep (unwrap_or 0 nvs.sleep)) in
    record {
      dimmest = (clamp_pct_bounds (unwrap_or 100 nvs.bright)).0;
      brightest = (clamp_pct_bounds (unwrap_or 100 nvs.bright)).1;
      sleep = snap_sleep-IsSleepVal (unwrap_or 0 nvs.sleep);
      art = f.offered;
      fires = f.valid;
    }

-- Valid settings that are saved are loaded as they were.
pub settings_load-settings_save : (s : Settings) → IsValid s → settings_load (settings_save s) ≡ s
unfolding settings_load settings_save unwrap_or clamp_pct
settings_load-settings_save s v = ground (
  arith,
  snap_sleep_fixed s.sleep_min v.sleep,
  snap_art_fixed s.art_sec s.sleep_min v.art v.fires,
)
