-- ===== src/Transport/Shown.antt =====
-- firmware/src/main.rs and firmware/src/ble.rs: the shared state after whatever comes in.
use cydrust.Prelude.{
  ℕ, ◌-◌, ◌≤◌, ◌<◌, ◌≡◌, refl, true, Option, List, [], ◌∷◌, ◌++◌, arith, ltb, leb, length, take,
  min, Bool-cases, Option-cases, inl, inr,
}
use cydrust.Prelude.Run.{Run, ok}
use cydrust.Proto.Model.{Bytes}
use cydrust.Proto.Provider.{Float32}
use cydrust.Proto.State.Bounded.{IsShown, parse_state-IsShown}
use cydrust.Serial.{drain_lines}
use cydrust.Transport.{
  buffer_size, max_frame, Shared, opens, without_end, store_frame, on_frame, deliver, kept,
  usb_lines, cleared, ble_lines, on_usb_read, on_write,
}

kept-bound : (buf : Bytes) → length (kept buf) < buffer_size
unfolding kept
kept-bound buf = elim (Bool-cases (leb buffer_size (length buf))) [
  | inl e ↦ rw e (omega arith)
  | inr e ↦ rw e (ground arith)
]

cleared-bound : (buf : Bytes) → length (cleared buf) ≤ max_frame
unfolding cleared
cleared-bound buf = elim (Bool-cases (ltb max_frame (length buf))) [
  | inl e ↦ rw e (omega arith)
  | inr e ↦ rw e (ground arith)
]

usb_lines-bound :
    (buf tmp : Bytes)
    → length buf < buffer_size
    → (cut : List Bytes × Bytes) × (usb_lines buf tmp ≡ ok cut) × (length cut.1 < buffer_size)
unfolding usb_lines
usb_lines-bound buf tmp h =
    let fits : leb (length buf) buffer_size ≡ true = ground arith in
    let got = buf ++ take (min (length tmp) (buffer_size - length buf)) tmp in
    let cut = drain_lines (length got) got in ((cut.0, kept cut.1), rw fits, kept-bound cut.1)

module _ {F : Type 0} (float : Float32 F) (trimmed : Bytes → Option Bytes) where
  -- the run gives a shared state within the caps of the device
  abbrev Stores : Run (Shared F) → Type 0
  Stores m = (next : Shared F) × (m ≡ ok next) × IsShown next.0

  store_frame-Stores :
      (t : Bytes) (now : ℕ) (shared : Shared F)
      → IsShown shared.0
      → Stores (store_frame float trimmed t now shared)
  unfolding store_frame
  store_frame-Stores t now shared h = elim (Bool-cases (opens t)) [
    | inl e ↦ let (ds, f, s) = parse_state-IsShown float t in ((ds, now), rw (e, f), s)
    | inr e ↦ (shared, rw e, h)
  ]

  on_frame-Stores :
      (line : Bytes) (now : ℕ) (shared : Shared F)
      → IsShown shared.0
      → Stores (on_frame float trimmed line now shared)
  unfolding on_frame
  on_frame-Stores line now shared h = elim (Option-cases (trimmed (without_end line))) [
    | inl e ↦ (shared, rw (e, on_frame), h)
    | inr (t, e) ↦
        let (next, f, s) = store_frame-Stores t now shared h in (next, rw (e, on_frame) f, s)
  ]

  deliver-Stores :
      (clock : ℕ → ℕ) (lines : List Bytes) (shared : Shared F)
      → IsShown shared.0
      → Stores (deliver float trimmed clock lines shared)
  unfolding deliver
  deliver-Stores clock [] shared h = (shared, refl, h)
  deliver-Stores clock (line ∷ lines) shared h =
      let (next, e, s) = on_frame-Stores line (clock (length lines)) shared h in
      let (last, f, t) = deliver-Stores clock lines next s in (last, rw e f, t)

  -- Whatever comes in over USB, a round of the reader does not panic and leaves its buffer with
  -- room, so that it can go on, and the shared state keeps to the caps of the device.
  pub on_usb_read-IsShown :
      (clock : ℕ → ℕ) (tmp buf : Bytes) (shared : Shared F)
      → length buf < buffer_size
      → IsShown shared.0
      → (next : Bytes × Shared F) × (on_usb_read float trimmed clock tmp (buf, shared) ≡ ok next)
        × (length next.0 < buffer_size)
        × IsShown next.1.0
  unfolding on_usb_read
  on_usb_read-IsShown clock tmp buf shared h s =
      let (cut, e, small) = usb_lines-bound buf tmp h in
      let (next, f, t) = deliver-Stores clock cut.0 shared s in ((cut.1, next), rw (e, f), small, t)

  -- Whatever a BLE peer writes, the callback does not panic and leaves at most 8192 bytes in its
  -- buffer, and the shared state keeps to the caps of the device.
  pub on_write-IsShown :
      (clock : ℕ → ℕ) (chunk buf : Bytes) (shared : Shared F)
      → IsShown shared.0
      → (next : Bytes × Shared F) × (on_write float trimmed clock chunk (buf, shared) ≡ ok next)
        × (length next.0 ≤ max_frame)
        × IsShown next.1.0
  unfolding on_write ble_lines
  on_write-IsShown clock chunk buf shared s =
      let got = buf ++ chunk in
      let cut = drain_lines (length got) got in
      let (next, f, t) = deliver-Stores clock cut.0 shared s in
      ((cleared cut.1, next), rw f, cleared-bound cut.1, t)
