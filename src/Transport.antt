-- ===== src/Transport.antt =====
-- firmware/src/main.rs and firmware/src/ble.rs: how the bytes of the USB reader, of the BLE writes and
-- of the WiFi request become the shared state. `trimmed` is `from_utf8` and `trim`, and gives nothing
-- for bytes that are not UTF-8; a time is what the clock says when a frame is stored.
pub mod Reads
pub mod Shown
mod Examples
use cydrust.Prelude.{
  ℕ, zero, suc, ◌+◌, ◌-◌, Bool, true, false, ◌&&◌, Option, none, some, List, [], ◌∷◌, ◌++◌,
  if◌then◌else◌, ltb, leb, ◌==◌, length, take, min,
}
use cydrust.Prelude.Run.{Run, panic, ok, ◌>>=◌}
use cydrust.Proto.Model.{Bytes, DisplayState}
use cydrust.Proto.Provider.{Float32}
use cydrust.Proto.State.{parse_state}
use cydrust.Strings.{is_nil}
use cydrust.Serial.{drain_lines}

-- the reader's `buf`, and the most that one read gives
abbrev pub buffer_size : ℕ
buffer_size = 2048

abbrev pub read_size : ℕ
read_size = 128

abbrev pub max_frame : ℕ
max_frame = 8192

abbrev pub body_size : ℕ
body_size = 6144

-- the latest state, and when it came
abbrev pub Shared : Type 0 → Type 0
Shared F = DisplayState F × ℕ

abbrev opens : Bytes → Bool
opens [] = false
opens (c ∷ cs) = c == b'{'

-- the bytes of a line before its end
unfoldable pub without_end : Bytes → Bytes
without_end line = take (length line - 1) line

module _ {F : Type 0} (float : Float32 F) (trimmed : Bytes → Option Bytes) where
  store_frame : Bytes → ℕ → Shared F → Run (Shared F)
  store_frame t now shared =
      if opens t then (parse_state float t >>= λ ds. ok (ds, now)) else ok shared

  -- what is done with a line
  unfoldable pub on_frame : Bytes → ℕ → Shared F → Run (Shared F)
  unfolding store_frame
  on_frame line now shared = elim (trimmed (without_end line)) [
    | none ↦ ok shared
    | some t ↦ store_frame t now shared
  ]

  -- the lines of a read, in their order; `clock` gives the time when so many are left
  unfoldable pub deliver : (ℕ → ℕ) → List Bytes → Shared F → Run (Shared F)
  deliver clock [] shared = ok shared
  deliver clock (line ∷ lines) shared =
      on_frame line (clock (length lines)) shared >>= λ next. deliver clock lines next

-- `if len >= buf.len() { len = 0; }`
unfoldable pub kept : Bytes → Bytes
kept buf = if leb buffer_size (length buf) then [] else buf

-- a read into the first `length buf` bytes' rest: the lines that it completes, and what is left
unfoldable pub usb_lines : Bytes → Bytes → Run (List Bytes × Bytes)
usb_lines buf tmp =
    if leb (length buf) buffer_size
    then (let got = buf ++ take (min (length tmp) (buffer_size - length buf)) tmp in
        let cut = drain_lines (length got) got in ok (cut.0, kept cut.1))
    else panic

-- `buf.clear()` where the peer never ends a line
unfoldable pub cleared : Bytes → Bytes
cleared buf = if ltb max_frame (length buf) then [] else buf

-- a write of the peer: the lines that it completes, and what is left
unfoldable pub ble_lines : Bytes → Bytes → List Bytes × Bytes
ble_lines buf chunk =
    let got = buf ++ chunk in let cut = drain_lines (length got) got in (cut.0, cleared cut.1)

module _ {F : Type 0} (float : Float32 F) (trimmed : Bytes → Option Bytes) where
  -- one round of the USB reader's loop, where the read gives something
  unfoldable pub on_usb_read : (ℕ → ℕ) → Bytes → Bytes × Shared F → Run (Bytes × Shared F)
  on_usb_read clock tmp (buf, shared) = usb_lines buf tmp >>= λ cut.
      deliver float trimmed clock cut.0 shared >>= λ next. ok (cut.1, next)

  -- the callback of a BLE write
  unfoldable pub on_write : (ℕ → ℕ) → Bytes → Bytes × Shared F → Run (Bytes × Shared F)
  on_write clock chunk (buf, shared) =
      let cut = ble_lines buf chunk in
      deliver float trimmed clock cut.0 shared >>= λ next. ok (cut.1, next)

-- the loop that reads the body; `none` is an error of a read
unfoldable pub read_body : List (Option Bytes) → Bytes → Option Bytes
read_body [] body = some body
read_body (none ∷ reads) body = none
read_body (some chunk ∷ reads) body =
    let longer = body ++ take (body_size - length body) chunk in
    let rest = read_body reads longer in
    if is_nil chunk then some body else if leb body_size (length longer) then some longer else rest

-- the response of the hub, where there is one
pub record Response : Type 0 where
  pub status : ℕ
  pub reads : List (Option Bytes)

module _ {F : Type 0} (float : Float32 F) (from_utf8 : Bytes → Option Bytes) where
  -- the state in a body that was read
  body_state : Option Bytes → Run (Option (DisplayState F))
  body_state none = ok none
  body_state (some body) = elim (from_utf8 body) [
    | none ↦ ok none
    | some text ↦ parse_state float text >>= λ ds. ok (some ds)
  ]

  unfoldable pub fetch_state : Option Response → Run (Option (DisplayState F))
  unfolding body_state
  fetch_state none = ok none
  fetch_state (some resp) =
      if resp.status == 200 then body_state (read_body resp.reads []) else ok none
