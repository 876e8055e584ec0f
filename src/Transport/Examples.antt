-- ===== src/Transport/Examples.antt =====
-- firmware/src/main.rs and firmware/src/ble.rs: two reads that together give a line and a part of one.
use cydrust.Prelude.{ℕ, ◌<◌, ◌≡◌, refl, inl, false, none, some, List, [], ◌∷◌, length, arith}
use cydrust.Prelude.Int.{pos}
use cydrust.Prelude.Run.{ok}
use cydrust.Proto.Model.{Bytes}
use cydrust.Proto.Provider.{Float32, default_usage, default_metrics}
use cydrust.Proto.State.Bounded.{IsShown}
use cydrust.Serial.Lines.{cut_lines}
use cydrust.Transport.{buffer_size, Shared, on_usb_read}
use cydrust.Transport.Reads.{joined_reads, usb_reads, usb_reads-cut_lines}
use cydrust.Transport.Shown.{on_usb_read-IsShown}

abbrev reads : List Bytes
reads = (b'{' ∷ b'"' ∷ b'a' ∷ []) ∷ (b'"' ∷ b':' ∷ b'1' ∷ b'}' ∷ b'\n' ∷ b'{' ∷ []) ∷ []

usb_reads-cut_lines_example : usb_reads reads [] ≡ ok (cut_lines (joined_reads reads))
usb_reads-cut_lines_example =
    usb_reads-cut_lines reads [] tt (omega arith, (omega arith, tt))
      ((omega arith, tt), omega arith)

abbrev no_number : Float32 ℕ
no_number = record { zero_f = 0; minus_one = 0; parse = λ s. none; to_i32 = pos; to_u32 = λ n. n }

abbrev first : Shared ℕ
first = (
  record {
    sessions = [];
    claude = default_usage no_number;
    codex = default_usage no_number;
    metrics = default_metrics no_number;
    offline = false;
    dropped_sessions = 0;
  },
  0,
)

first-IsShown : IsShown first.0
first-IsShown = record {
  capped = tt;
  few = omega arith;
  full = inl refl;
  claude = omega arith;
  codex = omega arith;
  metrics = (tt, omega arith);
}

abbrev clock : ℕ → ℕ
clock n = 7

on_usb_read-IsShown_example :
    (next : Bytes × Shared ℕ) × (on_usb_read no_number some clock
        (b'{' ∷ b'}' ∷ b'\n' ∷ [])
        ([], first)
      ≡ ok next)
    × (length next.0 < buffer_size)
    × IsShown next.1.0
on_usb_read-IsShown_example =
    on_usb_read-IsShown no_number some clock (b'{' ∷ b'}' ∷ b'\n' ∷ []) [] first (omega arith)
      first-IsShown
