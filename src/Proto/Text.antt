-- ===== src/Proto/Text.antt =====
-- firmware/src/proto.rs: cutting a text without cutting a character. A text is its bytes in UTF-8.
pub mod Cut
mod Examples
use cydrust.Prelude.{
  ℕ, zero, suc, ◌≤◌, Bool, true, false, not, ◌&&◌, ◌||◌, Option, none, some, List, [], ◌∷◌,
  if◌then◌else◌, ltb, leb, ◌==◌, length, get_elem?, take,
}
use cydrust.Prelude.Run.{Run, ok, panic}
use cydrust.Proto.Model.{Bytes}

-- a byte that begins no character: 0x80 to 0xBF
abbrev pub is_continuation : ℕ → Bool
is_continuation b = leb 128 b && ltb b 192

-- std's `str::is_char_boundary`
unfoldable pub is_char_boundary : Bytes → ℕ → Bool
is_char_boundary s i =
    if i == 0
    then true
    else elim (get_elem? s i) [ none ↦ i == length s | some b ↦ not (is_continuation b) ]

-- `&s[..end]`, which panics inside a character
unfoldable pub str_take : Bytes → ℕ → Run Bytes
str_take s end = if is_char_boundary s end then ok (take end s) else panic

-- the `while` loop: the last boundary that is not after `end`
unfoldable pub floor_boundary : Bytes → ℕ → ℕ
floor_boundary s zero = 0
floor_boundary s (suc end) =
    let lower = floor_boundary s end in if is_char_boundary s (suc end) then suc end else lower

unfoldable pub trunc_bytes : Bytes → ℕ → Run Bytes
trunc_bytes s max_bytes =
    if leb (length s) max_bytes then ok s else str_take s (floor_boundary s max_bytes)
