-- ===== src/Sprite.antt =====
-- firmware/src/sprite.rs: the decoder of the run-length coded sprite blob.
-- A blob is a list of bytes. `Rgb565::from(RawU16::new(v))` of embedded-graphics is the parameter
-- `from_raw`. `usize` has 32 bits, as on the device.
pub mod Decode
pub mod Bounds
pub mod Picture
mod Examples
use cydrust.Prelude.{
  ℕ, zero, suc, ◌+◌, ◌*◌, ◌-◌, ◌%◌, ◌^◌, Bool, false, not, ◌&&◌, ◌||◌, Option, none, some, List, [],
  ◌∷◌, ltb, leb, ◌==◌, if◌then◌else◌, length, get_or, set,
}
use cydrust.Prelude.Run.{Run, ok, ◌>>=◌, read, slice}

abbrev pub sprite_w : ℕ
sprite_w = 128

abbrev pub sprite_h : ℕ
sprite_h = 128

abbrev pub frames : ℕ
frames = 16

abbrev pub moods : ℕ
moods = 5

abbrev pub palette_len : ℕ
palette_len = 16

abbrev pub header : ℕ
header = 10

abbrev pub table_at : ℕ
table_at = header + palette_len * 2

abbrev pub table_bytes : ℕ
table_bytes = moods * frames * 8

abbrev pub payload_at : ℕ
payload_at = table_at + table_bytes

unfoldable pub u16le : List ℕ → ℕ → Run ℕ
u16le b at = do x ← read b at; y ← read b (at + 1); ok (x + y * 2 ^ 8)

unfoldable pub u32le : List ℕ → ℕ → Run ℕ
u32le b at = do
  x ← read b at
  y ← read b (at + 1)
  z ← read b (at + 2)
  w ← read b (at + 3)
  ok (x + y * 2 ^ 8 + z * 2 ^ 16 + w * 2 ^ 24)

pub record Sprites (C : Type 0) : Type 0 where
  pub payload : List ℕ
  pub table : List (ℕ × ℕ)
  pub palette : List C

pub record FramePixels (C : Type 0) : Type 0 where
  pub bytes : List ℕ
  pub at : ℕ
  pub run : ℕ  -- u8
  pub colour : C
  pub emitted : ℕ  -- u32
  pub bg : C
  pub palette : List C

-- `&blob[0..4] != b"CYDS"`
is_magic : List ℕ → Bool
is_magic (a ∷ b ∷ c ∷ d ∷ []) = a == b'C' && b == b'Y' && c == b'D' && d == b'S'
is_magic _ = false

-- the header's bytes but for the magic ones: version, moods, frames, width, height, palette length
fields_ok : ℕ → ℕ → ℕ → ℕ → ℕ → ℕ → Bool
fields_ok version m f w h p =
    version == 1 && m == moods && f == frames && w == sprite_w && h == sprite_h && p == palette_len

-- the two early returns of `parse` before the palette is read
unfoldable pub header_ok : List ℕ → Run Bool
unfolding is_magic fields_ok
header_ok blob = if ltb (length blob) payload_at then ok false else do
  magic ← slice blob 0 4
  version ← read blob 4
  m ← read blob 5
  f ← read blob 6
  w ← read blob 7
  h ← read blob 8
  p ← read blob 9
  ok (is_magic magic && fields_ok version m f w h p)

-- the tests on a table entry; `none` is `return None`
check_entry : ℕ → ℕ → ℕ → Option (ℕ × ℕ)
check_entry payload_len off len =
    if leb (2 ^ 32) (off + len)
    then none
    else if ltb payload_len (off + len) || len == 0 || not (len % 2 == 0)
    then none
    else some (off, len)

-- one round of the table loop
unfoldable pub table_entry : List ℕ → ℕ → ℕ → Run (Option (ℕ × ℕ))
unfolding check_entry
table_entry blob payload_len i = do
  off ← u32le blob (table_at + i * 8)
  len ← u32le blob (table_at + i * 8 + 4)
  ok (check_entry payload_len off len)

cons_entry : Option (ℕ × ℕ) → Run (Option (List (ℕ × ℕ))) → Run (Option (List (ℕ × ℕ)))
cons_entry none rest = ok none
cons_entry (some e) rest = do es ← rest; ok (elim es [ none ↦ none | some l ↦ some (e ∷ l) ])

-- the table loop from entry `i` with `n` entries left
unfoldable pub table_loop : List ℕ → ℕ → ℕ → ℕ → Run (Option (List (ℕ × ℕ)))
unfolding cons_entry
table_loop blob payload_len zero i = ok (some [])
table_loop blob payload_len (suc n) i =
    let rest = table_loop blob payload_len n (i + 1) in
    table_entry blob payload_len i >>= λ e. cons_entry e rest

module _ {C : Type 0} (from_raw : ℕ → C) where
  -- the palette loop from slot `i` with `n` slots left
  unfoldable pub palette_loop : List ℕ → ℕ → ℕ → Run (List C)
  palette_loop blob zero i = ok []
  palette_loop blob (suc n) i = do
    raw ← u16le blob (header + i * 2)
    rest ← palette_loop blob n (i + 1)
    ok (from_raw raw ∷ rest)

  with_table : List ℕ → List C → Option (List (ℕ × ℕ)) → Option (Sprites C)
  with_table payload palette none = none
  with_table payload palette (some t) =
      some (record { payload = payload; table = t; palette = palette })

  unfoldable pub parse_body : List ℕ → Run (Option (Sprites C))
  unfolding with_table
  parse_body blob = do
    palette ← palette_loop blob palette_len 0
    payload ← slice blob payload_at (length blob)
    table ← table_loop blob (length payload) (moods * frames) 0
    ok (with_table payload palette table)

  unfoldable pub parse : List ℕ → Run (Option (Sprites C))
  parse blob = header_ok blob >>= λ good. if good then parse_body blob else ok none

module _ {C : Type 0} where
  -- the sum `off + len` is one of u32
  unfoldable pub frame : Sprites C → ℕ → ℕ → C → Run (Option (FramePixels C))
  frame s mood_idx frame_idx bg = if leb moods mood_idx || leb frames frame_idx then ok none else do
    e ← read s.table (mood_idx * frames + frame_idx)
    data_ ← slice s.payload e.0 ((e.0 + e.1) % 2 ^ 32)
    ok (
        some (record {
          bytes = data_;
          at = 0;
          run = 0;
          colour = bg;
          emitted = 0;
          bg = bg;
          palette = set s.palette 0 bg;
        }))

  -- the last lines of `next`: one pixel of the current run
  emit_run : FramePixels C → Option C × FramePixels C
  emit_run p = (some p.colour, record p { run = p.run - 1; emitted = p.emitted + 1 })

  emit_bg : FramePixels C → Option C × FramePixels C
  emit_bg p = (some p.bg, record p { emitted = p.emitted + 1 })

  -- the branch of `next` that reads a new run; a run of no pixels gives one of the background
  load_run : FramePixels C → Run (Option C × FramePixels C)
  unfolding emit_run emit_bg
  load_run p = do
    run ← read p.bytes p.at
    idx ← read p.bytes (p.at + 1)
    let q = record p { run = run; colour = get_or p.palette idx p.bg; at = p.at + 2 }
    ok (if run == 0 then emit_bg q else emit_run q)

  unfoldable pub next : FramePixels C → Run (Option C × FramePixels C)
  unfolding load_run
  next p =
      if leb (sprite_w * sprite_h) p.emitted
      then ok (none, p)
      else if p.run == 0
      then (if ltb (p.at + 1) (length p.bytes) then load_run p else ok (emit_bg p))
      else ok (emit_run p)

  -- an iterator that is used up to its first `None`, with fuel for its rounds
  unfoldable pub collect : ℕ → FramePixels C → Run (Option (List C))
  collect zero p = ok none
  collect (suc fuel) p = next p >>= λ r. elim (r.0) [
    | none ↦ ok (some [])
    | some c ↦ collect fuel r.1 >>= λ rest. ok (elim rest [ none ↦ none | some l ↦ some (c ∷ l) ])
  ]
