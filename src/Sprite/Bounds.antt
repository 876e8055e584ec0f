-- ===== src/Sprite/Bounds.antt =====
-- firmware/src/sprite.rs: what `parse` and `frame` read and slice.
use cydrust.Prelude.{
  ℕ, zero, suc, ◌+◌, ◌-◌, ◌*◌, ◌%◌, ◌^◌, ◌≤◌, ◌<◌, ◌≡◌, refl, ◌⊎◌, inl, inr, ap, Bool, true, false,
  ◌&&◌, ◌||◌, Option, none, some, List, [], ◌∷◌, arith, ltb, leb, if◌then◌else◌, Bool-cases, length,
  take, drop, set, All,
}
use cydrust.Prelude.Run.{ok, read, read-lt, slice-le}
use cydrust.Sprite.{
  Sprites, FramePixels, payload_at, palette_len, moods, frames, header, table_at, u16le, u32le,
  header_ok, check_entry, table_entry, cons_entry, table_loop, palette_loop, is_magic, fields_ok,
  with_table, parse_body, parse, frame,
}

-- an entry whose bytes lie in a payload of `n` bytes, and whose u32 sum does not wrap
abbrev pub InPayload : ℕ → ℕ × ℕ → Type 0
InPayload n e = (e.0 + e.1 ≤ n) × (0 < e.1) × (e.1 % 2 ≡ 0) × (e.0 + e.1 < 2 ^ 32)

pub record IsValid {C : Type 0} (s : Sprites C) : Type 0 where
  pub entries : length s.table ≡ moods * frames
  pub colours : length s.palette ≡ palette_len
  pub bounded : All (InPayload (length s.payload)) s.table

u16le-lt : (b : List ℕ) (at : ℕ) → at + 1 < length b → (v : ℕ) × (u16le b at ≡ ok v)
unfolding u16le
u16le-lt b at h =
    let (x, e) = read-lt b at (omega arith) in
    let (y, f) = read-lt b (at + 1) h in (x + y * 2 ^ 8, rw (e, f))

u32le-lt : (b : List ℕ) (at : ℕ) → at + 3 < length b → (v : ℕ) × (u32le b at ≡ ok v)
unfolding u32le
u32le-lt b at h =
    let (x, e) = read-lt b at (omega arith) in
    let (y, f) = read-lt b (at + 1) (omega arith) in
    let (z, g) = read-lt b (at + 2) (omega arith) in
    let (w, k) = read-lt b (at + 3) h in (x + y * 2 ^ 8 + z * 2 ^ 16 + w * 2 ^ 24, rw (e, f, g, k))

-- what one round of the table loop may answer
abbrev EntryGood : ℕ → Option (ℕ × ℕ) → Type 0
EntryGood n none = Unit
EntryGood n (some e) = InPayload n e

abbrev TableGood : ℕ → ℕ → Option (List (ℕ × ℕ)) → Type 0
TableGood n k none = Unit
TableGood n k (some l) = (length l ≡ k) × All (InPayload n) l

check_entry-EntryGood : (n off len : ℕ) → EntryGood n (check_entry n off len)
unfolding check_entry
check_entry-EntryGood n off len = ground arith

table_entry_total :
    (b : List ℕ) (n i : ℕ)
    → table_at + i * 8 + 8 ≤ length b
    → (r : Option (ℕ × ℕ)) × (table_entry b n i ≡ ok r) × EntryGood n r
unfolding table_entry
table_entry_total b n i h =
    let (off, e) = u32le-lt b (table_at + i * 8) (omega arith) in
    let (len, f) = u32le-lt b (table_at + i * 8 + 4) (omega arith) in
    (check_entry n off len, rw (e, f), check_entry-EntryGood n off len)

cons_entry_total :
    (n k : ℕ) (e : Option (ℕ × ℕ)) (es : Option (List (ℕ × ℕ)))
    → EntryGood n e
    → TableGood n k es
    → (r : Option (List (ℕ × ℕ))) × (cons_entry e (ok es) ≡ ok r) × TableGood n (suc k) r
unfolding cons_entry
cons_entry_total n k none es h g = (none, refl, tt)
cons_entry_total n k (some e) none h g = (none, refl, tt)
cons_entry_total n k (some e) (some l) h g = (some (e ∷ l), refl, (ap suc g.0, (h, g.1)))

table_loop_total :
    (b : List ℕ) (n k i : ℕ)
    → table_at + (i + k) * 8 ≤ length b
    → (r : Option (List (ℕ × ℕ))) × (table_loop b n k i ≡ ok r) × TableGood n k r
unfolding table_loop
table_loop_total b n zero i h = (some [], refl, (refl, tt))
table_loop_total b n (suc k) i h =
    let (e, p, good) = table_entry_total b n i (omega arith) in
    let (es, q, rest) = table_loop_total b n k (i + 1) (omega arith) in
    let (r, c, all) = cons_entry_total n k e es good rest in (r, rw (p, q) c, all)

module _ {C : Type 0} (from_raw : ℕ → C) where
  palette_loop_total :
      (b : List ℕ) (k i : ℕ)
      → header + (i + k) * 2 ≤ length b
      → (r : List C) × (palette_loop from_raw b k i ≡ ok r) × (length r ≡ k)
  unfolding palette_loop
  palette_loop_total b zero i h = ([], refl, refl)
  palette_loop_total b (suc k) i h =
      let (v, e) = u16le-lt b (header + i * 2) (omega arith) in
      let (r, f, g) = palette_loop_total b k (i + 1) (omega arith) in
      (from_raw v ∷ r, rw (e, f), ap suc g)

  header_ok_total :
      (blob : List ℕ) → (v : Bool) × (header_ok blob ≡ ok v) × (v ≡ true → payload_at ≤ length blob)
  unfolding header_ok
  header_ok_total blob = elim (Bool-cases (ltb (length blob) payload_at)) [
    | inl short ↦ (false, rw short, λ e. cc)
    | inr long ↦
        let h : payload_at ≤ length blob = ground arith in
        let m = slice-le blob 0 4 (omega arith) (omega arith) in
        let (a, ea) = read-lt blob 4 (omega arith) in
        let (b, eb) = read-lt blob 5 (omega arith) in
        let (c, ec) = read-lt blob 6 (omega arith) in
        let (d, ed) = read-lt blob 7 (omega arith) in
        let (e, ee) = read-lt blob 8 (omega arith) in
        let (f, ef) = read-lt blob 9 (omega arith) in
        (
          is_magic (take 4 blob) && fields_ok a b c d e f,
          rw (long, m, ea, eb, ec, ed, ee, ef),
          λ _. h,
        )
  ]

  abbrev pub ParseGood : Option (Sprites C) → Type 0
  ParseGood none = Unit
  ParseGood (some s) = IsValid s

  with_table-ParseGood :
      (payload : List ℕ) (pal : List C) (t : Option (List (ℕ × ℕ)))
      → length pal ≡ palette_len
      → TableGood (length payload) (moods * frames) t
      → ParseGood (with_table from_raw payload pal t)
  unfolding with_table
  with_table-ParseGood payload pal none h g = tt
  with_table-ParseGood payload pal (some t) h g = record {
    entries = g.0;
    colours = h;
    bounded = g.1;
  }

  parse_body_total :
      (blob : List ℕ)
      → payload_at ≤ length blob
      → (r : Option (Sprites C)) × (parse_body from_raw blob ≡ ok r) × ParseGood r
  unfolding parse_body
  parse_body_total blob h =
      let (pal, e, ep) = palette_loop_total blob palette_len 0 (omega arith) in
      let f = slice-le blob payload_at (length blob) h (omega arith) in
      let payload = take (length blob - payload_at) (drop payload_at blob) in
      let (table, g, good) =
        table_loop_total blob (length payload) (moods * frames) 0 (omega arith) in
      (
        with_table from_raw payload pal table,
        rw (e, f, g),
        with_table-ParseGood payload pal table ep good,
      )

  finish_total :
      (blob : List ℕ) (good : Bool)
      → (good ≡ true → payload_at ≤ length blob)
      → (r : Option (Sprites C)) × ((if good then parse_body from_raw blob else ok none) ≡ ok r)
        × ParseGood r
  finish_total blob true h = parse_body_total blob (h refl)
  finish_total blob false h = (none, refl, tt)

  -- Whatever the bytes, `parse` returns: no read or slice of it is out of range. What it accepts
  -- has 80 entries and 16 colours, and each entry lies in the payload, has a positive even length
  -- and an end that 32 bits hold.
  pub parse_total :
      (blob : List ℕ) → (r : Option (Sprites C)) × (parse from_raw blob ≡ ok r) × ParseGood r
  unfolding parse
  parse_total blob = let (good, e, h) = header_ok_total blob in rw e (finish_total blob good h)

-- The entry of a mood and a frame that are in range.
All-read :
    (n : ℕ) (t : List (ℕ × ℕ)) (i : ℕ)
    → All (InPayload n) t
    → i < length t
    → (e : ℕ × ℕ) × (read t i ≡ ok e) × InPayload n e
unfolding read
All-read n [] i a h = elim h [ ]
All-read n (e ∷ t) zero a h = (e, refl, a.0)
All-read n (e ∷ t) (suc i) a h = All-read n t i a.1 (omega arith)

module _ {C : Type 0} where
  -- the fresh iterator over the bytes of entry `e`
  abbrev pub start : Sprites C → ℕ × ℕ → C → FramePixels C
  start s e bg = record {
    bytes = take e.1 (drop e.0 s.payload);
    at = 0;
    run = 0;
    colour = bg;
    emitted = 0;
    bg = bg;
    palette = set s.palette 0 bg;
  }

  frame_outside :
      (s : Sprites C) (m f : ℕ) (bg : C) → (moods ≤ m) ⊎ (frames ≤ f) → frame s m f bg ≡ ok none
  unfolding frame
  frame_outside s m f bg h = ground arith

  frame_at :
      (s : Sprites C) (m f : ℕ) (bg : C) (e : ℕ × ℕ)
      → leb moods m || leb frames f ≡ false
      → read s.table (m * frames + f) ≡ ok e
      → InPayload (length s.payload) e
      → frame s m f bg ≡ ok (some (start s e bg))
  unfolding frame
  frame_at s m f bg e inside r b =
      let w : (e.0 + e.1) % 2 ^ 32 ≡ e.0 + e.1 = omega arith in
      let d : e.0 + e.1 - e.0 ≡ e.1 = omega arith in
      let sl = slice-le s.payload e.0 (e.0 + e.1) (omega arith) (omega arith) in
      rw (inside, r, w, sl, d)

  -- In a parsed blob `frame` does not panic on a mood and a frame in range, and its bytes are
  -- the entry's.
  pub frame_inside :
      (s : Sprites C) (m f : ℕ) (bg : C)
      → IsValid s
      → m < moods
      → f < frames
      → (e : ℕ × ℕ) × (read s.table (m * frames + f) ≡ ok e)
        × InPayload (length s.payload) e
        × (frame s m f bg ≡ ok (some (start s e bg)))
  frame_inside s m f bg v hm hf =
      let (e, r, b) =
        All-read (length s.payload) s.table (m * frames + f) v.bounded
          (rw v.entries (omega arith)) in
      (e, r, b, frame_at s m f bg e (ground arith) r b)
