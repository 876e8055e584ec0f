-- ===== src/Serial/Chunks.antt =====
-- bridge/src/bin/serial_bridge.rs: the buffer over several reads.
use cydrust.Prelude.{
  ℕ, ◌≤◌, ◌≡◌, refl, sym, false, List, [], ◌∷◌, ◌++◌, arith, ◌==◌, ltb, length, Bool-cases, inl,
  inr,
}
use cydrust.Proto.Model.{Bytes}
use cydrust.Serial.{drain_lines, runaway, guarded, on_read}
use cydrust.Serial.Lines.{on_first, cut_lines, drain_lines-cut_lines}

-- lines before those that are cut
abbrev pub after_lines : List Bytes → List Bytes × Bytes → List Bytes × Bytes
after_lines lines cut = (lines ++ cut.0, cut.1)

-- what the first part leaves is cut with the second
abbrev pub joined : List Bytes × Bytes → Bytes → List Bytes × Bytes
joined (lines, rest) more = after_lines lines (cut_lines (rest ++ more))

joined-on_first :
    (c : ℕ) (cut : List Bytes × Bytes) (more : Bytes)
    → (c == b'\n') ≡ false
    → joined (on_first c cut) more ≡ on_first c (joined cut more)
joined-on_first c ([], rest) more e = rw e
joined-on_first c (line ∷ lines, rest) more e = refl

-- Cutting a text is cutting a part of it, and then what that leaves with the rest.
pub cut_lines-append : (text more : Bytes) → cut_lines (text ++ more) ≡ joined (cut_lines text) more
cut_lines-append [] more = refl
cut_lines-append (c ∷ text) more = elim (Bool-cases (c == b'\n')) [
  | inl e ↦ rw (e, cut_lines-append text more)
  | inr e ↦ rw (e, cut_lines-append text more) (sym (joined-on_first c (cut_lines text) more e))
]

-- what a read does, by the lines of the buffer with the bytes that it gets
on_read_lem :
    (rx tmp : Bytes)
    → on_read rx tmp ≡ ((cut_lines (rx ++ tmp)).0, guarded (cut_lines (rx ++ tmp)).1)
unfolding on_read
on_read_lem rx tmp = rw (drain_lines-cut_lines (length (rx ++ tmp)) (rx ++ tmp) (omega arith))

guarded-bound : (rx : Bytes) → length (guarded rx) ≤ runaway
unfolding guarded
guarded-bound rx = elim (Bool-cases (ltb runaway (length rx))) [
  | inl e ↦ rw e (omega arith)
  | inr e ↦ rw e (ground arith)
]

guarded_kept : (rx : Bytes) → length rx ≤ runaway → guarded rx ≡ rx
unfolding guarded
guarded_kept rx h = let e : ltb runaway (length rx) ≡ false = ground arith in rw e

pub append_assoc : (s t u : Bytes) → s ++ (t ++ u) ≡ (s ++ t) ++ u
append_assoc [] t u = refl
append_assoc (c ∷ s) t u = rw (append_assoc s t u)

-- Two reads take out the lines that one read of the same bytes takes out, in the same order, and
-- leave the same buffer, where what the first leaves has not run away.
pub on_read-append :
    (rx a b : Bytes)
    → length (cut_lines (rx ++ a)).1 ≤ runaway
    → after_lines (on_read rx a).0 (on_read (on_read rx a).1 b) ≡ on_read rx (a ++ b)
on_read-append rx a b h =
    let cut = cut_lines (rx ++ a) in
    rw
      (on_read_lem rx a, on_read_lem rx (a ++ b), append_assoc rx a b, cut_lines-append (rx ++ a) b)
      (rw (guarded_kept cut.1 h) (rw (on_read_lem cut.1 b)))

-- The buffer never holds more than 8192 bytes between two reads.
pub on_read-bound : (rx tmp : Bytes) → length (on_read rx tmp).1 ≤ runaway
unfolding on_read
on_read-bound rx tmp = guarded-bound (drain_lines (length (rx ++ tmp)) (rx ++ tmp)).1
