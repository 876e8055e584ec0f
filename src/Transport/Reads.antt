-- ===== src/Transport/Reads.antt =====
-- firmware/src/main.rs: the lines that the USB reader takes out of a stream.
use cydrust.Prelude.{
  ℕ, suc, ◌+◌, ◌-◌, ◌≤◌, ◌<◌, ◌≡◌, refl, ap, ◌∙◌, true, false, List, [], ◌∷◌, ◌++◌, arith, All, leb,
  ◌==◌, length, length-append, take, min, Bool-cases, subst, inl, inr,
}
use mathlib.Core.List.{append-nil}
use cydrust.Prelude.Run.{Run, ok, ◌>>=◌}
use cydrust.Proto.Model.{Bytes}
use cydrust.Serial.Lines.{on_first, cut_lines, drain_lines-cut_lines}
use cydrust.Serial.Chunks.{joined, cut_lines-append, append_assoc}
use cydrust.Transport.{buffer_size, read_size, kept, usb_lines}

-- the bytes of several reads
abbrev pub joined_reads : List Bytes → Bytes
joined_reads [] = []
joined_reads (tmp ∷ tmps) = tmp ++ joined_reads tmps

-- the lines of several reads, and what is left after them
unfoldable pub usb_reads : List Bytes → Bytes → Run (List Bytes × Bytes)
usb_reads [] buf = ok ([], buf)
usb_reads (tmp ∷ tmps) buf =
    usb_lines buf tmp >>= λ cut. usb_reads tmps cut.1 >>= λ rest. ok (cut.0 ++ rest.0, rest.1)

-- no line, and no part of one that is left, is longer than `n`
abbrev pub AreShort : ℕ → List Bytes × Bytes → Type 0
AreShort n cut = All (λ line. length line ≤ n) cut.0 × (length cut.1 ≤ n)

take_all {ℓ} : {A : Type ℓ} (xs : List A) → take (length xs) xs ≡ xs
take_all [] = refl
take_all (x ∷ xs) = rw (take_all xs)

on_first-rest : (c : ℕ) (cut : List Bytes × Bytes) → length (on_first c cut).1 ≤ length cut.1 + 1
on_first-rest c ([], rest) = omega arith
on_first-rest c (line ∷ lines, rest) = omega arith

cut_lines-rest : (text : Bytes) → length (cut_lines text).1 ≤ length text
cut_lines-rest [] = omega arith
cut_lines-rest (c ∷ text) = elim (Bool-cases (c == b'\n')) [
  | inl e ↦ rw e (omega (arith, cut_lines-rest text))
  | inr e ↦ rw e (omega (arith, cut_lines-rest text, on_first-rest c (cut_lines text)))
]

-- a read that fits
usb_lines_fits :
    (buf tmp : Bytes)
    → length buf + length tmp < buffer_size
    → usb_lines buf tmp ≡ ok (cut_lines (buf ++ tmp))
unfolding usb_lines kept
usb_lines_fits buf tmp h =
    let fits : leb (length buf) buffer_size ≡ true = ground arith in
    let all : min (length tmp) (buffer_size - length buf) ≡ length tmp = omega arith in
    let cut = cut_lines (buf ++ tmp) in
    let small : leb buffer_size (length cut.1) ≡ false =
      ground (arith, cut_lines-rest (buf ++ tmp), length-append buf tmp) in
    rw (
      fits,
      all,
      take_all tmp,
      drain_lines-cut_lines (length (buf ++ tmp)) (buf ++ tmp) (omega arith),
      small,
    )

-- without an end of a line
abbrev pub IsOpen : Bytes → Type 0
IsOpen text = All (λ c. (c == b'\n') ≡ false) text

on_first-IsOpen :
    (c : ℕ) (cut : List Bytes × Bytes)
    → (c == b'\n') ≡ false
    → IsOpen cut.1
    → IsOpen (on_first c cut).1
on_first-IsOpen c ([], rest) e h = (e, h)
on_first-IsOpen c (line ∷ lines, rest) e h = h

cut_lines-IsOpen : (text : Bytes) → IsOpen (cut_lines text).1
cut_lines-IsOpen [] = tt
cut_lines-IsOpen (c ∷ text) = elim (Bool-cases (c == b'\n')) [
  | inl e ↦ rw e (cut_lines-IsOpen text)
  | inr e ↦ rw e (on_first-IsOpen c (cut_lines text) e (cut_lines-IsOpen text))
]

-- how long the first line is, or what is left where there is none
abbrev first_size : List Bytes × Bytes → ℕ
first_size ([], rest) = length rest
first_size (line ∷ lines, rest) = length line

first_size-on_first :
    (c : ℕ) (cut : List Bytes × Bytes) → first_size (on_first c cut) ≡ suc (first_size cut)
first_size-on_first c ([], rest) = refl
first_size-on_first c (line ∷ lines, rest) = refl

first_size-AreShort : (n : ℕ) (cut : List Bytes × Bytes) → AreShort n cut → first_size cut ≤ n
first_size-AreShort n ([], rest) h = h.1
first_size-AreShort n (line ∷ lines, rest) h = h.0.0

open-first_size : (p b : Bytes) → IsOpen p → length p ≤ first_size (cut_lines (p ++ b))
open-first_size [] b h = omega arith
open-first_size (c ∷ p) b h =
    rw (h.0, first_size-on_first c (cut_lines (p ++ b))) (omega (arith, open-first_size p b h.1))

cut_lines-open : (p : Bytes) → IsOpen p → cut_lines p ≡ ([], p)
cut_lines-open [] h = refl
cut_lines-open (c ∷ p) h = rw (h.0, cut_lines-open p h.1)

All-right {ℓ κ} : {A : Type ℓ} (P : A → Type κ) (xs ys : List A) → All P (xs ++ ys) → All P ys
All-right P [] ys h = h
All-right P (x ∷ xs) ys h = All-right P xs ys h.1

-- Where each read gives at most 128 bytes and no line of the stream, with what is in the buffer, is
-- longer than 1919 bytes, the reader takes out exactly the lines of the stream in their order, and
-- keeps what follows the last, however the stream falls into reads. It never indexes out of range.
pub usb_reads-cut_lines :
    (tmps : List Bytes) (buf : Bytes)
    → IsOpen buf
    → All (λ tmp. length tmp ≤ read_size) tmps
    → AreShort 1919 (cut_lines (buf ++ joined_reads tmps))
    → usb_reads tmps buf ≡ ok (cut_lines (buf ++ joined_reads tmps))
unfolding usb_reads
usb_reads-cut_lines [] buf o r s = rw (append-nil buf, cut_lines-open buf o)
usb_reads-cut_lines (tmp ∷ tmps) buf o r s =
    let more = joined_reads tmps in
    let cut = cut_lines (buf ++ tmp) in
    let whole : cut_lines (buf ++ (tmp ++ more)) ≡ joined cut more =
      ap cut_lines (append_assoc buf tmp more) ∙ cut_lines-append (buf ++ tmp) more in
    let small : length buf ≤ 1919 =
      omega (arith, open-first_size buf (tmp ++ more) o, first_size-AreShort 1919 _ s) in
    let later : AreShort 1919 (joined cut more) = subst (AreShort 1919) whole s in
    let ih =
      usb_reads-cut_lines tmps cut.1 (cut_lines-IsOpen (buf ++ tmp)) r.1
        (All-right _ cut.0 (cut_lines (cut.1 ++ more)).0 later.0, later.1) in
    rw (usb_lines_fits buf tmp (omega (arith, r.0)), ih, whole)
