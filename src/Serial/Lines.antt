-- ===== src/Serial/Lines.antt =====
-- bridge/src/bin/serial_bridge.rs: the loop that takes the lines out of the buffer.
use cydrust.Prelude.{
  ℕ, zero, suc, ◌≤◌, ◌<◌, ◌≡◌, refl, false, Option, none, some, List, [], ◌∷◌, arith, if◌then◌else◌,
  ◌==◌, length, Bool-cases, Option-cases, inl, inr,
}
use cydrust.Proto.Model.{Bytes}
use cydrust.Serial.{before_line, drain_line, drain_lines}

-- the first line is put before the lines that are cut
abbrev pub on_first : ℕ → List Bytes × Bytes → List Bytes × Bytes
on_first c ([], rest) = ([], c ∷ rest)
on_first c (line ∷ lines, rest) = ((c ∷ line) ∷ lines, rest)

-- The lines of a text, each with its end, and what follows the last: the loop's result, by recursion
-- on the text.
abbrev pub cut_lines : Bytes → List Bytes × Bytes
cut_lines [] = ([], [])
cut_lines (c ∷ text) =
    let cut = cut_lines text in if c == b'\n' then ((c ∷ []) ∷ cut.0, cut.1) else on_first c cut

-- what a drained line is to the lines of the buffer
IsDrained : Option (Bytes × Bytes) → Bytes → Type 0
IsDrained none rx = cut_lines rx ≡ ([], rx)
IsDrained (some (line, rest)) rx =
    (length rest < length rx) × (cut_lines rx ≡ (line ∷ (cut_lines rest).0, (cut_lines rest).1))

before_line-IsDrained :
    (c : ℕ) (rx : Bytes) (o : Option (Bytes × Bytes))
    → (c == b'\n') ≡ false
    → IsDrained o rx
    → IsDrained (before_line c o) (c ∷ rx)
unfolding IsDrained
before_line-IsDrained c rx none e h = rw (e, h)
before_line-IsDrained c rx (some (line, rest)) e h = (omega (arith, h.0), rw (e, h.1))

drain_line-IsDrained : (rx : Bytes) → IsDrained (drain_line rx) rx
unfolding drain_line IsDrained
drain_line-IsDrained [] = refl
drain_line-IsDrained (c ∷ rx) = elim (Bool-cases (c == b'\n')) [
  | inl e ↦ rw e (omega arith, rw e)
  | inr e ↦ rw e (before_line-IsDrained c rx (drain_line rx) e (drain_line-IsDrained rx))
]

-- With as much fuel as the buffer has bytes, the loop ends because no line is left in the buffer,
-- and what it takes out is the lines of the buffer in their order.
pub drain_lines-cut_lines :
    (fuel : ℕ) (rx : Bytes) → length rx ≤ fuel → drain_lines fuel rx ≡ cut_lines rx
unfolding drain_lines IsDrained
drain_lines-cut_lines zero [] h = refl
drain_lines-cut_lines zero (c ∷ rx) h = elim h [ ]
drain_lines-cut_lines (suc fuel) rx h =
    let drained = drain_line-IsDrained rx in
    elim (Option-cases (drain_line rx)) [
      | inl e ↦ let k : cut_lines rx ≡ ([], rx) = rw e at drained in rw (e, drain_lines) (rw k)
      | inr ((line, rest), e) ↦
          let k : IsDrained (some (line, rest)) rx = rw e at drained in
          rw (e, drain_lines) (rw (k.1, drain_lines-cut_lines fuel rest (omega (arith, k.0))))
    ]
