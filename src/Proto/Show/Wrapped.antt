-- ===== src/Proto/Show/Wrapped.antt =====
-- firmware/src/proto.rs: the lines of a wrapped text.
use cydrust.Prelude.{
  ℕ, zero, suc, ◌≤◌, ◌<◌, ◌≡◌, refl, Option, none, some, [], ◌∷◌, All, arith, if◌then◌else◌, leb,
  length, take, drop, length-take, Bool-cases, Option-cases, inl, inr, ◌==◌,
}
use cydrust.Proto.Model.{Bytes}
use cydrust.Proto.Text.{floor_boundary, is_char_boundary}
use cydrust.Proto.Show.{last_space, at_space, line_end, skip_spaces, wrap_lines}

last_space-lt : (s : Bytes) (i : ℕ) → last_space s ≡ some i → i < length s
unfolding last_space
last_space-lt [] i h = cc
last_space-lt (c ∷ cs) i h = elim (Option-cases (last_space cs)) [
  | inl e ↦
      let k : (if c == b' ' then some 0 else none) ≡ some i = rw (e, last_space) at h in
      ground arith
  | inr (j, e) ↦
      let later = last_space-lt cs j e in
      let k : some (suc j) ≡ some i = rw (e, last_space) at h in ground arith
]

floor_boundary-le : (s : Bytes) (n : ℕ) → floor_boundary s n ≤ n
unfolding floor_boundary
floor_boundary-le s zero = omega arith
floor_boundary-le s (suc n) =
    let lower = floor_boundary-le s n in
    elim (Bool-cases (is_char_boundary s (suc n))) [
      | inl e ↦ rw e (omega arith)
      | inr e ↦ rw e (omega arith)
    ]

at_space_below : (o : Option ℕ) (cut : ℕ) → ((i : ℕ) → o ≡ some i → i ≤ cut) → at_space o cut ≤ cut
at_space_below none cut h = omega arith
at_space_below (some zero) cut h = omega arith
at_space_below (some (suc i)) cut h = h (suc i) refl

at_space-le : (s : Bytes) (cut : ℕ) → at_space (last_space (take cut s)) cut ≤ cut
at_space-le s cut = at_space_below (last_space (take cut s)) cut (λ i e.
    let inside = last_space-lt (take cut s) i e in let taken = length-take cut s in omega arith)

line_end-le : (cols : ℕ) (rest : Bytes) → line_end cols rest ≤ cols
unfolding line_end
line_end-le cols rest = elim (Bool-cases (leb (length rest) cols)) [
  | inl e ↦ rw e (ground arith)
  | inr e ↦
      let space = at_space-le rest (floor_boundary rest cols) in
      let low = floor_boundary-le rest cols in rw e (omega arith)
]

-- A wrapped text has at most `max` lines, each of at most `cols` bytes, where `trim_end` makes no
-- text longer.
pub wrap_lines-bound :
    (trim_end : Bytes → Bytes) (cols max : ℕ) (s : Bytes)
    → ((t : Bytes) → length (trim_end t) ≤ length t)
    → (length (wrap_lines trim_end cols max s) ≤ max)
      × All (λ line. length line ≤ cols) (wrap_lines trim_end cols max s)
unfolding wrap_lines
wrap_lines-bound trim_end cols zero s h = (omega arith, tt)
wrap_lines-bound trim_end cols (suc max) [] h = (omega arith, tt)
wrap_lines-bound trim_end cols (suc max) (c ∷ cs) h =
    let cut = line_end cols (c ∷ cs) in
    let rest = wrap_lines-bound trim_end cols max (skip_spaces (drop cut (c ∷ cs))) h in
    let low = line_end-le cols (c ∷ cs) in
    let shorter = h (take cut (c ∷ cs)) in
    let taken = length-take cut (c ∷ cs) in
    (omega (arith, rest.0), (omega (arith, low, shorter, taken), rest.1))
