-- ===== src/Proto/Text/Cut.antt =====
-- firmware/src/proto.rs: what `trunc_bytes` answers.
use cydrust.Prelude.{
  ℕ, zero, suc, ◌≤◌, ◌≡◌, refl, sym, subst, ==_iff, true, none, [], ◌∷◌, inl, inr, arith, leb, ◌==◌,
  length, get_elem?, take, length-take, Bool-cases,
}
use cydrust.Prelude.Run.{ok}
use cydrust.Proto.Model.{Bytes}
use cydrust.Proto.Text.{is_char_boundary, str_take, floor_boundary, trunc_bytes}

floor_boundary-le : (s : Bytes) (end : ℕ) → floor_boundary s end ≤ end
unfolding floor_boundary
floor_boundary-le s zero = omega arith
floor_boundary-le s (suc end) = let lower = floor_boundary-le s end in ground arith

boundary_zero : (s : Bytes) → is_char_boundary s 0 ≡ true
unfolding is_char_boundary
boundary_zero s = refl

is_char_boundary-floor_boundary :
    (s : Bytes) (end : ℕ) → is_char_boundary s (floor_boundary s end) ≡ true
unfolding floor_boundary
is_char_boundary-floor_boundary s zero = boundary_zero s
is_char_boundary-floor_boundary s (suc end) =
    let lower = is_char_boundary-floor_boundary s end in ground arith

floor_boundary-last :
    (s : Bytes) (end i : ℕ) → i ≤ end → is_char_boundary s i ≡ true → i ≤ floor_boundary s end
unfolding floor_boundary
floor_boundary-last s zero i h b = h
floor_boundary-last s (suc end) i h b = elim (Bool-cases (i == suc end)) [
  | inl e ↦
      let here : is_char_boundary s (suc end) ≡ true =
        subst (λ k. is_char_boundary s k ≡ true) ((==_iff i (suc end)).0 e) b in
      rw here h
  | inr e ↦ let lower = floor_boundary-last s end i (ground arith) b in ground arith
]

get_elem?-length : (s : Bytes) → get_elem? s (length s) ≡ none
get_elem?-length [] = refl
get_elem?-length (b ∷ s) = get_elem?-length s

boundary_end : (s : Bytes) → is_char_boundary s (length s) ≡ true
unfolding is_char_boundary
boundary_end s = let past = get_elem?-length s in ground arith

take_all : (n : ℕ) (s : Bytes) → length s ≤ n → take n s ≡ s
take_all zero [] h = refl
take_all zero (b ∷ s) h = absurd (omega arith)
take_all (suc n) [] h = refl
take_all (suc n) (b ∷ s) h = rw (take_all n s (omega arith))

-- `s` cut at `n`, which is the last boundary between characters that is not after `max_bytes`
pub record IsCut (s : Bytes) (max_bytes : ℕ) (r : Bytes) : Type 0 where
  pub at : ℕ
  pub prefix : r ≡ take at s
  pub fits : length r ≤ max_bytes
  pub whole : is_char_boundary s at ≡ true
  pub last : (i : ℕ) → i ≤ length s → i ≤ max_bytes → is_char_boundary s i ≡ true → i ≤ at

-- `trunc_bytes` never panics: it answers the longest start of the text that has at most
-- `max_bytes` bytes and ends between two characters.
pub trunc_bytes-IsCut :
    (s : Bytes) (max_bytes : ℕ)
    → (r : Bytes) × (trunc_bytes s max_bytes ≡ ok r) × IsCut s max_bytes r
unfolding trunc_bytes str_take
trunc_bytes-IsCut s m = elim (Bool-cases (leb (length s) m)) [
  | inl e ↦ (
    s,
    rw e,
    record {
      at = length s;
      prefix = sym (take_all (length s) s (omega arith));
      fits = ground arith;
      whole = boundary_end s;
      last = λ i h k b. h;
    },
  )
  | inr e ↦
      let n = floor_boundary s m in
      (
        take n s,
        rw (e, is_char_boundary-floor_boundary s m),
        record {
          at = n;
          prefix = refl;
          fits = omega (arith, length-take n s, floor_boundary-le s m);
          whole = is_char_boundary-floor_boundary s m;
          last = λ i h k b. floor_boundary-last s m i k b;
        },
      )
]
