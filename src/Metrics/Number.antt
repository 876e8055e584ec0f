-- ===== src/Metrics/Number.antt =====
-- bridge/src/metrics.rs: its numbers. An i64 is its bits, a number below 2 ^ 64 whose upper half are
-- the negative numbers; a release build's addition wraps. f64's operations are parameters.
use cydrust.Prelude.{ℕ, ◌+◌, ◌%◌, Bool, ◌&&◌, Option, none, some, List, [], ◌∷◌, ltb}
use cydrust.Json.{Value, number}

abbrev pub two_64 : ℕ
two_64 = 18446744073709551616

abbrev pub two_63 : ℕ
two_63 = 9223372036854775808

-- `+` and `+=` on i64
unfoldable pub add : ℕ → ℕ → ℕ
add a b = (a + b) % two_64

-- `> 0`
unfoldable pub is_positive : ℕ → Bool
is_positive a = ltb 0 a && ltb a two_63

-- `<` on i64
unfoldable pub less : ℕ → ℕ → Bool
less a b = ltb ((a + two_63) % two_64) ((b + two_63) % two_64)

-- `iter().sum()`, from the left
unfoldable pub sum_from : ℕ → List ℕ → ℕ
sum_from acc [] = acc
sum_from acc (x ∷ xs) = sum_from (add acc x) xs

-- f64 with its operations; `milli n` is the literal of `n` thousandths
pub record Real (F : Type 0) : Type 0 where
  pub milli : ℕ → F
  pub plus : F → F → F
  pub minus : F → F → F
  pub times : F → F → F
  pub over : F → F → F
  pub round : F → F
  pub less_than : F → F → Bool
  pub less_equal : F → F → Bool
  -- `iter().sum()`
  pub sum : List F → F
  -- `as f64` of an i64, and `as i64`
  pub of_i64 : ℕ → F
  pub to_i64 : F → ℕ

-- serde_json's numbers
pub record Number (N F : Type 0) : Type 0 where
  pub i64_of : N → Option ℕ
  pub f64_of : N → Option F

module _ {F : Type 0} (real : Real F) where
  unfoldable pub round4 : F → F
  round4 v = real.over (real.round (real.times v (real.milli 10_000_000))) (real.milli 10_000_000)

module _ {N F : Type 0} (real : Real F) (num : Number N F) where
  i64_or_truncated : N → ℕ
  i64_or_truncated n = elim (num.i64_of n) [
    | some i ↦ i
    | none ↦ elim (num.f64_of n) [ none ↦ 0 | some f ↦ real.to_i64 f ]
  ]

  -- `as_i64`
  unfoldable pub as_i64 : Value N → ℕ
  unfolding i64_or_truncated
  as_i64 (number n) = i64_or_truncated n
  as_i64 _ = 0

  -- `.map(as_i64).unwrap_or(0)`
  abbrev pub count_of : Option (Value N) → ℕ
  count_of none = 0
  count_of (some v) = as_i64 v

  -- `as_f64`
  unfoldable pub as_f64 : Value N → Option F
  as_f64 (number n) = num.f64_of n
  as_f64 _ = none
