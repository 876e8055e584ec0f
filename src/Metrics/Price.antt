-- ===== src/Metrics/Price.antt =====
-- bridge/src/metrics.rs: `pricing_entry`, `price_model`, `price_blended` and `short_model`.
use cydrust.Prelude.{
  ℕ, Bool, true, false, ◌&&◌, Option, none, some, List, [], ◌∷◌, if◌then◌else◌, leb, ◌==◌, length,
}
use cydrust.Proto.Model.{Bytes}
use cydrust.Proto.Scan.{find_str}
use cydrust.Bridge.Map.{Map, find}
use cydrust.Strings.{is_nil, last_part, split, join, strip_prefix, take_chars}
use cydrust.Metrics.Number.{Real, round4}

-- `model.contains(k)`
unfoldable pub contains : Bytes → Bytes → Bool
contains model k = elim (find_str k model) [ none ↦ false | some rest ↦ true ]

module _ {V : Type 0} where
  -- the first key that the model contains
  unfoldable pub first_contained : Bytes → Map V → Option V
  first_contained model [] = none
  first_contained model ((k, v) ∷ m) =
      let rest = first_contained model m in if contains model k then some v else rest

  unfoldable pub pricing_entry : Bytes → Map V → Option V
  pricing_entry model pricing = elim (find pricing model) [
    | some e ↦ some e
    | none ↦ first_contained model pricing
  ]

module _ {F : Type 0} (real : Real F) where
  pub million : F
  million = real.milli 1_000_000_000

  -- the price of a million, scaled to a count
  per_million : ℕ → F → F
  per_million tokens rate = real.times (real.over (real.of_i64 tokens) million) rate

  model_cost : F → F → ℕ → ℕ → ℕ → F
  unfolding million per_million
  model_cost ri ro tokens_in tokens_out tokens_cache = round4 real (
      real.plus (real.plus (per_million tokens_in ri) (per_million tokens_out ro))
        (real.times (per_million tokens_cache ri) (real.milli 100)))

  unfoldable pub price_model : Bytes → Map (F × F) → ℕ → ℕ → ℕ → Option F
  unfolding model_cost
  price_model model pricing tokens_in tokens_out tokens_cache =
      if is_nil model then none else elim (pricing_entry model pricing) [
        | none ↦ none
        | some (ri, ro) ↦ some (model_cost ri ro tokens_in tokens_out tokens_cache)
      ]

  unfoldable pub price_blended : Bytes → Map (F × F) → ℕ → Option F
  unfolding per_million
  price_blended model pricing tokens =
      if is_nil model then none else elim (pricing_entry model pricing) [
        | none ↦ none
        | some (ri, ro) ↦
            some (round4 real (per_million tokens (real.over (real.plus ri ro) (real.milli 2000))))
      ]

-- `is_ascii_digit` for every character
unfoldable pub all_digits : Bytes → Bool
all_digits [] = true
all_digits (c ∷ cs) = leb b'0' c && leb c b'9' && all_digits cs

-- a date stamp, -YYYYMMDD
unfoldable pub is_stamp : Bytes → Bool
is_stamp part = length part == 8 && all_digits part

-- the parts without a stamp at the end
unfoldable pub without_stamp : List Bytes → List Bytes
without_stamp [] = []
without_stamp (part ∷ []) = if is_stamp part then [] else part ∷ []
without_stamp (part ∷ next ∷ parts) = part ∷ without_stamp (next ∷ parts)

-- the loop over the vendors
unfoldable pub strip_vendor : List Bytes → Bytes → Bytes
strip_vendor [] m = m
strip_vendor (vendor ∷ vendors) m =
    let rest = strip_vendor vendors m in
    elim (strip_prefix vendor m) [ some after ↦ after | none ↦ rest ]

abbrev pub vendors : List Bytes
vendors =
    (b'c' ∷ b'l' ∷ b'a' ∷ b'u' ∷ b'd' ∷ b'e' ∷ b'-' ∷ [])
    ∷ (b'a' ∷ b'n' ∷ b't' ∷ b'h' ∷ b'r' ∷ b'o' ∷ b'p' ∷ b'i' ∷ b'c' ∷ b'-' ∷ [])
    ∷ []

unfoldable pub short_model : Bytes → Bytes
short_model model =
    let m = join b'-' (without_stamp (split b'-' (last_part b'/' model))) in
    take_chars 24 (strip_vendor vendors m)
