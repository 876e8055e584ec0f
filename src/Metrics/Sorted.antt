-- ===== src/Metrics/Sorted.antt =====
-- bridge/src/metrics.rs: the order of a provider's models.
use cydrust.Prelude.{ℕ, ◌≡◌, true, false, List, [], ◌∷◌, All, arith, Bool-cases, inl, inr}
use cydrust.Metrics.Number.{Real, less, is_positive}
use cydrust.Metrics.Build.{
  Builder, Bucket, ModelMetric, place, sort_models, listed, merged_of, finalize, metric_of,
}
use cydrust.Tree.{Tree}

less_trans : (a b c : ℕ) → less a b ≡ false → less b c ≡ false → less a c ≡ false
unfolding less
less_trans a b c h k = ground arith

less_asym : (a b : ℕ) → less a b ≡ true → less b a ≡ false
unfolding less
less_asym a b h = ground arith

module _ {F : Type 0} where
  -- no more tokens than `x`
  abbrev pub AtMost : ModelMetric F → ModelMetric F → Type 0
  AtMost x y = less x.tokens y.tokens ≡ false

  -- None has more tokens than one before it.
  abbrev pub IsDescending : List (ModelMetric F) → Type 0
  IsDescending [] = Unit
  IsDescending (x ∷ xs) = All (AtMost x) xs × IsDescending xs

  AtMost-All :
      (x y : ModelMetric F) (zs : List (ModelMetric F))
      → AtMost x y
      → All (AtMost y) zs
      → All (AtMost x) zs
  AtMost-All x y [] h k = tt
  AtMost-All x y (z ∷ zs) h k =
      (less_trans x.tokens y.tokens z.tokens h k.0, AtMost-All x y zs h k.1)

  All-place :
      (P : ModelMetric F → Type 0) (x : ModelMetric F) (ys : List (ModelMetric F))
      → P x
      → All P ys
      → All P (place x ys)
  unfolding place
  All-place P x [] p h = (p, tt)
  All-place P x (y ∷ ys) p h = elim (Bool-cases (less x.tokens y.tokens)) [
    | inl e ↦ rw e (h.0, All-place P x ys p h.1)
    | inr e ↦ rw e (p, h)
  ]

  place-IsDescending :
      (x : ModelMetric F) (ys : List (ModelMetric F)) → IsDescending ys → IsDescending (place x ys)
  unfolding place
  place-IsDescending x [] h = (tt, tt)
  place-IsDescending x (y ∷ ys) h = elim (Bool-cases (less x.tokens y.tokens)) [
    | inl e ↦
        rw e (
          All-place (AtMost y) x ys (less_asym x.tokens y.tokens e) h.0,
          place-IsDescending x ys h.1,
        )
    | inr e ↦ rw e ((e, AtMost-All x y ys e h.0), h)
  ]

  sort_models-IsDescending : (xs : List (ModelMetric F)) → IsDescending (sort_models xs)
  unfolding sort_models
  sort_models-IsDescending [] = tt
  sort_models-IsDescending (x ∷ xs) =
      place-IsDescending x (sort_models xs) (sort_models-IsDescending xs)

  All-sort :
      (P : ModelMetric F → Type 0) (xs : List (ModelMetric F)) → All P xs → All P (sort_models xs)
  unfolding sort_models
  All-sort P [] h = tt
  All-sort P (x ∷ xs) h = All-place P x (sort_models xs) h.0 (All-sort P xs h.1)

  -- a count above zero
  abbrev pub HasTokens : ModelMetric F → Type 0
  HasTokens m = is_positive m.tokens ≡ true

  listed-HasTokens : (t : Tree (Bucket F)) → All HasTokens (listed t)
  unfolding listed
  listed-HasTokens [] = tt
  listed-HasTokens ((label, m) ∷ t) = elim (Bool-cases (is_positive m.total)) [
    | inl e ↦ rw e (e, listed-HasTokens t)
    | inr e ↦ rw e (listed-HasTokens t)
  ]

module _ {F : Type 0} (real : Real F) where
  -- The models of a provider's metric all have tokens, and stand in the descending order of these.
  pub finalize-IsDescending :
      (b : Builder F)
      → IsDescending (finalize real b).models × All HasTokens (finalize real b).models
  unfolding finalize metric_of
  finalize-IsDescending b = (
    sort_models-IsDescending (listed (merged_of real b)),
    All-sort HasTokens (listed (merged_of real b)) (listed-HasTokens (merged_of real b)),
  )
