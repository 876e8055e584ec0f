-- ===== src/Metrics/Balanced.antt =====
-- bridge/src/metrics.rs: what `finalize` makes of a builder whose counts are the sums over its models.
use cydrust.Prelude.{
  ℕ, ◌≡◌, refl, sym, ◌∙◌, true, List, [], ◌∷◌, arith, if◌then◌else◌, Bool-cases, inl, inr,
}
use cydrust.Tree.{Tree}
use cydrust.Tree.Sum.{sum_by, sum_from-zero, add_assoc, add_left_swap}
use cydrust.Metrics.Number.{Real, add, is_positive, less}
use cydrust.Metrics.Build.{
  Bucket, Builder, ModelMetric, merged_of, wants_repair, metric_of, finalize, listed, place,
  sort_models,
}
use cydrust.Metrics.Sums.{
  tin_of, tout_of, total_of, IsBalanced, sum_by-tin_of, sum_by-tout_of, sum_by-total_of,
}

module _ {F : Type 0} where
  repair_both : (b : Builder F) → wants_repair b ≡ true → (b.tokens_in ≡ 0) × (b.tokens_out ≡ 0)
  unfolding wants_repair
  repair_both b h = (ground arith, ground arith)

  abbrev pub tokens_sum : List (ModelMetric F) → ℕ
  tokens_sum [] = 0
  tokens_sum (m ∷ ms) = add m.tokens (tokens_sum ms)

  -- the totals of the labels that are not listed
  abbrev pub unlisted : Tree (Bucket F) → ℕ
  unlisted [] = 0
  unlisted ((label, m) ∷ t) = if is_positive m.total then unlisted t else add m.total (unlisted t)

  listed-sum : (t : Tree (Bucket F)) → add (tokens_sum (listed t)) (unlisted t) ≡ sum_by total_of t
  unfolding listed sum_by add
  listed-sum [] = refl
  listed-sum ((label, m) ∷ t) = elim (Bool-cases (is_positive m.total)) [
    | inl e ↦ rw e (rw (add_assoc m.total (tokens_sum (listed t)) (unlisted t), listed-sum t))
    | inr e ↦
        rw e (rw (← listed-sum t) (add_left_swap (tokens_sum (listed t)) m.total (unlisted t)))
  ]

  place-sum :
      (x : ModelMetric F) (xs : List (ModelMetric F))
      → tokens_sum (place x xs) ≡ add x.tokens (tokens_sum xs)
  unfolding place
  place-sum x [] = refl
  place-sum x (y ∷ ys) = elim (Bool-cases (less x.tokens y.tokens)) [
    | inl e ↦ rw e (rw (place-sum x ys) (add_left_swap y.tokens x.tokens (tokens_sum ys)))
    | inr e ↦ rw e
  ]

  sort-sum : (xs : List (ModelMetric F)) → tokens_sum (sort_models xs) ≡ tokens_sum xs
  unfolding sort_models
  sort-sum [] = refl
  sort-sum (x ∷ xs) = rw (place-sum x (sort_models xs), sort-sum xs)

module _ {F : Type 0} (real : Real F) where
  -- `finalize` passes the three counts of a balanced builder on: its repair of the tokens in and out
  -- has no effect.
  pub finalize-counts :
      (b : Builder F)
      → IsBalanced b
      → ((finalize real b).tokens_in ≡ b.tokens_in)
        × ((finalize real b).tokens_out ≡ b.tokens_out)
        × ((finalize real b).tokens ≡ b.tokens)
  unfolding finalize metric_of
  finalize-counts b (p, q, r) = elim (Bool-cases (wants_repair b)) [
    | inl e ↦
        let ins = sum_from-zero tin_of (merged_of real b) ∙ sum_by-tin_of real b ∙ sym p in
        let outs = sum_from-zero tout_of (merged_of real b) ∙ sum_by-tout_of real b ∙ sym q in
        (rw e ins, rw e outs, refl)
    | inr e ↦ (rw e, rw e, refl)
  ]

  -- The tokens of the listed models and those of the labels that are not listed, for their total is
  -- not positive, add up to the tokens of the provider.
  pub finalize-models :
      (b : Builder F)
      → IsBalanced b
      → add (tokens_sum (finalize real b).models) (unlisted (merged_of real b)) ≡ b.tokens
  unfolding finalize metric_of
  finalize-models b (p, q, r) =
      rw
        (
          sort-sum (listed (merged_of real b)),
          listed-sum (merged_of real b),
          sum_by-total_of real b,
        )
        (sym r)
