-- ===== src/Metrics/Sums.antt =====
-- bridge/src/metrics.rs: the counts of a `Builder` and of the metric that it becomes.
use cydrust.Prelude.{ℕ, ◌≡◌, refl, sym, Option, [], ◌∷◌}
use cydrust.Proto.Model.{Bytes}
use cydrust.Tree.{Tree, entry}
use cydrust.Tree.Sum.{sum_by, sum_by-entry, sum_by-add_zero, add_assoc, add_comm}
use cydrust.Metrics.Number.{Real, add}
use cydrust.Metrics.Build.{
  Bucket, Builder, default_bucket, default_builder, model_key, label_of, add_counts, accum,
  merge_labels, merged_of,
}

module _ {F : Type 0} where
  abbrev pub tin_of : Bucket F → ℕ
  tin_of b = b.tin

  abbrev pub tout_of : Bucket F → ℕ
  tout_of b = b.tout

  abbrev pub total_of : Bucket F → ℕ
  total_of b = b.total

  -- The counts of a builder are the sums over its models.
  abbrev pub IsBalanced : Builder F → Type 0
  IsBalanced b =
      (b.tokens_in ≡ sum_by tin_of b.by_model)
      × (b.tokens_out ≡ sum_by tout_of b.by_model)
      × (b.tokens ≡ sum_by total_of b.by_model)

pub default_builder-IsBalanced : (F : Type 0) → IsBalanced (default_builder {F = F})
unfolding sum_by
default_builder-IsBalanced F = (refl, refl, refl)

module _ {F : Type 0} (real : Real F) where
  pub accum-IsBalanced :
      (raw : Bytes) (tin tout total : ℕ) (usd : Option F) (b : Builder F)
      → IsBalanced b
      → IsBalanced (accum real raw tin tout total usd b)
  unfolding accum add_counts
  accum-IsBalanced raw tin tout total usd b (p, q, r) =
      let key = model_key raw in
      let change = add_counts real tin tout total usd in
      (
        rw p (sym (sum_by-entry tin_of key default_bucket change tin b.by_model refl (λ v. refl))),
        rw q
            (sym (sum_by-entry tout_of key default_bucket change tout b.by_model refl (λ v. refl))),
        rw r (
            sym
              (sum_by-entry total_of key default_bucket change total b.by_model refl (λ v. refl))),
      )

  -- collecting raw ids under their labels keeps each sum
  sum_by-merge :
      (f : Bucket F → ℕ)
      → f default_bucket ≡ 0
      → ((b v : Bucket F) → f (add_counts real b.tin b.tout b.total b.usd v) ≡ add (f v) (f b))
      → (t merged : Tree (Bucket F))
      → sum_by f (merge_labels real t merged) ≡ add (sum_by f merged) (sum_by f t)
  unfolding merge_labels sum_by
  sum_by-merge f z h [] merged = sym (sum_by-add_zero f merged)
  sum_by-merge f z h ((raw, b) ∷ t) merged =
      let change = add_counts real b.tin b.tout b.total b.usd in
      rw
        (
          sum_by-merge f z h t (entry (label_of raw) default_bucket change merged),
          sum_by-entry f (label_of raw) default_bucket change (f b) merged z (h b),
        )
        (add_assoc (sum_by f merged) (f b) (sum_by f t))

  merged-sum :
      (f : Bucket F → ℕ)
      → f default_bucket ≡ 0
      → ((b v : Bucket F) → f (add_counts real b.tin b.tout b.total b.usd v) ≡ add (f v) (f b))
      → (b : Builder F) → sum_by f (merged_of real b) ≡ sum_by f b.by_model
  unfolding sum_by
  merged-sum f z h b =
      rw (sum_by-merge f z h b.by_model [], add_comm 0 (sum_by f b.by_model))
        (sum_by-add_zero f b.by_model)

  pub sum_by-tin_of : (b : Builder F) → sum_by tin_of (merged_of real b) ≡ sum_by tin_of b.by_model
  unfolding add_counts
  sum_by-tin_of = merged-sum tin_of refl (λ b v. refl)

  pub sum_by-tout_of :
      (b : Builder F) → sum_by tout_of (merged_of real b) ≡ sum_by tout_of b.by_model
  unfolding add_counts
  sum_by-tout_of = merged-sum tout_of refl (λ b v. refl)

  pub sum_by-total_of :
      (b : Builder F) → sum_by total_of (merged_of real b) ≡ sum_by total_of b.by_model
  unfolding add_counts
  sum_by-total_of = merged-sum total_of refl (λ b v. refl)
