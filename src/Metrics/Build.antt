-- ===== src/Metrics/Build.antt =====
-- bridge/src/metrics.rs: `Bucket` and `Builder`.
use cydrust.Prelude.{ℕ, Bool, ◌&&◌, Option, none, some, List, [], ◌∷◌, if◌then◌else◌, ◌==◌, map}
use cydrust.Proto.Model.{Bytes}
use cydrust.Proto.Same.{same_bytes}
use cydrust.Strings.{is_nil}
use cydrust.Tree.{Tree, entry}
use cydrust.Metrics.Number.{Real, add, is_positive, less, sum_from, round4}
use cydrust.Metrics.Price.{short_model}

pub record Bucket (F : Type 0) : Type 0 where
  pub tin : ℕ
  pub tout : ℕ
  pub cache : ℕ
  pub total : ℕ
  pub usd : Option F

pub record Builder (F : Type 0) : Type 0 where
  pub tokens_in : ℕ
  pub tokens_out : ℕ
  pub tokens : ℕ
  pub usd : Option F
  pub sessions : ℕ
  pub by_model : Tree (Bucket F)

pub record ModelMetric (F : Type 0) : Type 0 where
  pub model : Bytes
  pub tokens : ℕ
  pub usd : Option F

pub record ProviderMetric (F : Type 0) : Type 0 where
  pub model : Option Bytes
  pub tokens_in : ℕ
  pub tokens_out : ℕ
  pub tokens : ℕ
  pub usd : Option F
  pub sessions : ℕ
  pub models : List (ModelMetric F)

abbrev pub unknown : Bytes
unknown = b'u' ∷ b'n' ∷ b'k' ∷ b'n' ∷ b'o' ∷ b'w' ∷ b'n' ∷ []

module _ {F : Type 0} where
  abbrev pub default_bucket : Bucket F
  default_bucket = record { tin = 0; tout = 0; cache = 0; total = 0; usd = none }

  abbrev pub default_builder : Builder F
  default_builder = record {
    tokens_in = 0;
    tokens_out = 0;
    tokens = 0;
    usd = none;
    sessions = 0;
    by_model = [];
  }

-- `raw_model`, or "unknown" where it is empty
abbrev pub model_key : Bytes → Bytes
model_key raw = if is_nil raw then unknown else raw

-- the label of a raw id
unfoldable pub label_of : Bytes → Bytes
label_of raw =
    if same_bytes raw unknown
    then unknown
    else (let s = short_model raw in if is_nil s then raw else s)

module _ {F : Type 0} (real : Real F) where
  abbrev pub or_zero : Option F → F
  or_zero none = real.milli 0
  or_zero (some u) = u

  -- `if let Some(u) = usd { o = Some(round4(o.unwrap_or(0.0) + u)) }`
  unfoldable pub add_usd : Option F → Option F → Option F
  add_usd o none = o
  add_usd o (some u) = some (round4 real (real.plus (or_zero o) u))

  -- what `accum` adds to a model's bucket
  unfoldable pub add_counts : ℕ → ℕ → ℕ → Option F → Bucket F → Bucket F
  add_counts tin tout total usd b = record b {
    tin = add b.tin tin;
    tout = add b.tout tout;
    total = add b.total total;
    usd = add_usd b.usd usd;
  }

  unfoldable pub accum : Bytes → ℕ → ℕ → ℕ → Option F → Builder F → Builder F
  accum raw_model tin tout total usd b = record b {
    tokens_in = add b.tokens_in tin;
    tokens_out = add b.tokens_out tout;
    tokens = add b.tokens total;
    usd = add_usd b.usd usd;
    by_model =
        entry (model_key raw_model) default_bucket (add_counts tin tout total usd) b.by_model;
  }

  -- the loop of `finalize` over `by_model`
  unfoldable pub merge_labels : Tree (Bucket F) → Tree (Bucket F) → Tree (Bucket F)
  merge_labels [] merged = merged
  merge_labels ((raw, b) ∷ rest) merged =
      merge_labels rest
        (entry (label_of raw) default_bucket (add_counts b.tin b.tout b.total b.usd) merged)

  abbrev pub merged_of : Builder F → Tree (Bucket F)
  merged_of b = merge_labels b.by_model []

module _ {F : Type 0} where
  -- the filter and the map over `merged`
  unfoldable pub listed : Tree (Bucket F) → List (ModelMetric F)
  listed [] = []
  listed ((label, m) ∷ t) =
      let rest = listed t in
      if is_positive m.total
      then record { model = label; tokens = m.total; usd = m.usd } ∷ rest
      else rest

  -- a step of the stable sort: past those with more tokens
  unfoldable pub place : ModelMetric F → List (ModelMetric F) → List (ModelMetric F)
  place x [] = x ∷ []
  place x (y ∷ ys) =
      let rest = place x ys in if less x.tokens y.tokens then y ∷ rest else x ∷ y ∷ ys

  -- `sort_by_key` of `Reverse(m.tokens)`, which is stable
  unfoldable pub sort_models : List (ModelMetric F) → List (ModelMetric F)
  sort_models [] = []
  sort_models (x ∷ xs) = place x (sort_models xs)

  first_model : List (ModelMetric F) → Option Bytes
  first_model [] = none
  first_model (m ∷ ms) = some m.model

  abbrev pub tins : Tree (Bucket F) → List ℕ
  tins t = map (λ e. e.1.tin) t

  abbrev pub touts : Tree (Bucket F) → List ℕ
  touts t = map (λ e. e.1.tout) t

  -- the condition of the repair
  unfoldable pub wants_repair : Builder F → Bool
  wants_repair b = is_positive b.tokens && b.tokens_in == 0 && b.tokens_out == 0

  -- the metric that `finalize` makes of the merged map
  unfoldable pub metric_of : Builder F → Tree (Bucket F) → ProviderMetric F
  unfolding first_model
  metric_of b merged = record {
    model = first_model (sort_models (listed merged));
    tokens_in = if wants_repair b then sum_from 0 (tins merged) else b.tokens_in;
    tokens_out = if wants_repair b then sum_from 0 (touts merged) else b.tokens_out;
    tokens = b.tokens;
    usd = b.usd;
    sessions = b.sessions;
    models = sort_models (listed merged);
  }

module _ {F : Type 0} (real : Real F) where
  unfoldable pub finalize : Builder F → ProviderMetric F
  finalize b = metric_of b (merged_of real b)
