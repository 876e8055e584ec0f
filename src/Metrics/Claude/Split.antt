-- ===== src/Metrics/Claude/Split.antt =====
-- bridge/src/metrics.rs: Claude's tokens in, out and in all.
use cydrust.Prelude.{
  ℕ, ◌≡◌, refl, Bool, false, Option, none, some, List, [], ◌∷◌, arith, if_both, Bool-cases, inl,
  inr, ◌||◌,
}
use cydrust.Proto.Model.{Bytes}
use cydrust.Proto.Same.{same_bytes}
use cydrust.Json.{Value}
use cydrust.Strings.{split}
use cydrust.Tree.{Tree, entry, before}
use cydrust.Bridge.Map.{Map}
use cydrust.Metrics.Number.{Real, Number, add, is_positive}
use cydrust.Metrics.Build.{Bucket, Builder, default_bucket, default_builder, accum, finalize}
use cydrust.Metrics.Claude.{
  File, is_today, add_session, add_usage, add_message_usage, add_message, add_parsed, claude_lines,
  claude_tokens_by_model, claude_model, claude_models, claude_files, claude_metrics,
}
use cydrust.Metrics.Sums.{IsBalanced, accum-IsBalanced, default_builder-IsBalanced}
use cydrust.Metrics.Balanced.{finalize-counts}

-- the sums of two splits
split_add :
    (i o c j p d : ℕ)
    → add (add (add i o) c) (add (add j p) d) ≡ add (add (add i j) (add o p)) (add c d)
unfolding add
split_add i o c j p d = omega arith

pair_add : (i o c d e : ℕ) → add (add i o) (add (add c d) e) ≡ add (add i c) (add o (add d e))
unfolding add
pair_add i o c d e = omega arith

module _ {V : Type 0} (P : V → Type 0) where
  -- what holds of every value of a map
  abbrev pub AllValues : Tree V → Type 0
  AllValues [] = Unit
  AllValues ((j, v) ∷ t) = P v × AllValues t

  pub AllValues-entry :
      (k : Bytes) (d : V) (g : V → V) (t : Tree V)
      → P d
      → ((v : V) → P v → P (g v))
      → AllValues t
      → AllValues (entry k d g t)
  unfolding entry
  AllValues-entry k d g [] z h a = (h d z, tt)
  AllValues-entry k d g ((j, v) ∷ t) z h a =
      let rest = AllValues-entry k d g t z h a.1 in
      elim (Bool-cases (same_bytes j k)) [
        | inl e ↦ rw e (h v a.0, a.1)
        | inr e ↦ rw e (if_both AllValues (before k j) (h d z, a) (a.0, rest))
      ]

module _ {F : Type 0} where
  -- the total is made of the three counts
  abbrev pub IsSplit : Bucket F → Type 0
  IsSplit b = b.total ≡ add (add b.tin b.tout) b.cache

  -- the builder's tokens are those in and those out
  abbrev pub IsPaired : Builder F → Type 0
  IsPaired b = b.tokens ≡ add b.tokens_in b.tokens_out

  add_usage-IsSplit :
      (ti to cache : ℕ) (b : Bucket F) → IsSplit b → IsSplit (add_usage ti to cache b)
  unfolding add_usage
  add_usage-IsSplit ti to cache b h = rw h (split_add b.tin b.tout b.cache ti to cache)

module _ {N F : Type 0} (real : Real F) (num : Number N F)
    (from_line : Bytes → Option (Value N)) where
  add_message_usage-IsSplit :
      (msg : Value N) (o : Option (Value N)) (t : Tree (Bucket F))
      → AllValues IsSplit t
      → AllValues IsSplit (add_message_usage real num from_line msg o t)
  unfolding add_message_usage add
  add_message_usage-IsSplit msg none t h = h
  add_message_usage-IsSplit msg (some usage) t h =
      AllValues-entry IsSplit _ default_bucket _ t refl (add_usage-IsSplit _ _ _) h

  add_message-IsSplit :
      (o : Option (Value N)) (t : Tree (Bucket F))
      → AllValues IsSplit t
      → AllValues IsSplit (add_message real num from_line o t)
  unfolding add_message
  add_message-IsSplit none t h = h
  add_message-IsSplit (some msg) t h = add_message_usage-IsSplit msg _ t h

  add_parsed-IsSplit :
      (o : Option (Value N)) (t : Tree (Bucket F))
      → AllValues IsSplit t
      → AllValues IsSplit (add_parsed real num from_line o t)
  unfolding add_parsed
  add_parsed-IsSplit none t h = h
  add_parsed-IsSplit (some o) t h = add_message-IsSplit _ t h

  claude_lines-IsSplit :
      (lines : List Bytes) (t : Tree (Bucket F))
      → AllValues IsSplit t
      → AllValues IsSplit (claude_lines real num from_line lines t)
  unfolding claude_lines
  claude_lines-IsSplit [] t h = h
  claude_lines-IsSplit (line ∷ lines) t h =
      claude_lines-IsSplit lines (add_parsed real num from_line (from_line line) t)
        (add_parsed-IsSplit (from_line line) t h)

  pub claude_tokens_by_model-IsSplit :
      (text : Option Bytes) → AllValues IsSplit (claude_tokens_by_model real num from_line text)
  unfolding claude_tokens_by_model
  claude_tokens_by_model-IsSplit none = tt
  claude_tokens_by_model-IsSplit (some text) = claude_lines-IsSplit (split b'\n' text) [] tt

module _ {F : Type 0} where
  -- what the loop over the files keeps
  abbrev IsGood : Builder F → Type 0
  IsGood b = IsPaired b × IsBalanced b

module _ {F : Type 0} (real : Real F) (pricing : Map (F × F)) where
  claude_model-IsGood :
      (raw : Bytes) (b : Bucket F) (builder : Builder F)
      → IsSplit b
      → IsGood builder
      → IsGood (claude_model real pricing raw b builder)
  unfolding claude_model accum
  claude_model-IsGood raw b builder s (p, q) = (
    rw (p, s) (pair_add builder.tokens_in builder.tokens_out b.tin b.tout b.cache),
    accum-IsBalanced real raw b.tin (add b.tout b.cache) b.total _ builder q,
  )

  claude_models-IsGood :
      (t : Tree (Bucket F)) (counted : Bool) (builder : Builder F)
      → AllValues IsSplit t
      → IsGood builder
      → IsGood (claude_models real pricing t counted builder)
  unfolding claude_models add_session
  claude_models-IsGood [] counted builder s h = h
  claude_models-IsGood ((raw, b) ∷ t) counted builder s h =
      let next = claude_model-IsGood raw b builder s.0 h in
      claude_models-IsGood t (counted || is_positive b.total) _ s.1
        (if_both IsGood (is_positive b.total) (if_both IsGood counted next next) h)

module _ {N F : Type 0} (real : Real F) (num : Number N F)
    (from_line : Bytes → Option (Value N)) where
  claude_files-IsGood :
      (midnight : F) (pricing : Map (F × F)) (files : List (File F)) (builder : Builder F)
      → IsGood builder
      → IsGood (claude_files real num from_line midnight pricing files builder)
  unfolding claude_files
  claude_files-IsGood midnight pricing [] builder h = h
  claude_files-IsGood midnight pricing (f ∷ fs) builder h =
      claude_files-IsGood midnight pricing fs _ (
        if_both IsGood (is_today real midnight f)
          (claude_models-IsGood real pricing (claude_tokens_by_model real num from_line f.text)
            false builder (claude_tokens_by_model-IsSplit real num from_line f.text) h)
          h)

  finalize-paired :
      (b : Builder F)
      → IsGood b
      → (finalize real b).tokens ≡ add (finalize real b).tokens_in (finalize real b).tokens_out
  finalize-paired b (p, q) =
      let (ins, outs, all) = finalize-counts real b q in rw (ins, outs, all) p

  -- Whatever the files hold, Claude's tokens are its tokens in and its tokens out.
  pub claude_metrics-tokens :
      (midnight : F) (pricing : Map (F × F)) (files : Option (List (File F)))
      → (claude_metrics real num from_line midnight pricing files).tokens
        ≡ add
            (claude_metrics real num from_line midnight pricing files).tokens_in
            (claude_metrics real num from_line midnight pricing files).tokens_out
  unfolding claude_metrics add
  claude_metrics-tokens midnight pricing none =
      finalize-paired default_builder (refl, default_builder-IsBalanced F)
  claude_metrics-tokens midnight pricing (some files) = finalize-paired _ (
      claude_files-IsGood midnight pricing files default_builder
        (refl, default_builder-IsBalanced F))
