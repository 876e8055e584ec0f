-- ===== src/Metrics/Summary/Complete.antt =====
-- bridge/src/metrics.rs: when the cost of a summary is complete.
use cydrust.Prelude.{
  ◌≡◌, refl, sym, ◌∙◌, ◌↔◌, Bool, true, false, ◌&&◌, [], ◌∷◌, arith, Bool-cases, inl, inr, any,
  length, ltb,
}
use cydrust.Tree.{Tree}
use cydrust.Metrics.Number.{Real, is_positive}
use cydrust.Metrics.Build.{ProviderMetric}
use cydrust.Metrics.Summary.{usd_vals, is_some, all_some, summarize}

and_both : (a b : Bool) → a && b ≡ true → (a ≡ true) × (b ≡ true)
and_both a b h = (ground arith, ground arith)

module _ {F : Type 0} where
  -- every provider with tokens has a cost
  abbrev pub AllPriced : Tree (ProviderMetric F) → Type 0
  AllPriced [] = Unit
  AllPriced ((name, p) ∷ t) = (is_positive p.tokens ≡ true → is_some p.usd ≡ true) × AllPriced t

  -- some provider has tokens
  abbrev pub some_tokens : Tree (ProviderMetric F) → Bool
  some_tokens t = any (λ e. is_positive e.1.tokens) t

  all_some→ : (t : Tree (ProviderMetric F)) → all_some (usd_vals t) ≡ true → AllPriced t
  unfolding usd_vals all_some
  all_some→ [] h = tt
  all_some→ ((name, p) ∷ t) h = elim (Bool-cases (is_positive p.tokens)) [
    | inl e ↦
        let k : is_some p.usd && all_some (usd_vals t) ≡ true = rw (e, usd_vals) at h in
        let both = and_both (is_some p.usd) (all_some (usd_vals t)) k in
        (λ q. both.0, all_some→ t both.1)
    | inr e ↦
        let k : all_some (usd_vals t) ≡ true = rw (e, usd_vals) at h in
        (λ q. let n : true ≡ false = sym q ∙ e in cc, all_some→ t k)
  ]

  →all_some : (t : Tree (ProviderMetric F)) → AllPriced t → all_some (usd_vals t) ≡ true
  unfolding usd_vals all_some
  →all_some [] h = refl
  →all_some ((name, p) ∷ t) h = let rest = →all_some t h.1 in let here = h.0 in ground arith

  active : (t : Tree (ProviderMetric F)) → ltb 0 (length (usd_vals t)) ≡ some_tokens t
  unfolding usd_vals
  active [] = refl
  active ((name, p) ∷ t) = let rest = active t in ground arith

module _ {F : Type 0} (real : Real F) where
  -- The cost of a summary is complete exactly where some provider has tokens and each one that has
  -- any has a cost.
  pub summarize-usd_complete_iff :
      (t : Tree (ProviderMetric F))
      → ((summarize real t).usd_complete ≡ true) ↔ ((some_tokens t ≡ true) × AllPriced t)
  unfolding summarize
  summarize-usd_complete_iff t = rw (active t) (
    (λ h. let (s, a) = and_both (some_tokens t) (all_some (usd_vals t)) h in (s, all_some→ t a)),
    (λ (s, a). rw (s, →all_some t a)),
  )
