-- ===== src/Bridge/Hub/Exposition/Samples.antt =====
-- bridge/src/hub.rs: the form of the text that a scrape reads.
use cydrust.Prelude.{
  ℕ, ◌≡◌, refl, sym, ◌∙◌, ap, subst, Bool, true, false, ◌||◌, Option, none, some, List, [], ◌∷◌,
  ◌++◌, arith, All, All-++, any, ◌==◌,
}
use cydrust.Proto.Model.{Bytes}
use cydrust.Tree.{Tree}
use cydrust.Bridge.Model.{Float}
use cydrust.Bridge.State.{Inner}
use cydrust.Bridge.Rows.{derive_rows}
use cydrust.Bridge.Federation.{starts_with}
use cydrust.Bridge.Hub.Answer.{Shared, Counts, count_statuses}
use cydrust.Bridge.Hub.Exposition.{
  Show, ln, text_of, count_line, line_if, claude_str, codex_str, usage_line, reset_line,
  tokens_line, cost_line, total_cost, model_lines, provider_lines, session_lines, stale_lines,
  gauge_lines, total_lines, metrics_handler,
}
use cydrust.Metrics.Build.{ModelMetric, ProviderMetric}
use cydrust.Metrics.Summary.{Metrics}
use cydrust.Serial.Lines.{cut_lines}
use cydrust.Serial.Chunks.{joined, cut_lines-append}
use cydrust.Usage.{UsageInfo}

abbrev is_newline : ℕ → Bool
is_newline c = c == b'\n'

-- no newline in the text
abbrev pub IsOneLine : Bytes → Type 0
IsOneLine s = any is_newline s ≡ false

-- a comment, or a sample of one of the hub's metrics
abbrev pub IsSample : Bytes → Type 0
IsSample s =
    (starts_with s (b'#' ∷ b' ' ∷ [])
      || starts_with s
          (b'v' ∷ b'i' ∷ b'b' ∷ b'e' ∷ b'm' ∷ b'o' ∷ b'n' ∷ b'i' ∷ b't' ∷ b'o' ∷ b'r' ∷ b'_' ∷ []))
    ≡ true

-- whole lines only, each a comment or a sample
pub record IsExposition (text : Bytes) : Type 0 where
  pub samples : All IsSample (cut_lines text).0
  pub ends : (cut_lines text).1 ≡ []

any-++ : (s t : Bytes) → any is_newline (s ++ t) ≡ any is_newline s || any is_newline t
any-++ [] t = refl
any-++ (c ∷ s) t = let rest = any-++ s t in ground arith

-- Two texts without a newline make one.
one_line-++ : (s t : Bytes) → IsOneLine s → IsOneLine t → IsOneLine (s ++ t)
one_line-++ s t a b = any-++ s t ∙ rw (a, b)

cut_lines-ln : (s : Bytes) → IsOneLine s → cut_lines (ln s) ≡ (ln s ∷ [], [])
cut_lines-ln [] h = refl
cut_lines-ln (c ∷ s) h =
    let e : is_newline c ≡ false = ground arith in
    let rest = cut_lines-ln s (ground arith) in rw (e, rest)

IsExposition-[] : IsExposition []
IsExposition-[] = record { samples = tt; ends = refl }

IsExposition-++ : (s t : Bytes) → IsExposition s → IsExposition t → IsExposition (s ++ t)
IsExposition-++ s t a b =
    let e : joined (cut_lines s) t ≡ ((cut_lines s).0 ++ (cut_lines t).0, (cut_lines t).1) =
      ap (λ rest. joined ((cut_lines s).0, rest) t) a.ends in
    let k = cut_lines-append s t ∙ e in
    record {
      samples =
          subst (λ x. All IsSample x.0) (sym k)
            (All-++ IsSample (cut_lines s).0 (cut_lines t).0 a.samples b.samples);
      ends = ap (λ x. x.1) k ∙ b.ends;
    }

IsExposition-ln : (s : Bytes) → IsOneLine s → IsSample (ln s) → IsExposition (ln s)
IsExposition-ln s h p =
    let k = cut_lines-ln s h in
    record { samples = subst (λ x. All IsSample x.0) (sym k) (p, tt); ends = ap (λ x. x.1) k }

IsExposition-if {ℓ} :
    {A : Type ℓ} (line : A → Bytes) (o : Option A)
    → ((a : A) → IsExposition (ln (line a)))
    → IsExposition (line_if line o)
IsExposition-if line none h = IsExposition-[]
IsExposition-if line (some a) h = h a

-- what the model's name and the printing of numbers give is on one line
pub record PrintsLines {F : Type 0} (show : Show F) : Type 0 where
  pub count : (n : ℕ) → IsOneLine (show.count n)
  pub integer : (n : ℕ) → IsOneLine (show.integer n)
  pub float : (v : F) → IsOneLine (show.float v)
  pub whole : (v : F) → IsOneLine (show.whole v)

abbrev pub HasLines : {F : Type 0} → Bytes × ProviderMetric F → Type 0
HasLines e = IsOneLine e.0 × All (λ m. IsOneLine m.model) e.1.models

closed :
    {text : Bytes} → All IsSample (cut_lines text).0 → (cut_lines text).1 ≡ [] → IsExposition text
closed a e = record { samples = a; ends = e }

starts_with-++ : (s t p : Bytes) → starts_with s p ≡ true → starts_with (s ++ t) p ≡ true
unfolding starts_with
starts_with-++ [] [] [] h = refl
starts_with-++ [] (c ∷ t) [] h = refl
starts_with-++ [] t (d ∷ p) h = cc
starts_with-++ (c ∷ s) t [] h = refl
starts_with-++ (c ∷ s) t (d ∷ p) h = let rest = starts_with-++ s t p in ground arith

-- Pieces that are expositions make one.
text_of-IsExposition :
    (pieces : List Bytes) → All IsExposition pieces → IsExposition (text_of pieces)
unfolding text_of
text_of-IsExposition [] a = IsExposition-[]
text_of-IsExposition (p ∷ ps) a = IsExposition-++ p (text_of ps) a.0 (text_of-IsExposition ps a.1)

text_of-IsOneLine : (pieces : List Bytes) → All IsOneLine pieces → IsOneLine (text_of pieces)
unfolding text_of
text_of-IsOneLine [] a = refl
text_of-IsOneLine (p ∷ ps) a = one_line-++ p (text_of ps) a.0 (text_of-IsOneLine ps a.1)

-- A line whose first piece begins with a metric's name is a sample.
text_of-IsSample :
    (p : Bytes) (ps : List Bytes)
    → starts_with p
        (b'v' ∷ b'i' ∷ b'b' ∷ b'e' ∷ b'm' ∷ b'o' ∷ b'n' ∷ b'i' ∷ b't' ∷ b'o' ∷ b'r' ∷ b'_' ∷ [])
      ≡ true
    → IsSample (ln (text_of (p ∷ ps)))
unfolding text_of
text_of-IsSample p ps h =
    let more =
      starts_with-++ p (text_of ps)
        (b'v' ∷ b'i' ∷ b'b' ∷ b'e' ∷ b'm' ∷ b'o' ∷ b'n' ∷ b'i' ∷ b't' ∷ b'o' ∷ b'r' ∷ b'_' ∷ [])
        h in
    let all =
      starts_with-++ (p ++ text_of ps) (b'\n' ∷ [])
        (b'v' ∷ b'i' ∷ b'b' ∷ b'e' ∷ b'm' ∷ b'o' ∷ b'n' ∷ b'i' ∷ b't' ∷ b'o' ∷ b'r' ∷ b'_' ∷ [])
        more in
    rw all (or_true (starts_with (ln (p ++ text_of ps)) (b'#' ∷ b' ' ∷ [])))
  where
    or_true : (b : Bool) → (b || true) ≡ true
    or_true true = refl
    or_true false = refl

sample :
    (p : Bytes) (ps : List Bytes)
    → starts_with p
        (b'v' ∷ b'i' ∷ b'b' ∷ b'e' ∷ b'm' ∷ b'o' ∷ b'n' ∷ b'i' ∷ b't' ∷ b'o' ∷ b'r' ∷ b'_' ∷ [])
      ≡ true
    → All IsOneLine (p ∷ ps)
    → IsExposition (ln (text_of (p ∷ ps)))
sample p ps h a =
    IsExposition-ln (text_of (p ∷ ps)) (text_of-IsOneLine (p ∷ ps) a) (text_of-IsSample p ps h)

module _ {F : Type 0} (show : Show F) (prints : PrintsLines show) where
  usage_line-IsExposition :
      (name : Bytes) (p : F) → IsOneLine name → IsExposition (ln (usage_line show name p))
  unfolding usage_line starts_with
  usage_line-IsExposition name p h = sample _ _ refl (refl, (h, (refl, (prints.float p, tt))))

  reset_line-IsExposition :
      (name : Bytes) (r : ℕ) → IsOneLine name → IsExposition (ln (reset_line show name r))
  unfolding reset_line starts_with
  reset_line-IsExposition name r h = sample _ _ refl (refl, (h, (refl, (prints.count r, tt))))

  session_lines-IsExposition : (c : Counts) → IsExposition (session_lines show c)
  unfolding session_lines count_line starts_with
  session_lines-IsExposition c = text_of-IsExposition _ (
    closed (refl, tt) refl,
    (
      closed (refl, tt) refl,
      (
        closed (refl, tt) refl,
        (
          closed (refl, tt) refl,
          (
            closed (refl, tt) refl,
            (
              sample _ _ refl (refl, (refl, (refl, (prints.count c.working, tt)))),
              (
                sample _ _ refl (refl, (refl, (refl, (prints.count c.waiting, tt)))),
                (sample _ _ refl (refl, (refl, (refl, (prints.count c.idle, tt)))), tt),
              ),
            ),
          ),
        ),
      ),
    ),
  )

  stale_lines-IsExposition : (stale : F) → IsExposition (stale_lines show stale)
  unfolding stale_lines starts_with
  stale_lines-IsExposition stale = text_of-IsExposition _ (
    closed (refl, tt) refl,
    (closed (refl, tt) refl, (sample _ _ refl (refl, (prints.whole stale, tt)), tt)),
  )

  gauge_lines-IsExposition :
      (claude codex : UsageInfo F) → IsExposition (gauge_lines show claude codex)
  unfolding gauge_lines starts_with
  gauge_lines-IsExposition claude codex = text_of-IsExposition _ (
    closed (refl, tt) refl,
    (
      closed (refl, tt) refl,
      (
        IsExposition-if (usage_line show claude_str) claude.pct
            (λ p. usage_line-IsExposition claude_str p refl),
        (
          IsExposition-if (usage_line show codex_str) codex.pct
              (λ p. usage_line-IsExposition codex_str p refl),
          (
            closed (refl, tt) refl,
            (
              closed (refl, tt) refl,
              (
                IsExposition-if (reset_line show claude_str) claude.reset_sec
                    (λ r. reset_line-IsExposition claude_str r refl),
                (
                  IsExposition-if (reset_line show codex_str) codex.reset_sec
                      (λ r. reset_line-IsExposition codex_str r refl),
                  tt,
                ),
              ),
            ),
          ),
        ),
      ),
    ),
  )

  tokens_line-IsExposition :
      (prov : Bytes) (m : ModelMetric F)
      → IsOneLine prov
      → IsOneLine m.model
      → IsExposition (ln (tokens_line show prov m))
  unfolding tokens_line starts_with
  tokens_line-IsExposition prov m h k =
      sample _ _ refl (refl, (h, (refl, (k, (refl, (prints.integer m.tokens, tt))))))

  cost_line-IsExposition :
      (prov model : Bytes) (u : F)
      → IsOneLine prov
      → IsOneLine model
      → IsExposition (ln (cost_line show prov model u))
  unfolding cost_line starts_with
  cost_line-IsExposition prov model u h k =
      sample _ _ refl (refl, (h, (refl, (k, (refl, (prints.float u, tt))))))

  model_lines-IsExposition :
      (prov : Bytes) (ms : List (ModelMetric F))
      → IsOneLine prov
      → All (λ m. IsOneLine m.model) ms
      → IsExposition (model_lines show prov ms)
  unfolding model_lines
  model_lines-IsExposition prov [] h a = IsExposition-[]
  model_lines-IsExposition prov (m ∷ ms) h a = text_of-IsExposition _ (
    tokens_line-IsExposition prov m h a.0,
    (
      IsExposition-if (cost_line show prov m.model) m.usd
          (λ u. cost_line-IsExposition prov m.model u h a.0),
      (model_lines-IsExposition prov ms h a.1, tt),
    ),
  )

  provider_lines-IsExposition :
      (t : Tree (ProviderMetric F)) → All HasLines t → IsExposition (provider_lines show t)
  unfolding provider_lines
  provider_lines-IsExposition [] a = IsExposition-[]
  provider_lines-IsExposition ((prov, pm) ∷ t) a =
      text_of-IsExposition _ (
        model_lines-IsExposition prov pm.models a.0.0 a.0.1,
        (provider_lines-IsExposition t a.1, tt),
      )

  total_cost-IsExposition : (o : Option F) → IsExposition (total_cost show o)
  unfolding total_cost starts_with
  total_cost-IsExposition none = IsExposition-[]
  total_cost-IsExposition (some u) = text_of-IsExposition _ (
    closed (refl, tt) refl,
    (closed (refl, tt) refl, (sample _ _ refl (refl, (prints.float u, tt)), tt)),
  )

  total_lines-IsExposition :
      (metrics : Metrics F)
      → All HasLines metrics.providers
      → IsExposition (total_lines show metrics)
  unfolding total_lines starts_with
  total_lines-IsExposition metrics a = text_of-IsExposition _ (
    closed (refl, tt) refl,
    (
      closed (refl, tt) refl,
      (
        closed (refl, tt) refl,
        (
          closed (refl, tt) refl,
          (
            provider_lines-IsExposition metrics.providers a,
            (
              closed (refl, tt) refl,
              (
                closed (refl, tt) refl,
                (
                  sample _ _ refl (refl, (prints.integer metrics.totals.tokens, tt)),
                  (total_cost-IsExposition metrics.totals.usd, tt),
                ),
              ),
            ),
          ),
        ),
      ),
    ),
  )

  -- The body of `/metrics` is whole lines, and each begins `# ` or is named for the hub, whatever is
  -- measured, as long as no provider's or model's name has a newline; this asks of the printing of
  -- numbers that it gives none.
  pub metrics_handler-IsExposition :
      (f : Float F) (minus_one now : F) (shared : Shared F) (store : Inner F)
      → All HasLines shared.metrics.providers
      → IsExposition (metrics_handler show f minus_one now shared store)
  unfolding metrics_handler
  metrics_handler-IsExposition f minus_one now shared store a = text_of-IsExposition _ (
    session_lines-IsExposition (count_statuses (derive_rows f shared.titles now store)),
    (
      stale_lines-IsExposition _,
      (
        gauge_lines-IsExposition shared.claude_usage shared.codex_usage,
        (total_lines-IsExposition shared.metrics a, tt),
      ),
    ),
  )
