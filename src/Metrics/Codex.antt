-- ===== src/Metrics/Codex.antt =====
-- bridge/src/metrics.rs: `codex_tokens_by_model` and `codex_metrics`.
pub mod Files
use cydrust.Prelude.{
  ℕ, Bool, true, false, ◌&&◌, not, Option, none, some, List, [], ◌∷◌, if◌then◌else◌, ◌==◌,
}
use cydrust.Proto.Model.{Bytes}
use cydrust.Proto.Same.{same_bytes}
use cydrust.Json.{Value, null, number, get, get_object, get_str, is_object}
use cydrust.Strings.{is_nil, split}
use cydrust.Bridge.Map.{Map}
use cydrust.Metrics.Number.{Real, Number, add, is_positive, as_i64, count_of}
use cydrust.Metrics.Price.{price_blended}
use cydrust.Metrics.Build.{Builder, ProviderMetric, default_builder, accum, finalize}
use cydrust.Metrics.Claude.{File, is_today, add_session}

-- the five variables of `codex_tokens_by_model`
pub record Codex : Type 0 where
  pub model : Option Bytes
  pub ti : ℕ
  pub to : ℕ
  pub cache : ℕ
  pub total : ℕ

abbrev pub no_codex : Codex
no_codex = record { model = none; ti = 0; to = 0; cache = 0; total = 0 }

abbrev pub codex_name : Bytes
codex_name = b'c' ∷ b'o' ∷ b'd' ∷ b'e' ∷ b'x' ∷ []

abbrev or_text : Option Bytes → Option Bytes → Option Bytes
or_text none o = o
or_text (some s) o = some s

module _ {N : Type 0} where
  abbrev or_value : Option (Value N) → Value N → Value N
  or_value none v = v
  or_value (some w) v = w

  abbrev or_option : Option (Value N) → Option (Value N) → Option (Value N)
  or_option none o = o
  or_option (some w) o = some w

  -- `filter(|v| v.is_number())`
  abbrev number_at : Option (Value N) → Option (Value N)
  number_at (some (number n)) = some (number n)
  number_at _ = none

  -- `o.get("payload").filter(|p| p.is_object()).unwrap_or(&o)`
  unfoldable pub payload_of : Value N → Value N
  payload_of o = or_value (get_object o (b'p' ∷ b'a' ∷ b'y' ∷ b'l' ∷ b'o' ∷ b'a' ∷ b'd' ∷ [])) o

  model_in : Value N → Option Bytes
  model_in info = get_str info (b'm' ∷ b'o' ∷ b'd' ∷ b'e' ∷ b'l' ∷ [])

  unfoldable pub named_model : Value N → Option Bytes
  unfolding model_in
  named_model payload =
      or_text (model_in payload)
        (elim (get payload (b'i' ∷ b'n' ∷ b'f' ∷ b'o' ∷ [])) [ none ↦ none | some i ↦ model_in i ])

  -- the model, where there is none yet and the name is not empty
  unfoldable pub take_model : Value N → Codex → Codex
  take_model payload c = elim (c.model) [
    | some m ↦ c
    | none ↦ elim (named_model payload) [
      | none ↦ c
      | some m ↦ if is_nil m then c else record c { model = some m }
    ]
  ]

  unfoldable pub is_token_count : Value N → Bool
  is_token_count payload = elim (get_str payload (b't' ∷ b'y' ∷ b'p' ∷ b'e' ∷ [])) [
    | none ↦ false
    | some t ↦
        same_bytes t
          (b't' ∷ b'o' ∷ b'k' ∷ b'e' ∷ b'n' ∷ b'_' ∷ b'c' ∷ b'o' ∷ b'u' ∷ b'n' ∷ b't' ∷ [])
  ]

  -- the usage of a `token_count`, or null
  unfoldable pub token_usage : Value N → Value N
  token_usage payload =
      let info = or_value (get_object payload (b'i' ∷ b'n' ∷ b'f' ∷ b'o' ∷ [])) payload in
      or_value
        (or_option
          (get info (
            b't' ∷ b'o' ∷ b't' ∷ b'a' ∷ b'l' ∷ b'_' ∷ b't' ∷ b'o' ∷ b'k' ∷ b'e' ∷ b'n' ∷ b'_' ∷ b'u'
            ∷ b's' ∷ b'a' ∷ b'g' ∷ b'e' ∷ []))
          (get info (
            b'l' ∷ b'a' ∷ b's' ∷ b't' ∷ b'_' ∷ b't' ∷ b'o' ∷ b'k' ∷ b'e' ∷ b'n' ∷ b'_' ∷ b'u' ∷ b's'
            ∷ b'a' ∷ b'g' ∷ b'e' ∷ [])))
        null

module _ {N F : Type 0} (real : Real F) (num : Number N F) where
  count_at : Value N → Bytes → ℕ
  count_at v k = count_of real num (get v k)

  -- the counts of a cumulative usage
  unfoldable pub snapshot : Value N → Value N → Codex → Codex
  unfolding count_at
  snapshot tu t c = record c {
    total = as_i64 real num t;
    ti =
        count_at tu
          (b'i' ∷ b'n' ∷ b'p' ∷ b'u' ∷ b't' ∷ b'_' ∷ b't' ∷ b'o' ∷ b'k' ∷ b'e' ∷ b'n' ∷ b's' ∷ []);
    to = count_at tu (
        b'o' ∷ b'u' ∷ b't' ∷ b'p' ∷ b'u' ∷ b't' ∷ b'_' ∷ b't' ∷ b'o' ∷ b'k' ∷ b'e' ∷ b'n' ∷ b's'
        ∷ []);
    cache = count_at tu (
        b'c' ∷ b'a' ∷ b'c' ∷ b'h' ∷ b'e' ∷ b'd' ∷ b'_' ∷ b'i' ∷ b'n' ∷ b'p' ∷ b'u' ∷ b't' ∷ b'_'
        ∷ b't' ∷ b'o' ∷ b'k' ∷ b'e' ∷ b'n' ∷ b's' ∷ []);
  }

  -- the counts of a usage without a total
  unfoldable pub from_parts : Value N → Codex → Codex
  unfolding count_at
  from_parts tu c =
      let ti =
        count_at tu (
          b'i' ∷ b'n' ∷ b'p' ∷ b'u' ∷ b't' ∷ b'_' ∷ b't' ∷ b'o' ∷ b'k' ∷ b'e' ∷ b'n' ∷ b's' ∷ []) in
      let to = count_at tu (
        b'o' ∷ b'u' ∷ b't' ∷ b'p' ∷ b'u' ∷ b't' ∷ b'_' ∷ b't' ∷ b'o' ∷ b'k' ∷ b'e' ∷ b'n' ∷ b's'
        ∷ []) in
      let cache =
        add
          (count_at tu (
            b'c' ∷ b'a' ∷ b'c' ∷ b'h' ∷ b'e' ∷ b'd' ∷ b'_' ∷ b'i' ∷ b'n' ∷ b'p' ∷ b'u' ∷ b't' ∷ b'_'
            ∷ b't' ∷ b'o' ∷ b'k' ∷ b'e' ∷ b'n' ∷ b's' ∷ []))
          (count_at tu (
            b'r' ∷ b'e' ∷ b'a' ∷ b's' ∷ b'o' ∷ b'n' ∷ b'i' ∷ b'n' ∷ b'g' ∷ b'_' ∷ b'o' ∷ b'u' ∷ b't'
            ∷ b'p' ∷ b'u' ∷ b't' ∷ b'_' ∷ b't' ∷ b'o' ∷ b'k' ∷ b'e' ∷ b'n' ∷ b's' ∷ [])) in
      let s = add (add ti to) cache in
      record c { ti = ti; to = to; cache = cache; total = if s == 0 then c.total else s }

  unfoldable pub take_usage : Value N → Value N → Codex → Codex
  take_usage payload tu c =
      if is_object tu
      then elim (number_at (
          get tu (
            b't' ∷ b'o' ∷ b't' ∷ b'a' ∷ b'l' ∷ b'_' ∷ b't' ∷ b'o' ∷ b'k' ∷ b'e' ∷ b'n' ∷ b's'
            ∷ []))) [ some t ↦ snapshot tu t c | none ↦ from_parts tu c ]
      else elim (number_at (
          get payload (
            b't' ∷ b'o' ∷ b't' ∷ b'a' ∷ b'l' ∷ b'_' ∷ b't' ∷ b'o' ∷ b'k' ∷ b'e' ∷ b'n' ∷ b's'
            ∷ []))) [ some t ↦ record c { total = as_i64 real num t } | none ↦ c ]

  unfoldable pub codex_payload : Value N → Codex → Codex
  codex_payload payload c =
      let named = take_model payload c in
      if is_token_count payload then take_usage payload (token_usage payload) named else named

module _ {N F : Type 0} (real : Real F) (num : Number N F)
    (from_line : Bytes → Option (Value N)) where
  unfoldable pub codex_line : Option (Value N) → Codex → Codex
  codex_line none c = c
  codex_line (some o) c = codex_payload real num (payload_of o) c

  unfoldable pub codex_lines : List Bytes → Codex → Codex
  codex_lines [] c = c
  codex_lines (line ∷ lines) c = codex_lines lines (codex_line (from_line line) c)

  unfoldable pub codex_tokens_by_model : Option Bytes → Codex
  codex_tokens_by_model none = no_codex
  codex_tokens_by_model (some text) =
      let c = codex_lines (split b'\n' text) no_codex in if is_positive c.total then c else no_codex

module _ {F : Type 0} (real : Real F) where
  abbrev or_codex : Option Bytes → Bytes
  or_codex none = codex_name
  or_codex (some m) = m

  unfoldable pub codex_file : Map (F × F) → Codex → Builder F → Builder F
  codex_file pricing c builder =
      if is_positive c.total
      then add_session real (
          accum real (or_codex c.model) c.ti (add c.to c.cache) c.total
            (price_blended real codex_name pricing c.total) builder)
      else builder

module _ {N F : Type 0} (real : Real F) (num : Number N F)
    (from_line : Bytes → Option (Value N)) where
  unfoldable pub codex_files : F → Map (F × F) → List (File F) → Builder F → Builder F
  codex_files midnight pricing [] builder = builder
  codex_files midnight pricing (f ∷ fs) builder = codex_files midnight pricing fs (
      if is_today real midnight f
      then codex_file real pricing (codex_tokens_by_model real num from_line f.text) builder
      else builder)

  unfoldable pub codex_metrics : F → Map (F × F) → Option (List (File F)) → ProviderMetric F
  codex_metrics midnight pricing none = finalize real default_builder
  codex_metrics midnight pricing (some files) =
      finalize real (codex_files midnight pricing files default_builder)
