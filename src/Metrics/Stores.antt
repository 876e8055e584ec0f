-- ===== src/Metrics/Stores.antt =====
-- bridge/src/metrics.rs: `opencode_metrics` and `hermes_metrics`. The rows are what the SQL query
-- gives; `none` stands for a database that cannot be opened or queried.
use cydrust.Prelude.{ℕ, Bool, false, Option, none, some, List, [], ◌∷◌, if◌then◌else◌}
use cydrust.Proto.Model.{Bytes}
use cydrust.Proto.Same.{same_bytes}
use cydrust.Json.{Value, null, get, get_str, as_str}
use cydrust.Tree.{seen}
use cydrust.Metrics.Number.{Real, Number, add, is_positive, as_f64, count_of}
use cydrust.Metrics.Build.{Builder, ProviderMetric, default_builder, accum, finalize}
use cydrust.Metrics.Claude.{add_session, or_unknown}

-- the builder and the session ids that were seen
pub record Opencode (F : Type 0) : Type 0 where
  pub builder : Builder F
  pub seen_ids : List Bytes

-- a row of the `sessions` table
pub record HermesRow (F : Type 0) : Type 0 where
  pub model : Option Bytes
  pub input_tokens : Option ℕ
  pub output_tokens : Option ℕ
  pub cache_read_tokens : Option ℕ
  pub cache_write_tokens : Option ℕ
  pub reasoning_tokens : Option ℕ
  pub estimated_cost_usd : Option F
  pub actual_cost_usd : Option F

abbrev or_zero : Option ℕ → ℕ
or_zero none = 0
or_zero (some n) = n

module _ {F : Type 0} (real : Real F) where
  -- one session for each id, and one for each message without
  unfoldable pub count_session : Option Bytes → Opencode F → Opencode F
  count_session none st = record st { builder = add_session real st.builder }
  count_session (some s) st =
      if seen st.seen_ids s
      then st
      else record { builder = add_session real st.builder; seen_ids = s ∷ st.seen_ids }

  -- `act.or(est)`
  abbrev cost_of : HermesRow F → Option F
  cost_of row = elim (row.actual_cost_usd) [ none ↦ row.estimated_cost_usd | some u ↦ some u ]

  unfoldable pub hermes_row : HermesRow F → Builder F → Builder F
  hermes_row row builder =
      let ti = or_zero row.input_tokens in
      let to = or_zero row.output_tokens in
      let extra =
        add (add (or_zero row.cache_read_tokens) (or_zero row.cache_write_tokens))
          (or_zero row.reasoning_tokens) in
      let tot = add (add ti to) extra in
      if is_positive tot
      then add_session real
          (accum real (or_unknown row.model) ti (add to extra) tot (cost_of row) builder)
      else builder

  unfoldable pub hermes_rows : List (HermesRow F) → Builder F → Builder F
  hermes_rows [] builder = builder
  hermes_rows (row ∷ rows) builder = hermes_rows rows (hermes_row row builder)

  unfoldable pub hermes_metrics : Option (List (HermesRow F)) → ProviderMetric F
  hermes_metrics none = finalize real default_builder
  hermes_metrics (some rows) = finalize real (hermes_rows rows default_builder)

module _ {N F : Type 0} (real : Real F) (num : Number N F)
    (from_str : Bytes → Option (Value N)) where
  abbrev or_null : Option (Value N) → Value N
  or_null none = null
  or_null (some v) = v

  is_assistant : Value N → Bool
  is_assistant d = elim (get_str d (b'r' ∷ b'o' ∷ b'l' ∷ b'e' ∷ [])) [
    | none ↦ false
    | some r ↦ same_bytes r (b'a' ∷ b's' ∷ b's' ∷ b'i' ∷ b's' ∷ b't' ∷ b'a' ∷ b'n' ∷ b't' ∷ [])
  ]

  -- the session's id, or its parent's
  session_id : Value N → Option Bytes
  session_id d = elim (get d (b's' ∷ b'e' ∷ b's' ∷ b's' ∷ b'i' ∷ b'o' ∷ b'n' ∷ b'I' ∷ b'D' ∷ [])) [
    | some s ↦ as_str s
    | none ↦ get_str d (b'p' ∷ b'a' ∷ b'r' ∷ b'e' ∷ b'n' ∷ b't' ∷ b'I' ∷ b'D' ∷ [])
  ]

  cost_in : Value N → Option F
  cost_in d = elim (get d (b'c' ∷ b'o' ∷ b's' ∷ b't' ∷ [])) [
    | none ↦ none
    | some c ↦ as_f64 real num c
  ]

  count_at : Value N → Bytes → ℕ
  count_at v k = count_of real num (get v k)

  -- an assistant's message
  unfoldable pub opencode_message : Value N → Opencode F → Opencode F
  unfolding session_id cost_in count_at
  opencode_message d st =
      let tk = or_null (get d (b't' ∷ b'o' ∷ b'k' ∷ b'e' ∷ b'n' ∷ b's' ∷ [])) in
      let cache = or_null (get tk (b'c' ∷ b'a' ∷ b'c' ∷ b'h' ∷ b'e' ∷ [])) in
      let ti = count_at tk (b'i' ∷ b'n' ∷ b'p' ∷ b'u' ∷ b't' ∷ []) in
      let to = count_at tk (b'o' ∷ b'u' ∷ b't' ∷ b'p' ∷ b'u' ∷ b't' ∷ []) in
      let extra =
        add
          (add (count_at tk (b'r' ∷ b'e' ∷ b'a' ∷ b's' ∷ b'o' ∷ b'n' ∷ b'i' ∷ b'n' ∷ b'g' ∷ []))
            (count_at cache (b'r' ∷ b'e' ∷ b'a' ∷ b'd' ∷ [])))
          (count_at cache (b'w' ∷ b'r' ∷ b'i' ∷ b't' ∷ b'e' ∷ [])) in
      let tot = add (add ti to) extra in
      let model = or_unknown (get_str d (b'm' ∷ b'o' ∷ b'd' ∷ b'e' ∷ b'l' ∷ b'I' ∷ b'D' ∷ [])) in
      if is_positive tot
      then count_session real (session_id d)
          (record st { builder = accum real model ti (add to extra) tot (cost_in d) st.builder })
      else st

  opencode_parsed : Option (Value N) → Opencode F → Opencode F
  opencode_parsed none st = st
  opencode_parsed (some d) st = if is_assistant d then opencode_message d st else st

  unfoldable pub opencode_rows : List Bytes → Opencode F → Opencode F
  unfolding is_assistant opencode_parsed
  opencode_rows [] st = st
  opencode_rows (row ∷ rows) st = opencode_rows rows (opencode_parsed (from_str row) st)

  unfoldable pub opencode_metrics : Option (List Bytes) → ProviderMetric F
  opencode_metrics none = finalize real default_builder
  opencode_metrics (some rows) =
      finalize real
        (opencode_rows rows (record { builder = default_builder; seen_ids = [] })).builder
