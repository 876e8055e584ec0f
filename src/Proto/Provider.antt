-- ===== src/Proto/Provider.antt =====
-- firmware/src/proto.rs: `parse_provider` and `parse_metrics`. f32 and its parsing are parameters.
pub mod Capped
use cydrust.Prelude.{
  ℕ, ◌+◌, ◌-◌, Bool, true, false, ◌&&◌, Option, none, some, List, [], ◌∷◌, ◌++◌, if◌then◌else◌, ltb,
  ◌==◌, length, take, drop,
}
use cydrust.Prelude.Int.{ℤ, pos, negsuc, ◌+ℤ◌}
use cydrust.Prelude.Run.{Run, ok, ◌>>=◌}
use cydrust.Proto.Model.{Bytes, Usage, ModelRow, Metrics, max_models}
use cydrust.Proto.Same.{same_int}
use cydrust.Proto.Scan.{find_str, extract_str, num_field}
use cydrust.Proto.Text.{trunc_bytes}

-- f32: the literals 0.0 and -1.0, `parse` after a `trim`, `as i32`, and `as u32` after `max(0.0)`
pub record Float32 (F : Type 0) : Type 0 where
  pub zero_f : F
  pub minus_one : F
  pub parse : Bytes → Option F
  pub to_i32 : F → ℤ
  pub to_u32 : F → ℕ

-- `contains`
unfoldable pub contains : Bytes → Bytes → Bool
contains text needle = elim (find_str needle text) [ none ↦ false | some rest ↦ true ]

-- the text up to the brace that closes it, or all of it
unfoldable pub object_text : ℕ → Bytes → Bytes
object_text depth [] = []
object_text depth (c ∷ cs) =
    let deeper = object_text (depth + 1) cs in
    let same = object_text depth cs in
    let up = object_text (depth - 1) cs in
    if c == b'{'
    then c ∷ deeper
    else if c == b'}'
    then (if depth == 1 then [] else c ∷ up)
    else c ∷ same

module _ {F : Type 0} (float : Float32 F) where
  -- `Usage::default()`
  abbrev pub default_usage : Usage F
  default_usage = record {
    ok = false;
    pct = float.zero_f;
    reset_sec = 0;
    week_pct = float.minus_one;
    week_reset_sec = negsuc 0;
    will_exhaust = false;
    burn_per_hr = float.zero_f;
    leftover_pct = float.minus_one;
    eta_clock = [];
  }

  field_of : Bytes → Bytes → Option F
  field_of obj key = num_field float.parse float.to_i32 obj key

  abbrev or_float : Option F → F → F
  or_float none d = d
  or_float (some v) d = v

  abbrev or_int : Option F → ℤ → ℤ
  or_int none d = d
  or_int (some v) d = float.to_i32 v

  abbrev or_nat : Option F → ℕ
  or_nat none = 0
  or_nat (some v) = float.to_u32 v

  abbrev pub cut_to : ℕ → Option Bytes → Run Bytes
  cut_to n none = ok []
  cut_to n (some s) = trunc_bytes s n

  -- the usage of a provider that is ok
  provider_of : Bytes → Bytes → Usage F
  unfolding field_of
  provider_of obj eta = record {
    ok = true;
    pct = or_float (field_of obj (b'p' ∷ [])) float.zero_f;
    reset_sec = or_nat (field_of obj (b'r' ∷ []));
    week_pct = or_float (field_of obj (b'w' ∷ b'p' ∷ [])) float.minus_one;
    week_reset_sec = or_int (field_of obj (b'w' ∷ b'r' ∷ [])) (negsuc 0);
    will_exhaust = contains obj (b'"' ∷ b'w' ∷ b'e' ∷ b'"' ∷ b':' ∷ b't' ∷ b'r' ∷ b'u' ∷ b'e' ∷ []);
    burn_per_hr = or_float (field_of obj (b'b' ∷ [])) float.zero_f;
    leftover_pct = or_float (field_of obj (b'l' ∷ b'o' ∷ [])) float.minus_one;
    eta_clock = eta;
  }

  -- the usage in an object's text
  provider_in : Bytes → Run (Usage F)
  provider_in obj =
      if contains obj (b'"' ∷ b'o' ∷ b'k' ∷ b'"' ∷ b':' ∷ b't' ∷ b'r' ∷ b'u' ∷ b'e' ∷ [])
      then (cut_to 12 (extract_str obj (b'e' ∷ [])) >>= λ eta. ok (provider_of obj eta))
      else ok default_usage

  unfoldable pub parse_provider : Bytes → Bytes → Run (Usage F)
  unfolding provider_of provider_in
  parse_provider text marker = elim (find_str marker text) [
    | none ↦ ok default_usage
    | some rest ↦ provider_in (object_text 1 rest)
  ]

  abbrev is_some : Option F → Bool
  is_some none = false
  is_some (some v) = true

  -- the row with its strings
  made_model : Bytes → Bytes → Bytes → ModelRow F
  unfolding field_of
  made_model o provider model = record {
    provider = provider;
    model = model;
    tokens = or_float (field_of o (b't' ∷ [])) float.zero_f;
    usd = or_float (field_of o (b'u' ∷ [])) float.zero_f;
    has_usd = is_some (field_of o (b'u' ∷ []));
  }

  -- the row of a model's object
  unfoldable pub model_row : Bytes → Run (ModelRow F)
  unfolding made_model
  model_row o = cut_to 10 (extract_str o (b'p' ∷ [])) >>= λ provider.
      cut_to 16 (extract_str o (b'n' ∷ [])) >>= λ model. ok (made_model o provider model)

  -- where the loop over the array stands, and what it has
  pub record Models : Type 0 where
    pub index : ℕ
    pub depth : ℤ
    pub from : Option ℕ
    pub rows : List (ModelRow F)
    pub dropped : ℕ

  unfoldable pub add_model : Models → ModelRow F → Models
  add_model st row =
      if ltb (length st.rows) max_models
      then record st { rows = st.rows ++ row ∷ []; from = none }
      else record st { dropped = st.dropped + 1; from = none }

  -- an object that closes
  unfoldable pub close_model : Bytes → Models → Run Models
  close_model arr st = elim (st.from) [
    | none ↦ ok st
    | some s ↦ model_row (take (st.index + 1 - s) (drop s arr)) >>= λ row. ok (add_model st row)
  ]

  -- the `match` on a character; the flag is false where the loop breaks
  unfoldable pub on_model_char : Bytes → ℕ → Models → Run (Models × Bool)
  on_model_char arr c st =
      let lower = st.depth +ℤ negsuc 0 in
      if c == b'{'
      then ok (
        record st {
          depth = st.depth +ℤ pos 1;
          from = if same_int st.depth (pos 0) then some st.index else st.from;
        },
        true,
      )
      else if c == b'}'
      then (if same_int lower (pos 0)
          then (close_model arr (record st { depth = lower }) >>= λ t. ok (t, true))
          else ok (record st { depth = lower }, true))
      else ok (st, if c == b']' && same_int st.depth (pos 0) then false else true)

  -- the loop over the characters that are left
  unfoldable pub scan_models : Bytes → Bytes → Models → Run Models
  scan_models arr [] st = ok st
  scan_models arr (c ∷ cs) st = on_model_char arr c st >>= λ r. elim (r.1) [
    | true ↦ scan_models arr cs (record (r.0) { index = r.0.index + 1 })
    | false ↦ ok r.0
  ]

  abbrev pub no_models : Models
  no_models = record { index = 0; depth = pos 0; from = none; rows = []; dropped = 0 }

  models_in : Option Bytes → Run Models
  models_in none = ok no_models
  models_in (some arr) = scan_models arr arr no_models

  abbrev pub default_metrics : Metrics F
  default_metrics = record {
    models = [];
    total_tokens = float.zero_f;
    total_usd = float.zero_f;
    has_usd = false;
    usd_complete = false;
    total_sessions = pos 0;
    dropped_models = 0;
  }

  -- the metrics with the models
  metrics_of : Bytes → Models → Metrics F
  unfolding field_of
  metrics_of mobj st = record {
    models = st.rows;
    total_tokens = or_float (field_of mobj (b't' ∷ b't' ∷ [])) float.zero_f;
    total_usd = or_float (field_of mobj (b't' ∷ b'u' ∷ [])) float.zero_f;
    has_usd = is_some (field_of mobj (b't' ∷ b'u' ∷ []));
    usd_complete =
        contains mobj (b'"' ∷ b'u' ∷ b'c' ∷ b'"' ∷ b':' ∷ b't' ∷ b'r' ∷ b'u' ∷ b'e' ∷ []);
    total_sessions = or_int (field_of mobj (b't' ∷ b's' ∷ [])) (pos 0);
    dropped_models = st.dropped;
  }

  -- the metrics in an object's text
  metrics_in : Bytes → Run (Metrics F)
  unfolding metrics_of models_in
  metrics_in mobj = models_in (find_str (b'"' ∷ b'm' ∷ b'"' ∷ b':' ∷ b'[' ∷ []) mobj) >>= λ st.
      ok (metrics_of mobj st)

  unfoldable pub parse_metrics : Bytes → Run (Metrics F)
  unfolding metrics_in
  parse_metrics text =
      elim (find_str
        (b'"' ∷ b'm' ∷ b'e' ∷ b't' ∷ b'r' ∷ b'i' ∷ b'c' ∷ b's' ∷ b'"' ∷ b':' ∷ b'{' ∷ []) text) [
          | none ↦ ok default_metrics
          | some rest ↦ metrics_in (object_text 1 rest)
        ]
