-- ===== src/Serial/Mini.antt =====
-- bridge/src/bin/serial_bridge.rs: `make_mini`, `metrics_mini` and `provider_mini`. Parsing and
-- printing JSON are parameters, as are serde_json's numbers.
use cydrust.Prelude.{
  ℕ, Bool, true, false, Option, none, some, List, [], ◌∷◌, ◌++◌, if◌then◌else◌, ltb, take,
}
use cydrust.Proto.Model.{Bytes}
use cydrust.Proto.Same.{same_bytes}
use cydrust.Json.{
  Value, bool, number, string, array, object, Items, nil, cons, Fields, end, field, set_field,
  index, as_str,
}
use cydrust.Strings.{is_nil, take_chars}
use cydrust.Metrics.Number.{Real, Number, two_63, as_f64}
use cydrust.Serial.Compact.{compact_json}

-- a row of `metrics_mini`
pub record MiniRow (F : Type 0) : Type 0 where
  pub provider : Bytes
  pub model : Bytes
  pub tokens : F
  pub usd : Option F

-- numbers that are made into JSON
pub record Into (N F : Type 0) : Type 0 where
  pub of_int : ℕ → N
  -- null, where it is not finite
  pub of_float : F → Value N

module _ {N F : Type 0} (real : Real F) (num : Number N F) (into : Into N F) where
  -- `as_i64`
  abbrev int_in : Value N → Option ℕ
  int_in (number n) = num.i64_of n
  int_in _ = none

  abbrev float_in : Value N → Option F
  float_in v = as_f64 real num v

  abbrev or_float : Option F → F → F
  or_float none d = d
  or_float (some f) d = f

  abbrev or_int : Option ℕ → ℕ → ℕ
  or_int none d = d
  or_int (some n) d = n

  abbrev or_text : Option Bytes → Bytes → Bytes
  or_text none d = d
  or_text (some s) d = s

  abbrev is_true : Value N → Bool
  is_true (bool b) = b
  is_true _ = false

  put_float : Bytes → F → Fields N → Fields N
  put_float k f m = set_field m k (into.of_float f)

  put_int : Bytes → ℕ → Fields N → Fields N
  put_int k n m = set_field m k (number (into.of_int n))

  put_text : Bytes → Bytes → Fields N → Fields N
  put_text k s m = set_field m k (string s)

  put_some_text : Bytes → ℕ → Option Bytes → Fields N → Fields N
  put_some_text k n none m = m
  put_some_text k n (some s) m = set_field m k (string (take_chars n s))

  put_some_int : Bytes → Option ℕ → Fields N → Fields N
  put_some_int k none m = m
  put_some_int k (some n) m = set_field m k (number (into.of_int n))

  -- a text, where it is not empty
  abbrev not_empty : Option Bytes → Option Bytes
  not_empty none = none
  not_empty (some s) = if is_nil s then none else some s

  -- the object of a session with a project and a status
  unfoldable pub mini_object : Value N → Bytes → Bytes → Fields N
  unfolding put_text put_some_text put_some_int
  mini_object s project status =
      let tool =
        or_text (as_str (index s (b't' ∷ b'o' ∷ b'o' ∷ b'l' ∷ [])))
          (b'c' ∷ b'l' ∷ b'a' ∷ b'u' ∷ b'd' ∷ b'e' ∷ []) in
      let named = put_text (b't' ∷ b'o' ∷ b'o' ∷ b'l' ∷ []) tool (
        put_text (b's' ∷ b't' ∷ b'a' ∷ b't' ∷ b'u' ∷ b's' ∷ []) status
          (put_text (b'p' ∷ b'r' ∷ b'o' ∷ b'j' ∷ b'e' ∷ b'c' ∷ b't' ∷ []) project end)) in
      let identified = put_some_text (b'i' ∷ []) 12 (as_str (index s (b'i' ∷ b'd' ∷ []))) named in
      let aged =
        put_some_int (b'a' ∷ []) (int_in (index s (b'a' ∷ b'g' ∷ b'e' ∷ b'S' ∷ b'e' ∷ b'c' ∷ [])))
          identified in
      let titled =
        put_some_text (b's' ∷ []) 48
          (not_empty (as_str (index s (b's' ∷ b'u' ∷ b'm' ∷ b'm' ∷ b'a' ∷ b'r' ∷ b'y' ∷ []))))
          aged in
      if same_bytes status (b'w' ∷ b'a' ∷ b'i' ∷ b't' ∷ b'i' ∷ b'n' ∷ b'g' ∷ [])
      then put_some_int (b'w' ∷ b's' ∷ [])
          (int_in
            (index s (b'w' ∷ b'a' ∷ b'i' ∷ b't' ∷ b'i' ∷ b'n' ∷ b'g' ∷ b'S' ∷ b'e' ∷ b'c' ∷ [])))
          titled
      else titled

  -- the closure of the `filter_map`
  unfoldable pub mini_session : Value N → Option (Value N)
  mini_session s = elim (as_str (index s (b'p' ∷ b'r' ∷ b'o' ∷ b'j' ∷ b'e' ∷ b'c' ∷ b't' ∷ []))) [
    | none ↦ none
    | some project ↦ elim (as_str (index s (b's' ∷ b't' ∷ b'a' ∷ b't' ∷ b'u' ∷ b's' ∷ []))) [
      | none ↦ none
      | some status ↦ some (object (mini_object s project status))
    ]
  ]

  -- `filter_map` and `collect`
  unfoldable pub mini_sessions : Items N → List (Value N)
  mini_sessions nil = []
  mini_sessions (cons s xs) =
      let rest = mini_sessions xs in elim (mini_session s) [ none ↦ rest | some o ↦ o ∷ rest ]

  abbrev pub items_of : List (Value N) → Items N
  items_of [] = nil
  items_of (v ∷ vs) = cons v (items_of vs)

  -- `as_array().unwrap_or(&empty)`
  abbrev array_or_empty : Value N → Items N
  array_or_empty (array xs) = xs
  array_or_empty _ = nil

  round2 : F → F
  round2 u = real.over (real.round (real.times u (real.milli 100_000))) (real.milli 100_000)

  -- `round3`
  unfoldable pub round3 : F → F
  round3 x = real.over (real.round (real.times x (real.milli 1_000_000))) (real.milli 1_000_000)

  -- the models of a provider that have tokens
  unfoldable pub rows_of : Bytes → Items N → List (MiniRow F)
  rows_of pname nil = []
  rows_of pname (cons md xs) =
      let rest = rows_of pname xs in
      let tk =
        or_float (float_in (index md (b't' ∷ b'o' ∷ b'k' ∷ b'e' ∷ b'n' ∷ b's' ∷ [])))
          (real.milli 0) in
      if real.less_equal tk (real.milli 0)
      then rest
      else record {
        provider = pname;
        model = or_text (as_str (index md (b'm' ∷ b'o' ∷ b'd' ∷ b'e' ∷ b'l' ∷ []))) (b'?' ∷ []);
        tokens = tk;
        usd = float_in (index md (b'u' ∷ b's' ∷ b'd' ∷ []));
      }
        ∷ rest

  unfoldable pub provider_rows : Fields N → List (MiniRow F)
  provider_rows end = []
  provider_rows (field pname pv fs) =
      rows_of pname (array_or_empty (index pv (b'm' ∷ b'o' ∷ b'd' ∷ b'e' ∷ b'l' ∷ b's' ∷ [])))
      ++ provider_rows fs

  -- a step of the stable sort: past those with more tokens
  unfoldable pub place_row : MiniRow F → List (MiniRow F) → List (MiniRow F)
  place_row x [] = x ∷ []
  place_row x (y ∷ ys) =
      let rest = place_row x ys in if real.less_than x.tokens y.tokens then y ∷ rest else x ∷ y ∷ ys

  unfoldable pub sort_rows : List (MiniRow F) → List (MiniRow F)
  sort_rows [] = []
  sort_rows (x ∷ xs) = place_row x (sort_rows xs)

  put_some_usd : Bytes → Option F → Fields N → Fields N
  put_some_usd k none m = m
  put_some_usd k (some u) m = set_field m k (into.of_float (round2 u))

  -- the object of a row
  unfoldable pub row_object : MiniRow F → Value N
  unfolding put_text put_float put_some_usd round2
  row_object row = object (
      put_some_usd (b'u' ∷ []) row.usd (
        put_float (b't' ∷ []) row.tokens
          (put_text (b'n' ∷ []) (take_chars 16 row.model) (put_text (b'p' ∷ []) row.provider end))))

  abbrev row_items : List (MiniRow F) → Items N
  row_items [] = nil
  row_items (r ∷ rs) = cons (row_object r) (row_items rs)

  abbrev fields_or_end : Value N → Fields N
  fields_or_end (object fs) = fs
  fields_or_end _ = end

  -- the rows that are sent
  unfoldable pub top_rows : Value N → List (MiniRow F)
  top_rows m = take 6 (
      sort_rows (
        provider_rows (
          fields_or_end
            (index m (b'p' ∷ b'r' ∷ b'o' ∷ b'v' ∷ b'i' ∷ b'd' ∷ b'e' ∷ b'r' ∷ b's' ∷ [])))))

  put_tokens : Option F → Fields N → Fields N
  put_tokens none out = out
  put_tokens (some t) out = set_field out (b't' ∷ b't' ∷ []) (into.of_float t)

  unfoldable pub metrics_mini : Value N → Value N
  unfolding put_tokens put_some_usd put_some_int round2
  metrics_mini m =
      let totals = index m (b't' ∷ b'o' ∷ b't' ∷ b'a' ∷ b'l' ∷ b's' ∷ []) in
      let out = set_field end (b'm' ∷ []) (array (row_items (top_rows m))) in
      let priced =
        put_some_usd (b't' ∷ b'u' ∷ []) (float_in (index totals (b'u' ∷ b's' ∷ b'd' ∷ []))) (
          put_tokens (float_in (index totals (b't' ∷ b'o' ∷ b'k' ∷ b'e' ∷ b'n' ∷ b's' ∷ [])))
            out) in
      let counted =
        put_some_int (b't' ∷ b's' ∷ [])
          (int_in (index totals (b's' ∷ b'e' ∷ b's' ∷ b's' ∷ b'i' ∷ b'o' ∷ b'n' ∷ b's' ∷ [])))
          priced in
      object (
        if is_true (
          index m (b'u' ∷ b's' ∷ b'd' ∷ b'C' ∷ b'o' ∷ b'm' ∷ b'p' ∷ b'l' ∷ b'e' ∷ b't' ∷ b'e' ∷ []))
        then set_field counted (b'u' ∷ b'c' ∷ []) (bool true)
        else counted)

  put_if : Bool → Bytes → Value N → Fields N → Fields N
  put_if test k v m = if test then set_field m k v else m

  -- the fields of a provider that is ok
  unfoldable pub provider_fields : Value N → Fields N → Fields N
  unfolding put_if put_float put_int
  provider_fields pv m =
      let zero_f = real.milli 0 in
      let minus_one = real.minus zero_f (real.milli 1000) in
      let used =
        put_float (b'p' ∷ [])
          (round3 (or_float (float_in (index pv (b'p' ∷ b'c' ∷ b't' ∷ []))) zero_f)) m in
      let timed =
        put_int (b'r' ∷ [])
          (or_int (int_in (index pv (b'r' ∷ b'e' ∷ b's' ∷ b'e' ∷ b't' ∷ b'S' ∷ b'e' ∷ b'c' ∷ [])))
            0)
          used in
      let wp =
        or_float (float_in (index pv (b'w' ∷ b'e' ∷ b'e' ∷ b'k' ∷ b'P' ∷ b'c' ∷ b't' ∷ [])))
          minus_one in
      let weekly =
        put_if (real.less_equal zero_f wp) (b'w' ∷ b'p' ∷ []) (into.of_float (round3 wp)) timed in
      let wr =
        or_int
          (int_in (
            index pv (
              b'w' ∷ b'e' ∷ b'e' ∷ b'k' ∷ b'R' ∷ b'e' ∷ b's' ∷ b'e' ∷ b't' ∷ b'S' ∷ b'e' ∷ b'c'
              ∷ [])))
          18446744073709551615 in
      let reset = put_if (ltb wr two_63) (b'w' ∷ b'r' ∷ []) (number (into.of_int wr)) weekly in
      let warned =
        put_if
          (is_true (
            index pv (
              b'w' ∷ b'i' ∷ b'l' ∷ b'l' ∷ b'E' ∷ b'x' ∷ b'h' ∷ b'a' ∷ b'u' ∷ b's' ∷ b't' ∷ b'B'
              ∷ b'e' ∷ b'f' ∷ b'o' ∷ b'r' ∷ b'e' ∷ b'R' ∷ b'e' ∷ b's' ∷ b'e' ∷ b't' ∷ [])))
          (b'w' ∷ b'e' ∷ []) (bool true) reset in
      let b =
        or_float
          (float_in (index pv (b'b' ∷ b'u' ∷ b'r' ∷ b'n' ∷ b'P' ∷ b'e' ∷ b'r' ∷ b'H' ∷ b'r' ∷ [])))
          zero_f in
      let burning =
        put_if (real.less_than zero_f b) (b'b' ∷ []) (into.of_float (round3 b)) warned in
      let lo =
        or_float
          (float_in (
            index pv
              (b'l' ∷ b'e' ∷ b'f' ∷ b't' ∷ b'o' ∷ b'v' ∷ b'e' ∷ b'r' ∷ b'P' ∷ b'c' ∷ b't' ∷ [])))
          minus_one in
      let left =
        put_if (real.less_equal zero_f lo) (b'l' ∷ b'o' ∷ []) (into.of_float (round3 lo)) burning in
      elim (not_empty
        (as_str (index pv (b'e' ∷ b't' ∷ b'a' ∷ b'C' ∷ b'l' ∷ b'o' ∷ b'c' ∷ b'k' ∷ [])))) [
          | none ↦ left
          | some e ↦ set_field left (b'e' ∷ []) (string e)
        ]

  unfoldable pub provider_mini : Value N → Value N
  provider_mini pv =
      let ok = is_true (index pv (b'o' ∷ b'k' ∷ [])) in
      let m = set_field end (b'o' ∷ b'k' ∷ []) (bool ok) in
      object (if ok then provider_fields pv m else m)

  -- the sessions that are sent
  unfoldable pub top_sessions : Value N → List (Value N)
  top_sessions v = take 6 (
      mini_sessions
        (array_or_empty (index v (b's' ∷ b'e' ∷ b's' ∷ b's' ∷ b'i' ∷ b'o' ∷ b'n' ∷ b's' ∷ []))))

  unfoldable pub mini_value : Value N → Value N
  mini_value v =
      let usage = index v (b'u' ∷ b's' ∷ b'a' ∷ b'g' ∷ b'e' ∷ []) in
      object (
        field (b's' ∷ b'e' ∷ b's' ∷ b's' ∷ b'i' ∷ b'o' ∷ b'n' ∷ b's' ∷ [])
          (array (items_of (top_sessions v)))
          (field (b'c' ∷ b'l' ∷ b'a' ∷ b'u' ∷ b'd' ∷ b'e' ∷ [])
            (provider_mini (index usage (b'c' ∷ b'l' ∷ b'a' ∷ b'u' ∷ b'd' ∷ b'e' ∷ [])))
            (field (b'c' ∷ b'o' ∷ b'd' ∷ b'e' ∷ b'x' ∷ [])
              (provider_mini (index usage (b'c' ∷ b'o' ∷ b'd' ∷ b'e' ∷ b'x' ∷ [])))
              (field (b'm' ∷ b'e' ∷ b't' ∷ b'r' ∷ b'i' ∷ b'c' ∷ b's' ∷ [])
                (metrics_mini (index v (b'm' ∷ b'e' ∷ b't' ∷ b'r' ∷ b'i' ∷ b'c' ∷ b's' ∷ [])))
                end))))

module _ {N F : Type 0} (real : Real F) (num : Number N F) (into : Into N F)
    (from_str : Bytes → Option (Value N)) (to_string : Value N → Bytes) where
  unfoldable pub make_mini : Bytes → Bytes
  make_mini body = elim (from_str body) [
    | none ↦ compact_json body
    | some v ↦ to_string (mini_value real num into v)
  ]
