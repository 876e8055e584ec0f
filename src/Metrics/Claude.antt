-- ===== src/Metrics/Claude.antt =====
-- bridge/src/metrics.rs: `claude_tokens_by_model` and `claude_metrics`. `from_line` is `trim` and
-- serde_json's parser, and gives nothing for an empty line. The files of the walk are a list.
pub mod Split
use cydrust.Prelude.{
  ℕ, Bool, true, false, ◌&&◌, ◌||◌, not, Option, none, some, List, [], ◌∷◌, if◌then◌else◌,
}
use cydrust.Proto.Model.{Bytes}
use cydrust.Json.{Value, get, get_object, get_str}
use cydrust.Strings.{split}
use cydrust.Tree.{Tree, entry}
use cydrust.Bridge.Map.{Map}
use cydrust.Metrics.Number.{Real, Number, add, is_positive, as_i64, count_of}
use cydrust.Metrics.Price.{price_model}
use cydrust.Metrics.Build.{
  Bucket, Builder, ProviderMetric, default_bucket, default_builder, unknown, accum, finalize,
}

-- an entry of the directory tree
pub record File (F : Type 0) : Type 0 where
  pub is_jsonl : Bool
  pub mtime : Option F
  pub text : Option Bytes

abbrev pub or_unknown : Option Bytes → Bytes
or_unknown none = unknown
or_unknown (some m) = m

module _ {F : Type 0} (real : Real F) where
  -- a session file that was written since midnight
  unfoldable pub is_today : F → File F → Bool
  is_today midnight f =
      f.is_jsonl && elim (f.mtime) [ none ↦ false | some m ↦ not (real.less_than m midnight) ]

  unfoldable pub add_session : Builder F → Builder F
  add_session b = record b { sessions = add b.sessions 1 }

module _ {F : Type 0} where
  -- what a line adds to its model's bucket
  unfoldable pub add_usage : ℕ → ℕ → ℕ → Bucket F → Bucket F
  add_usage ti to cache b = record b {
    tin = add b.tin ti;
    tout = add b.tout to;
    cache = add b.cache cache;
    total = add b.total (add (add ti to) cache);
  }

module _ {N F : Type 0} (real : Real F) (num : Number N F)
    (from_line : Bytes → Option (Value N)) where
  -- the `usage` of a message, where it is an object
  add_message_usage : Value N → Option (Value N) → Tree (Bucket F) → Tree (Bucket F)
  add_message_usage msg none by_model = by_model
  add_message_usage msg (some usage) by_model =
      let ti = count_of real num (
        get usage (
          b'i' ∷ b'n' ∷ b'p' ∷ b'u' ∷ b't' ∷ b'_' ∷ b't' ∷ b'o' ∷ b'k' ∷ b'e' ∷ b'n' ∷ b's'
          ∷ [])) in
      let to = count_of real num (
        get usage (
          b'o' ∷ b'u' ∷ b't' ∷ b'p' ∷ b'u' ∷ b't' ∷ b'_' ∷ b't' ∷ b'o' ∷ b'k' ∷ b'e' ∷ b'n' ∷ b's'
          ∷ [])) in
      let cache =
        add
          (count_of real num (
            get usage (
              b'c' ∷ b'a' ∷ b'c' ∷ b'h' ∷ b'e' ∷ b'_' ∷ b'c' ∷ b'r' ∷ b'e' ∷ b'a' ∷ b't' ∷ b'i'
              ∷ b'o' ∷ b'n' ∷ b'_' ∷ b'i' ∷ b'n' ∷ b'p' ∷ b'u' ∷ b't' ∷ b'_' ∷ b't' ∷ b'o' ∷ b'k'
              ∷ b'e' ∷ b'n' ∷ b's' ∷ [])))
          (count_of real num (
            get usage (
              b'c' ∷ b'a' ∷ b'c' ∷ b'h' ∷ b'e' ∷ b'_' ∷ b'r' ∷ b'e' ∷ b'a' ∷ b'd' ∷ b'_' ∷ b'i'
              ∷ b'n' ∷ b'p' ∷ b'u' ∷ b't' ∷ b'_' ∷ b't' ∷ b'o' ∷ b'k' ∷ b'e' ∷ b'n' ∷ b's'
              ∷ []))) in
      entry (or_unknown (get_str msg (b'm' ∷ b'o' ∷ b'd' ∷ b'e' ∷ b'l' ∷ []))) default_bucket
        (add_usage ti to cache) by_model

  -- the `message` of a line, where it is an object
  add_message : Option (Value N) → Tree (Bucket F) → Tree (Bucket F)
  add_message none by_model = by_model
  add_message (some msg) by_model =
      add_message_usage msg (get_object msg (b'u' ∷ b's' ∷ b'a' ∷ b'g' ∷ b'e' ∷ [])) by_model

  add_parsed : Option (Value N) → Tree (Bucket F) → Tree (Bucket F)
  add_parsed none by_model = by_model
  add_parsed (some o) by_model =
      add_message (get_object o (b'm' ∷ b'e' ∷ b's' ∷ b's' ∷ b'a' ∷ b'g' ∷ b'e' ∷ [])) by_model

  -- the loop over the lines
  unfoldable pub claude_lines : List Bytes → Tree (Bucket F) → Tree (Bucket F)
  unfolding add_message_usage add_message add_parsed
  claude_lines [] by_model = by_model
  claude_lines (line ∷ lines) by_model = claude_lines lines (add_parsed (from_line line) by_model)

  unfoldable pub claude_tokens_by_model : Option Bytes → Tree (Bucket F)
  claude_tokens_by_model none = []
  claude_tokens_by_model (some text) = claude_lines (split b'\n' text) []

module _ {F : Type 0} (real : Real F) (pricing : Map (F × F)) where
  -- one model of a file, where its total is positive
  unfoldable pub claude_model : Bytes → Bucket F → Builder F → Builder F
  claude_model raw b builder =
      accum real raw b.tin (add b.tout b.cache) b.total
        (price_model real raw pricing b.tin b.tout b.cache) builder

  -- the loop over the models of a file, which counts one session
  unfoldable pub claude_models : Tree (Bucket F) → Bool → Builder F → Builder F
  claude_models [] counted builder = builder
  claude_models ((raw, b) ∷ t) counted builder =
      let next = claude_model raw b builder in
      claude_models t (counted || is_positive b.total)
        (if is_positive b.total then (if counted then next else add_session real next) else builder)

module _ {N F : Type 0} (real : Real F) (num : Number N F)
    (from_line : Bytes → Option (Value N)) where
  -- the loop over the files
  unfoldable pub claude_files : F → Map (F × F) → List (File F) → Builder F → Builder F
  claude_files midnight pricing [] builder = builder
  claude_files midnight pricing (f ∷ fs) builder = claude_files midnight pricing fs (
      if is_today real midnight f
      then claude_models real pricing (claude_tokens_by_model real num from_line f.text) false
          builder
      else builder)

  -- `files` is what lies under the root, where there is one
  unfoldable pub claude_metrics : F → Map (F × F) → Option (List (File F)) → ProviderMetric F
  claude_metrics midnight pricing none = finalize real default_builder
  claude_metrics midnight pricing (some files) =
      finalize real (claude_files midnight pricing files default_builder)
