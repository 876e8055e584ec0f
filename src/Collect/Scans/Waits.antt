-- ===== src/Collect/Scans/Waits.antt =====
-- bridge/src/collector.rs and its siblings: a scan never ends the wait of a session.
use cydrust.Prelude.{
  ◌≡◌, refl, Bool, true, false, ◌||◌, Option, none, some, List, [], ◌∷◌, ◌++◌, All, All-++, inl,
  inr, Bool-cases, Option-cases,
}
use cydrust.Proto.Model.{Bytes}
use cydrust.Json.{Value}
use cydrust.Strings.{is_nil}
use cydrust.Chars.{Text}
use cydrust.Bridge.Map.{find, IsMap}
use cydrust.Bridge.Model.{Float}
use cydrust.Bridge.State.{Inner, Op, upsert_op, mark_op, ack_op, remove_gone_op, apply_ops}
use cydrust.Bridge.State.Single.{apply_ops-live_through}
use cydrust.Bridge.State.Alarm.{
  Quiet, Waits, Reports, Coherent, live_through-Waits, apply_ops-Coherent,
}
use cydrust.Collect.{mark_if}
use cydrust.Collect.Claude.{Entry, claude_entry, claude_entries, scan_claude}
use cydrust.Collect.Codex.{
  RolloutFile, parse_rollout, rollout_calls, codex_file, codex_dir, codex_days, scan_codex,
}
use cydrust.Collect.Databases.Opencode.{
  SessionRecord, opencode_time, opencode_calls, opencode_session, opencode_known, opencode_row,
  opencode_rows, scan_opencode,
}
use cydrust.Collect.Databases.Hermes.{
  HermesRecord, hermes_time, hermes_calls, hermes_session, hermes_known, hermes_row, hermes_rows,
  scan_hermes,
}
use cydrust.Collect.Scans.{Readers, Found, scan_calls}

module _ {F : Type 0} where
  -- a call that a scan makes: the report of a session that is not said to wait, or a mark
  abbrev pub IsScanCall : Op F → Type 0
  IsScanCall (upsert_op s now) = (s.waiting ≡ false) × (s.waiting_since ≡ none)
  IsScanCall (mark_op id ts) = Unit
  IsScanCall _ = ⊥

  abbrev pub AreScanCalls : List (Op F) → Type 0
  AreScanCalls ops = All IsScanCall ops

  mark_if-AreScanCalls : (b : Bool) (id : Bytes) (ts : F) → AreScanCalls (mark_if b id ts)
  mark_if-AreScanCalls true id ts = (tt, tt)
  mark_if-AreScanCalls false id ts = tt

  pub scan-Quiet : (k : Bytes) (ops : List (Op F)) → AreScanCalls ops → All (Quiet k) ops
  scan-Quiet k [] h = tt
  scan-Quiet k (upsert_op s now ∷ ops) h = (tt, scan-Quiet k ops h.1)
  scan-Quiet k (mark_op id ts ∷ ops) h = (tt, scan-Quiet k ops h.1)
  scan-Quiet k (ack_op id ∷ ops) h = elim (h.0) [ ]
  scan-Quiet k (remove_gone_op now ttl ∷ ops) h = elim (h.0) [ ]

  scan-Reports : (ops : List (Op F)) → AreScanCalls ops → All Reports ops
  scan-Reports [] h = tt
  scan-Reports (upsert_op s now ∷ ops) h = (rw (h.0.0, h.0.1) refl, scan-Reports ops h.1)
  scan-Reports (mark_op id ts ∷ ops) h = (tt, scan-Reports ops h.1)
  scan-Reports (ack_op id ∷ ops) h = elim (h.0) [ ]
  scan-Reports (remove_gone_op now ttl ∷ ops) h = elim (h.0) [ ]

module _ {N F : Type 0} (f : Float F) (decode : Bytes → Text)
    (from_str : Text → Option (Value N)) where
  claude_entry-AreScanCalls :
      (now : F) (o : Option (Entry F)) → AreScanCalls (claude_entry f decode from_str now o)
  unfolding claude_entry
  claude_entry-AreScanCalls now none = tt
  claude_entry-AreScanCalls now (some e) = elim (Bool-cases e.is_jsonl) [
    | inl j ↦ elim (Option-cases e.stem) [
      | inl s ↦ rw (j, s) tt
      | inr (id, s) ↦ rw (j, s) ((refl, refl), tt)
    ]
    | inr j ↦ rw j tt
  ]

  claude_entries-AreScanCalls :
      (now : F) (es : List (Option (Entry F)))
      → AreScanCalls (claude_entries f decode from_str now es)
  unfolding claude_entries
  claude_entries-AreScanCalls now [] = tt
  claude_entries-AreScanCalls now (e ∷ es) =
      All-++ IsScanCall (claude_entry f decode from_str now e) _ (claude_entry-AreScanCalls now e)
        (claude_entries-AreScanCalls now es)

  scan_claude-AreScanCalls :
      (now : F) (o : Option (List (Option (Entry F))))
      → AreScanCalls (scan_claude f decode from_str now o)
  unfolding scan_claude
  scan_claude-AreScanCalls now none = tt
  scan_claude-AreScanCalls now (some es) = claude_entries-AreScanCalls now es

  codex_file-AreScanCalls :
      (now : F) (e : RolloutFile F) → AreScanCalls (codex_file f decode from_str now e)
  unfolding codex_file rollout_calls
  codex_file-AreScanCalls now e = elim (Bool-cases e.is_jsonl) [
    | inl j ↦ elim (Option-cases e.mtime) [
      | inl m ↦ rw (j, m) tt
      | inr (t, m) ↦
          let info = parse_rollout decode from_str e.stem e.raw in
          rw (j, m) ((refl, refl), mark_if-AreScanCalls info.waiting info.id (f.min t now))
    ]
    | inr j ↦ rw j tt
  ]

  pub codex_dir-AreScanCalls :
      (now : F) (es : List (RolloutFile F)) → AreScanCalls (codex_dir f decode from_str now es)
  unfolding codex_dir
  codex_dir-AreScanCalls now [] = tt
  codex_dir-AreScanCalls now (e ∷ es) =
      All-++ IsScanCall (codex_file f decode from_str now e) _ (codex_file-AreScanCalls now e)
        (codex_dir-AreScanCalls now es)

  pub codex_days-AreScanCalls :
      (now : F) (days : List (Option (List (RolloutFile F))))
      → AreScanCalls (codex_days f decode from_str now days)
  unfolding codex_days
  codex_days-AreScanCalls now [] = tt
  codex_days-AreScanCalls now (none ∷ days) = codex_days-AreScanCalls now days
  codex_days-AreScanCalls now (some dir ∷ days) =
      All-++ IsScanCall (codex_dir f decode from_str now dir) _ (codex_dir-AreScanCalls now dir)
        (codex_days-AreScanCalls now days)

  scan_codex-AreScanCalls :
      (now : F) (o : Option (List (Option (List (RolloutFile F)))))
      → AreScanCalls (scan_codex f decode from_str now o)
  unfolding scan_codex
  scan_codex-AreScanCalls now none = tt
  scan_codex-AreScanCalls now (some days) = codex_days-AreScanCalls now days

module _ {N F : Type 0} (f : Float F) (thousandth : F → F)
    (from_str : Bytes → Option (Value N)) where
  opencode_session-AreScanCalls :
      (now : F) (row : SessionRecord F) (sid : Bytes)
      → AreScanCalls (opencode_session f thousandth from_str now row sid)
  unfolding opencode_session opencode_calls
  opencode_session-AreScanCalls now row sid = elim (Bool-cases (is_nil sid || row.is_archived)) [
    | inl s ↦ rw s tt
    | inr s ↦ elim (Option-cases (opencode_time f thousandth row)) [
      | inl t ↦ rw (s, t) tt
      | inr (v, t) ↦ rw (s, t) ((refl, refl), mark_if-AreScanCalls _ sid (f.min v now))
    ]
  ]

  opencode_known-AreScanCalls :
      (now : F) (row : SessionRecord F) (id : Option Bytes)
      → AreScanCalls (opencode_known f thousandth from_str now row id)
  opencode_known-AreScanCalls now row none = tt
  opencode_known-AreScanCalls now row (some sid) = opencode_session-AreScanCalls now row sid

  opencode_rows-AreScanCalls :
      (now : F) (rows : List (SessionRecord F))
      → AreScanCalls (opencode_rows f thousandth from_str now rows)
  unfolding opencode_rows opencode_row
  opencode_rows-AreScanCalls now [] = tt
  opencode_rows-AreScanCalls now (row ∷ rows) =
      All-++ IsScanCall (opencode_row f thousandth from_str now row) _
        (opencode_known-AreScanCalls now row row.id) (opencode_rows-AreScanCalls now rows)

  scan_opencode-AreScanCalls :
      (now : F) (o : Option (List (SessionRecord F)))
      → AreScanCalls (scan_opencode f thousandth from_str now o)
  unfolding scan_opencode
  scan_opencode-AreScanCalls now none = tt
  scan_opencode-AreScanCalls now (some rows) = opencode_rows-AreScanCalls now rows

module _ {F : Type 0} (f : Float F) (to_lowercase : Bytes → Bytes) where
  hermes_session-AreScanCalls :
      (now : F) (row : HermesRecord F) (sid : Bytes)
      → AreScanCalls (hermes_session f to_lowercase now row sid)
  unfolding hermes_session hermes_calls
  hermes_session-AreScanCalls now row sid = elim (Bool-cases (is_nil sid || row.is_archived)) [
    | inl s ↦ rw s tt
    | inr s ↦ elim (Option-cases (hermes_time f row)) [
      | inl t ↦ rw (s, t) tt
      | inr (v, t) ↦ rw (s, t) ((refl, refl), mark_if-AreScanCalls _ sid _)
    ]
  ]

  hermes_known-AreScanCalls :
      (now : F) (row : HermesRecord F) (id : Option Bytes)
      → AreScanCalls (hermes_known f to_lowercase now row id)
  hermes_known-AreScanCalls now row none = tt
  hermes_known-AreScanCalls now row (some sid) = hermes_session-AreScanCalls now row sid

  hermes_rows-AreScanCalls :
      (now : F) (rows : List (HermesRecord F)) → AreScanCalls (hermes_rows f to_lowercase now rows)
  unfolding hermes_rows hermes_row
  hermes_rows-AreScanCalls now [] = tt
  hermes_rows-AreScanCalls now (row ∷ rows) =
      All-++ IsScanCall (hermes_row f to_lowercase now row) _
        (hermes_known-AreScanCalls now row row.id) (hermes_rows-AreScanCalls now rows)

  scan_hermes-AreScanCalls :
      (now : F) (o : Option (List (HermesRecord F)))
      → AreScanCalls (scan_hermes f to_lowercase now o)
  unfolding scan_hermes
  scan_hermes-AreScanCalls now none = tt
  scan_hermes-AreScanCalls now (some rows) = hermes_rows-AreScanCalls now rows

module _ {N F : Type 0} (f : Float F) (r : Readers N F) where
  pub databases-AreScanCalls :
      (w : Found F)
      → AreScanCalls (
          scan_opencode f r.thousandth r.from_bytes w.opencode_now w.opencode
          ++ scan_hermes f r.to_lowercase w.hermes_now w.hermes)
  databases-AreScanCalls w =
      All-++ IsScanCall (scan_opencode f r.thousandth r.from_bytes w.opencode_now w.opencode) _
        (scan_opencode-AreScanCalls f r.thousandth r.from_bytes w.opencode_now w.opencode)
        (scan_hermes-AreScanCalls f r.to_lowercase w.hermes_now w.hermes)

  scan_calls-AreScanCalls : (w : Found F) → AreScanCalls (scan_calls f r w)
  unfolding scan_calls
  scan_calls-AreScanCalls w =
      All-++ IsScanCall (scan_claude f r.decode r.from_text w.claude_now w.claude) _
        (scan_claude-AreScanCalls f r.decode r.from_text w.claude_now w.claude)
        (All-++ IsScanCall (scan_codex f r.decode r.from_text w.codex_now w.codex) _
          (scan_codex-AreScanCalls f r.decode r.from_text w.codex_now w.codex)
          (databases-AreScanCalls w))

  -- Whatever the four scans find, they leave a session that waits waiting, and a store in which each
  -- session waits exactly when it knows since when stays so.
  pub scan_calls-Waits :
      (w : Found F) (g : Inner F) (k : Bytes)
      → IsMap g.sessions
      → (Waits (find g.sessions k) → Waits (find (apply_ops f (scan_calls f r w) g).sessions k))
        × (Coherent (find g.sessions k)
            → Coherent (find (apply_ops f (scan_calls f r w) g).sessions k))
  scan_calls-Waits w g k m =
      let ops = scan_calls f r w in
      let h = scan_calls-AreScanCalls w in
      let (e, _) = apply_ops-live_through f ops g k m in
      (
        λ waits. rw e (live_through-Waits f k ops (find g.sessions k) (scan-Quiet k ops h) waits),
        λ c. apply_ops-Coherent f k ops g m c (scan-Reports ops h),
      )
