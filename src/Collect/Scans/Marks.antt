-- ===== src/Collect/Scans/Marks.antt =====
-- bridge/src/collector_codex.rs and bridge/src/collector.rs: which scans begin the wait of a session.
use cydrust.Prelude.{
  ◌≡◌, refl, sym, ◌↔◌, Bool, true, Option, none, some, List, [], ◌∷◌, ◌++◌, inl, inr, Bool-cases,
  Option-cases, subst,
}
use cydrust.Proto.Model.{Bytes}
use cydrust.Proto.Same.{same_bytes}
use cydrust.Proto.Reflexive.{same_bytes_refl}
use cydrust.Json.{Value}
use cydrust.Chars.{Text}
use cydrust.Bridge.Map.{find, IsMap}
use cydrust.Bridge.Model.{Float, Session}
use cydrust.Bridge.State.{Inner, Op, mark_op, apply_ops}
use cydrust.Bridge.State.Single.{live_on, live_through, apply_ops-live_through}
use cydrust.Bridge.State.Alarm.{Waits, live_through-Waits}
use cydrust.Collect.{report}
use cydrust.Collect.Claude.{Entry, claude_entry, claude_entries, scan_claude}
use cydrust.Collect.Codex.{
  RolloutFile, parse_rollout, rollout_calls, codex_file, codex_dir, codex_days, scan_codex,
}
use cydrust.Collect.Scans.{Readers, Found, scan_calls}
use cydrust.Collect.Scans.Waits.{
  AreScanCalls, scan-Quiet, codex_dir-AreScanCalls, codex_days-AreScanCalls, databases-AreScanCalls,
}

module _ {F : Type 0} (f : Float F) where
  live_through-append :
      (k : Bytes) (xs ys : List (Op F)) (o : Option (Session F))
      → live_through f k (xs ++ ys) o ≡ live_through f k ys (live_through f k xs o)
  live_through-append k [] ys o = refl
  live_through-append k (op ∷ xs) ys o = live_through-append k xs ys (live_on f k op o)

  -- the calls leave the session `k` waiting, whatever was before
  abbrev Wakes : Bytes → List (Op F) → Type 0
  Wakes k ops = (o : Option (Session F)) → Waits (live_through f k ops o)

  Wakes-later : (k : Bytes) (xs ys : List (Op F)) → Wakes k ys → Wakes k (xs ++ ys)
  Wakes-later k xs ys w o = rw (live_through-append k xs ys o) (w (live_through f k xs o))

  Wakes-still :
      (k : Bytes) (xs ys : List (Op F)) → AreScanCalls ys → Wakes k xs → Wakes k (xs ++ ys)
  Wakes-still k xs ys q w o =
      rw (live_through-append k xs ys o)
        (live_through-Waits f k ys (live_through f k xs o) (scan-Quiet k ys q) (w o))

  -- a report and the mark of its session
  Wakes-mark :
      (id tool project : Bytes) (last : F) (active : Bool) (clock ts : F)
      → Wakes id (report id tool project last active clock ∷ mark_op id ts ∷ [])
  Wakes-mark id tool project last active clock ts none = rw (same_bytes_refl id) refl
  Wakes-mark id tool project last active clock ts (some old) = rw (same_bytes_refl id) refl

module _ {N F : Type 0} (f : Float F) (decode : Bytes → Text) (from_str : Text → Option (Value N))
    (now : F) (e : RolloutFile F) where
  -- a rollout that can be dated and whose turn is finished
  abbrev pub IsFinished : Type 0
  IsFinished =
      (e.is_jsonl ≡ true)
      × ((m : F) × (e.mtime ≡ some m))
      × ((parse_rollout decode from_str e.stem e.raw).waiting ≡ true)

  abbrev pub session_id : Bytes
  session_id = (parse_rollout decode from_str e.stem e.raw).id

  codex_file-Wakes : IsFinished → Wakes f session_id (codex_file f decode from_str now e)
  unfolding codex_file rollout_calls
  codex_file-Wakes (j, (m, t), h) o =
      rw (j, t, h) (Wakes-mark f session_id _ _ (f.min m now) _ e.clock (f.min m now) o)

  codex_dir-Wakes :
      (xs ys : List (RolloutFile F))
      → IsFinished
      → Wakes f session_id (codex_dir f decode from_str now (xs ++ e ∷ ys))
  unfolding codex_dir
  codex_dir-Wakes [] ys h =
      Wakes-still f session_id (codex_file f decode from_str now e) _
        (codex_dir-AreScanCalls f decode from_str now ys) (codex_file-Wakes h)
  codex_dir-Wakes (x ∷ xs) ys h =
      Wakes-later f session_id (codex_file f decode from_str now x) _ (codex_dir-Wakes xs ys h)

  codex_days-Wakes :
      (before : List (Option (List (RolloutFile F)))) (xs ys : List (RolloutFile F))
      (after : List (Option (List (RolloutFile F))))
      → IsFinished
      → Wakes f session_id
          (codex_days f decode from_str now (before ++ some (xs ++ e ∷ ys) ∷ after))
  unfolding codex_days
  codex_days-Wakes [] xs ys after h =
      Wakes-still f session_id (codex_dir f decode from_str now (xs ++ e ∷ ys)) _
        (codex_days-AreScanCalls f decode from_str now after) (codex_dir-Wakes xs ys h)
  codex_days-Wakes (none ∷ before) xs ys after h = codex_days-Wakes before xs ys after h
  codex_days-Wakes (some dir ∷ before) xs ys after h =
      Wakes-later f session_id (codex_dir f decode from_str now dir) _
        (codex_days-Wakes before xs ys after h)

module _ {N F : Type 0} (f : Float F) (r : Readers N F) where
  -- Whatever the store held, and even where the session was acknowledged just before: after the four
  -- scans, the session of a rollout whose turn is finished is there and waits.
  pub scan_calls-finished :
      (w : Found F) (e : RolloutFile F) (before after : List (Option (List (RolloutFile F))))
      (xs ys : List (RolloutFile F)) (g : Inner F)
      → w.codex ≡ some (before ++ some (xs ++ e ∷ ys) ∷ after)
      → IsFinished f r.decode r.from_text w.codex_now e
      → IsMap g.sessions
      → Waits (
          find
            (apply_ops f (scan_calls f r w) g).sessions
            (session_id f r.decode r.from_text w.codex_now e))
  unfolding scan_calls scan_codex
  scan_calls-finished w e before after xs ys g c h m =
      let k = session_id f r.decode r.from_text w.codex_now e in
      let codex : Wakes f k (scan_codex f r.decode r.from_text w.codex_now w.codex) =
        subst (λ o. Wakes f k (scan_codex f r.decode r.from_text w.codex_now o)) (sym c)
          (codex_days-Wakes f r.decode r.from_text w.codex_now e before xs ys after h) in
      let wakes : Wakes f k (scan_calls f r w) =
        Wakes-later f k (scan_claude f r.decode r.from_text w.claude_now w.claude) _ (
          Wakes-still f k (scan_codex f r.decode r.from_text w.codex_now w.codex) _
            (databases-AreScanCalls f r w) codex) in
      let (found, _) = apply_ops-live_through f (scan_calls f r w) g k m in
      rw found (wakes (find g.sessions k))

module _ {N F : Type 0} (f : Float F) (decode : Bytes → Text)
    (from_str : Text → Option (Value N)) where
  report-Waits :
      (k id tool project : Bytes) (last : F) (active : Bool) (clock : F) (o : Option (Session F))
      → Waits (live_on f k (report id tool project last active clock) o) ↔ Waits o
  report-Waits k id tool project last active clock none = elim (Bool-cases (same_bytes id k)) [
    | inl e ↦ rw e (λ h. cc, λ h. elim h [ ])
    | inr e ↦ rw e (λ h. h, λ h. h)
  ]
  report-Waits k id tool project last active clock (some old) =
      elim (Bool-cases (same_bytes id k)) [
        | inl e ↦ rw e (λ h. h, λ h. h)
        | inr e ↦ rw e (λ h. h, λ h. h)
      ]

  claude_entry-Waits :
      (now : F) (k : Bytes) (e : Option (Entry F)) (o : Option (Session F))
      → Waits (live_through f k (claude_entry f decode from_str now e) o) ↔ Waits o
  unfolding claude_entry
  claude_entry-Waits now k none o = (λ h. h, λ h. h)
  claude_entry-Waits now k (some e) o = elim (Bool-cases e.is_jsonl) [
    | inl j ↦ elim (Option-cases e.stem) [
      | inl s ↦ rw (j, s) (λ h. h, λ h. h)
      | inr (id, s) ↦ rw (j, s) (report-Waits k id _ _ _ _ e.clock o)
    ]
    | inr j ↦ rw j (λ h. h, λ h. h)
  ]

  claude_entries-Waits :
      (now : F) (k : Bytes) (es : List (Option (Entry F))) (o : Option (Session F))
      → Waits (live_through f k (claude_entries f decode from_str now es) o) ↔ Waits o
  unfolding claude_entries
  claude_entries-Waits now k [] o = (λ h. h, λ h. h)
  claude_entries-Waits now k (e ∷ es) o =
      let first = claude_entry f decode from_str now e in
      let rest = claude_entries-Waits now k es (live_through f k first o) in
      let here = claude_entry-Waits now k e o in
      rw (live_through-append f k first (claude_entries f decode from_str now es) o)
        (λ h. here.0 (rest.0 h), λ h. rest.1 (here.1 h))

  scan_claude-live :
      (now : F) (k : Bytes) (walk : Option (List (Option (Entry F)))) (o : Option (Session F))
      → Waits (live_through f k (scan_claude f decode from_str now walk) o) ↔ Waits o
  unfolding scan_claude
  scan_claude-live now k none o = (λ h. h, λ h. h)
  scan_claude-live now k (some es) o = claude_entries-Waits now k es o

  -- The scan of Claude alone begins no wait and ends none: a session waits after it exactly when it
  -- waited before.
  pub scan_claude-Waits :
      (now : F) (walk : Option (List (Option (Entry F)))) (g : Inner F) (k : Bytes)
      → IsMap g.sessions
      → Waits (find (apply_ops f (scan_claude f decode from_str now walk) g).sessions k)
        ↔ Waits (find g.sessions k)
  scan_claude-Waits now walk g k m =
      let (found, _) = apply_ops-live_through f (scan_claude f decode from_str now walk) g k m in
      rw found (scan_claude-live now k walk (find g.sessions k))
