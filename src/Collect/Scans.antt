-- ===== src/Collect/Scans.antt =====
-- bridge/src/main.rs: the loop that scans, as the calls of one round on the store; and what the calls
-- of the scans have in common.
pub mod Waits
pub mod Marks
use cydrust.Prelude.{
  ℕ, ◌≡◌, refl, Bool, true, false, Option, none, some, List, [], ◌∷◌, ◌++◌, All, if◌then◌else◌,
}
use cydrust.Proto.Model.{Bytes}
use cydrust.Json.{Value}
use cydrust.Chars.{Text}
use cydrust.Bridge.Model.{Float}
use cydrust.Bridge.State.{Op, upsert_op, mark_op, remove_gone_op}
use cydrust.Collect.Claude.{Entry, scan_claude}
use cydrust.Collect.Codex.{RolloutFile, scan_codex}
use cydrust.Collect.Databases.Opencode.{SessionRecord, scan_opencode}
use cydrust.Collect.Databases.Hermes.{HermesRecord, scan_hermes}

-- the crates and the conversions that the scans call
pub record Readers (N F : Type 0) : Type 0 where
  pub decode : Bytes → Text
  pub from_text : Text → Option (Value N)
  pub from_bytes : Bytes → Option (Value N)
  pub thousandth : F → F
  pub to_lowercase : Bytes → Bytes

-- what a round finds: a time and what lies there for each scan, and the reaper's time
pub record Found (F : Type 0) : Type 0 where
  pub claude_now : F
  pub claude : Option (List (Option (Entry F)))
  pub codex_now : F
  pub codex : Option (List (Option (List (RolloutFile F))))
  pub opencode_now : F
  pub opencode : Option (List (SessionRecord F))
  pub hermes_now : F
  pub hermes : Option (List (HermesRecord F))
  pub reaper_now : F

module _ {N F : Type 0} (f : Float F) (r : Readers N F) where
  abbrev pub gone_ttl : F
  gone_ttl = f.milli 14_400_000

  -- the calls of the four scans
  unfoldable pub scan_calls : Found F → List (Op F)
  scan_calls w =
      scan_claude f r.decode r.from_text w.claude_now w.claude
      ++ (scan_codex f r.decode r.from_text w.codex_now w.codex
          ++ (scan_opencode f r.thousandth r.from_bytes w.opencode_now w.opencode
              ++ scan_hermes f r.to_lowercase w.hermes_now w.hermes))

  -- one round of the loop
  unfoldable pub scan_round : Found F → List (Op F)
  scan_round w = scan_calls w ++ remove_gone_op w.reaper_now gone_ttl ∷ []
