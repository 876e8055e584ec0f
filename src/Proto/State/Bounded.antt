-- ===== src/Proto/State/Bounded.antt =====
-- firmware/src/proto.rs: the state that is read from any text.
use cydrust.Prelude.{◌≤◌, ◌≡◌, ◌⊎◌, All, length}
use cydrust.Prelude.Run.{ok}
use cydrust.Proto.Model.{Bytes, DisplayState}
use cydrust.Proto.Scan.Capped.{IsCapped, parse_sessions-IsBounded}
use cydrust.Proto.Provider.{Float32}
use cydrust.Proto.Provider.Capped.{
  IsClockCapped, IsMetricsCapped, parse_provider-IsClockCapped, parse_metrics-IsMetricsCapped,
}
use cydrust.Proto.State.{claude_marker, codex_marker, state_of, parse_state}

module _ {F : Type 0} where
  -- what is kept of a payload, against the caps of the device
  pub record IsShown (ds : DisplayState F) : Type 0 where
    pub capped : All IsCapped ds.sessions
    pub few : length ds.sessions ≤ 8
    pub full : (ds.dropped_sessions ≡ 0) ⊎ (length ds.sessions ≡ 8)
    pub claude : IsClockCapped ds.claude
    pub codex : IsClockCapped ds.codex
    pub metrics : IsMetricsCapped ds.metrics

module _ {F : Type 0} (float : Float32 F) where
  -- Whatever the text, reading the state does not panic: it gives a state of at most eight sessions
  -- and six models, with every string within its cap in bytes, and
  -- it counts a session as dropped only where it has eight.
  pub parse_state-IsShown :
      (text : Bytes) → (ds : DisplayState F) × (parse_state float text ≡ ok ds) × IsShown ds
  unfolding parse_state
  parse_state-IsShown text =
      let (st, e, b) = parse_sessions-IsBounded float.parse float.to_i32 text in
      let (cl, f, c) = parse_provider-IsClockCapped float text claude_marker in
      let (cx, g, d) = parse_provider-IsClockCapped float text codex_marker in
      let (me, h, m) = parse_metrics-IsMetricsCapped float text in
      (
        state_of float st cl cx me,
        rw (e, f, g, h),
        record {
          capped = b.capped;
          few = b.few;
          full = b.full;
          claude = c;
          codex = d;
          metrics = m;
        },
      )
