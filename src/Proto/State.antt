-- ===== src/Proto/State.antt =====
-- firmware/src/proto.rs: `parse_state`, from its three parts. It has no case that answers `None`.
pub mod Bounded
mod Examples
use cydrust.Prelude.{ℕ, Bool, true, false, List, [], ◌∷◌}
use cydrust.Prelude.Run.{Run, ok, ◌>>=◌}
use cydrust.Proto.Model.{Bytes, Usage, Metrics, DisplayState}
use cydrust.Proto.Scan.{Scan, parse_sessions}
use cydrust.Proto.Provider.{Float32, parse_provider, parse_metrics}

abbrev pub claude_marker : Bytes
claude_marker = b'"' ∷ b'c' ∷ b'l' ∷ b'a' ∷ b'u' ∷ b'd' ∷ b'e' ∷ b'"' ∷ b':' ∷ b'{' ∷ []

abbrev pub codex_marker : Bytes
codex_marker = b'"' ∷ b'c' ∷ b'o' ∷ b'd' ∷ b'e' ∷ b'x' ∷ b'"' ∷ b':' ∷ b'{' ∷ []

module _ {F : Type 0} (float : Float32 F) where
  -- the state that the parts make
  abbrev pub state_of : Scan → Usage F → Usage F → Metrics F → DisplayState F
  state_of st claude codex metrics = record {
    sessions = st.rows;
    claude = claude;
    codex = codex;
    metrics = metrics;
    offline = false;
    dropped_sessions = st.dropped;
  }

  unfoldable pub parse_state : Bytes → Run (DisplayState F)
  parse_state text = parse_sessions float.parse float.to_i32 text >>= λ st.
      parse_provider float text claude_marker >>= λ claude.
      parse_provider float text codex_marker >>= λ codex.
      parse_metrics float text >>= λ metrics. ok (state_of st claude codex metrics)
