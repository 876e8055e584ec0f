-- ===== src/Bridge/Hub/Examples.antt =====
-- bridge/src/hub.rs: single requests.
use cydrust.Prelude.{
  ℕ, ◌+◌, ◌-◌, ◌*◌, ◌/◌, length, ltb, leb, ◌≡◌, refl, ◌≢◌, ◌↔◌, subst, true, false, none, some,
  List, [], ◌∷◌,
}
use cydrust.Proto.Model.{Bytes}
use cydrust.Proto.Same.{same_list, same_bytes}
use cydrust.Proto.Reflexive.{same_bytes_refl}
use cydrust.Bridge.Map.{find, same_bytes→≡}
use cydrust.Bridge.State.Examples.{millis, one, two, holding}
use cydrust.Bridge.Hub.{App, HookBody, get_state, post_ack, stop_str, Call, serve_all}
use cydrust.Bridge.Hub.Guard.{strangers_change_nothing}
use cydrust.Bridge.Hub.Kept.{IsApp}
use cydrust.Bridge.Rows.{derive_rows}
use cydrust.Bridge.Federation.{rows}
use cydrust.Bridge.Hub.Answer.{Shared, count_statuses, state_handler}
use cydrust.Bridge.Hub.Answer.Told.{
  is_working, is_waiting, is_idle, rows_with, state_handler-counts,
}
use cydrust.Bridge.Hub.Exposition.{Show}
use cydrust.Bridge.Hub.Exposition.Samples.{PrintsLines}
use cydrust.Metrics.Number.{Real}
use cydrust.Usage.{miss}
use cydrust.Usage.Capacity.{capacity}

same_bytes_iff : (a b : Bytes) → (same_bytes a b ≡ true) ↔ (a ≡ b)
same_bytes_iff a b =
    (same_bytes→≡ a b, λ e. subst (λ x. same_bytes a x ≡ true) e (same_bytes_refl a))

abbrev hub : App ℕ
hub = record { store = holding; token = two; remote = [] }

hub-IsApp : IsApp hub
unfolding find
hub-IsApp = record { store = (refl, tt); remote = tt }

abbrev stop : HookBody
stop = record { id = none; event = none; session_id = some one; hook_event_name = some stop_str }

-- the acknowledgement has no token
abbrev calls : List (Call ℕ)
calls =
    record { now = 20; header = none; req = post_ack one }
    ∷ record { now = 21; header = none; req = get_state }
    ∷ []

no_header : none ≢ some two
no_header h = cc

strangers_change_nothing_example : serve_all millis same_bytes (λ s. s) calls hub ≡ hub
strangers_change_nothing_example =
    strangers_change_nothing millis same_bytes (λ s. s) same_bytes_iff calls hub
      (no_header, (no_header, tt))

one_is_other : same_bytes one two ≡ false
unfolding same_list
one_is_other = refl

one_is_some : same_bytes one [] ≡ false
unfolding same_list
one_is_some = refl

-- f64 as thousandths
abbrev thousandths : Real ℕ
thousandths = record {
  milli = λ n. n;
  plus = ◌+◌;
  minus = ◌-◌;
  times = λ a b. a * b / 1000;
  over = λ a b. a * 1000 / b;
  round = λ n. n / 1000 * 1000;
  less_than = ltb;
  less_equal = leb;
  sum = λ xs. 0;
  of_i64 = λ n. n * 1000;
  to_i64 = λ n. n / 1000;
}

-- one provider with one model, and a share that is known
abbrev shared : Shared ℕ
shared = record {
  claude_usage = record miss { ok = true; pct = some 420 };
  codex_usage = miss;
  metrics = record {
    providers =
        (
          b'c' ∷ [],
          record {
            model = none;
            tokens_in = 3;
            tokens_out = 4;
            tokens = 7;
            usd = some 20;
            sessions = 1;
            models = record { model = b'm' ∷ []; tokens = 7; usd = some 20 } ∷ [];
          },
        )
        ∷ [];
    totals = record { tokens = 7; usd = some 20; sessions = 1; providers_active = 1 };
    usd_complete = true;
  };
  titles = [];
}

-- every number is printed as the digit 7
abbrev seven : {A : Type 0} → A → Bytes
seven a = b'7' ∷ []

abbrev digits : Show ℕ
digits = record { count = seven; integer = seven; float = seven; whole = seven }

digits-PrintsLines : PrintsLines digits
digits-PrintsLines = record {
  count = λ n. refl;
  integer = λ n. refl;
  float = λ v. refl;
  whole = λ v. refl;
}

state_handler-counts_example :
    ((count_statuses (derive_rows millis [] 7000 holding)).working
      ≡ rows_with is_working (derive_rows millis [] 7000 holding))
    × ((count_statuses (derive_rows millis [] 7000 holding)).waiting
        ≡ rows_with is_waiting (derive_rows millis [] 7000 holding))
    × ((count_statuses (derive_rows millis [] 7000 holding)).idle
        ≡ rows_with is_idle (derive_rows millis [] 7000 holding))
    × ((state_handler millis thousandths seven seven (λ s. s) 7000 shared hub).0.capacity
        ≡ capacity thousandths seven seven shared.claude_usage shared.codex_usage
            (rows_with is_idle (derive_rows millis [] 7000 holding)))
    × (length (state_handler millis thousandths seven seven (λ s. s) 7000 shared hub).0.sessions
        ≡ length (derive_rows millis [] 7000 holding)
          + length (rows millis (λ s. s) 7000 30000 hub.remote).0)
state_handler-counts_example =
    state_handler-counts millis thousandths seven seven (λ s. s) 7000 shared hub
