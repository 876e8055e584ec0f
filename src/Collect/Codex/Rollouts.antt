-- ===== src/Collect/Codex/Rollouts.antt =====
-- bridge/src/collector_codex.rs: what the lines of a rollout decide.
use cydrust.Prelude.{
  ◌≡◌, refl, ap, ◌∙◌, true, false, ◌&&◌, Option, none, some, List, [], ◌∷◌, inl, inr, Bool-cases,
  Option-cases,
}
use cydrust.Proto.Model.{Bytes}
use cydrust.Proto.Same.{same_bytes, same_list}
use cydrust.Json.{Value, get, get_str}
use cydrust.Chars.{Text, lines}
use cydrust.Bridge.Map.{same_bytes→≡}
use cydrust.Collect.Claude.{parsed}
use cydrust.Collect.Codex.{
  done, agent, Reading, turn_marker, msg_kind, or_else, and_then, on_event, on_meta, event_type,
  on_entry, is_meta, read_lines, or_empty, verdict, first_reading, parse_rollout, set_sid,
  set_project, full,
}

-- the last of the values that a function has on a list
abbrev pub last_of {ℓ} : {A : Type ℓ} → (A → Option Bytes) → List A → Option Bytes
last_of g [] = none
last_of g (x ∷ xs) = or_else (last_of g xs) (g x)

or_else_assoc : (a b c : Option Bytes) → or_else (or_else a b) c ≡ or_else a (or_else b c)
or_else_assoc none b c = refl
or_else_assoc (some s) b c = refl

or_else-none : (a : Option Bytes) → or_else a none ≡ a
or_else-none none = refl
or_else-none (some s) = refl

-- what the verdict is made from
abbrev turn : Reading → Option Bytes × Option Bytes
turn r = (r.last_turn_state, r.last_msg_kind)

set_sid-turn : (o : Option Bytes) (r : Reading) → turn (set_sid o r) ≡ turn r
set_sid-turn none r = refl
set_sid-turn (some s) r = refl

set_project-turn : (o : Option Bytes) (r : Reading) → turn (set_project o r) ≡ turn r
set_project-turn none r = refl
set_project-turn (some s) r = refl

on_event-turn :
    (t : Option Bytes) (r : Reading)
    → turn (on_event t r) ≡ (
      or_else (and_then t turn_marker) r.last_turn_state,
      or_else (and_then t msg_kind) r.last_msg_kind,
    )
unfolding on_event
on_event-turn t r = refl

module _ {N : Type 0} where
  -- the marker of an entry that is an event
  abbrev pub marker_in : Option (Value N) → Option Bytes
  marker_in none = none
  marker_in (some obj) = and_then (event_type obj) turn_marker

  -- who speaks in an entry that is an event
  abbrev pub kind_in : Option (Value N) → Option Bytes
  kind_in none = none
  kind_in (some obj) = and_then (event_type obj) msg_kind

  meta-event_type :
      (obj : Value N)
      → is_meta (get_str obj (b't' ∷ b'y' ∷ b'p' ∷ b'e' ∷ [])) ≡ true
      → event_type obj ≡ none
  unfolding event_type same_list
  meta-event_type obj h = elim (Option-cases (get_str obj (b't' ∷ b'y' ∷ b'p' ∷ b'e' ∷ []))) [
    | inl e ↦ rw (e, event_type)
    | inr (t, e) ↦
        let named : same_bytes t (
              b's' ∷ b'e' ∷ b's' ∷ b's' ∷ b'i' ∷ b'o' ∷ b'n' ∷ b'_' ∷ b'm' ∷ b'e' ∷ b't' ∷ b'a'
              ∷ [])
            ≡ true =
          rw e at h in
        let other : same_bytes t (b'e' ∷ b'v' ∷ b'e' ∷ b'n' ∷ b't' ∷ b'_' ∷ b'm' ∷ b's' ∷ b'g' ∷ [])
            ≡ false =
          rw (same_bytes→≡ t _ named) refl in
        rw (e, event_type) (rw other)
  ]

  on_meta-turn : (p : Option (Value N)) (r : Reading) → turn (on_meta p r) ≡ turn r
  unfolding on_meta
  on_meta-turn none r = refl
  on_meta-turn (some p) r =
      set_project-turn (full (get_str p (b'c' ∷ b'w' ∷ b'd' ∷ [])))
        (set_sid (full (get_str p (b'i' ∷ b'd' ∷ []))) r)
      ∙ set_sid-turn (full (get_str p (b'i' ∷ b'd' ∷ []))) r

  on_entry-turn :
      (o : Option (Value N)) (r : Reading)
      → turn (on_entry o r)
        ≡ (or_else (marker_in o) r.last_turn_state, or_else (kind_in o) r.last_msg_kind)
  unfolding on_entry
  on_entry-turn none r = refl
  on_entry-turn (some obj) r =
      elim (Bool-cases (is_meta (get_str obj (b't' ∷ b'y' ∷ b'p' ∷ b'e' ∷ [])))) [
        | inl e ↦
            rw (e, on_entry)
              (rw (meta-event_type obj e)
                (on_meta-turn (get obj (b'p' ∷ b'a' ∷ b'y' ∷ b'l' ∷ b'o' ∷ b'a' ∷ b'd' ∷ [])) r))
        | inr e ↦ rw (e, on_entry) (on_event-turn (event_type obj) r)
      ]

module _ {N : Type 0} (from_str : Text → Option (Value N)) where
  abbrev pub marker_of : Text → Option Bytes
  marker_of line = marker_in (parsed from_str line)

  abbrev pub kind_of : Text → Option Bytes
  kind_of line = kind_in (parsed from_str line)

  read_lines-turn :
      (ls : List Text) (r : Reading)
      → turn (read_lines from_str ls r) ≡ (
        or_else (last_of marker_of ls) r.last_turn_state,
        or_else (last_of kind_of ls) r.last_msg_kind,
      )
  unfolding read_lines
  read_lines-turn [] r = refl
  read_lines-turn (l ∷ ls) r =
      let next = on_entry (parsed from_str l) r in
      let e = on_entry-turn (parsed from_str l) r in
      rw
        (
          read_lines-turn ls next,
          or_else_assoc (last_of marker_of ls) (marker_of l) r.last_turn_state,
          or_else_assoc (last_of kind_of ls) (kind_of l) r.last_msg_kind,
        )
        (ap (λ t. (or_else (last_of marker_of ls) t.0, or_else (last_of kind_of ls) t.1)) e)

-- Never both.
verdict_apart :
    (state kind : Option Bytes) → ((verdict state kind).0 && (verdict state kind).1) ≡ false
unfolding verdict same_list
verdict_apart none none = refl
verdict_apart none (some k) = elim (Bool-cases (same_bytes k agent)) [
  | inl e ↦ rw (same_bytes→≡ k agent e) refl
  | inr e ↦ rw (e, verdict)
]
verdict_apart (some s) kind = elim (Bool-cases (same_bytes s done)) [
  | inl e ↦ rw (same_bytes→≡ s done e) refl
  | inr e ↦ rw (e, verdict)
]

module _ {N : Type 0} (decode : Bytes → Text) (from_str : Text → Option (Value N)) where
  -- Whether a rollout waits and whether it is active is decided by the last of its markers of a
  -- turn, and only where it has none by who spoke last; it is never both.
  pub parse_rollout-turn :
      (stem raw : Option Bytes)
      → let r = parse_rollout decode from_str stem raw in
        let ls = lines (decode (or_empty raw)) in
        ((r.waiting, r.active)
          ≡ verdict (last_of (marker_of from_str) ls) (last_of (kind_of from_str) ls))
        × ((r.waiting && r.active) ≡ false)
  unfolding parse_rollout
  parse_rollout-turn stem raw =
      let ls = lines (decode (or_empty raw)) in
      let r = read_lines from_str ls (first_reading stem) in
      let m = last_of (marker_of from_str) ls in
      let k = last_of (kind_of from_str) ls in
      let e : turn r ≡ (m, k) =
        read_lines-turn from_str ls (first_reading stem)
        ∙ ap (λ a. (a, or_else k none)) (or_else-none m)
        ∙ ap (λ b. (m, b)) (or_else-none k) in
      (ap (λ t. verdict t.0 t.1) e, verdict_apart r.last_turn_state r.last_msg_kind)
