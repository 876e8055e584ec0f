-- ===== src/Hooks.antt =====
-- bridge/src/bin/install_hooks.rs: `block_is_ours`, `merge_hooks` and the parsing of the arguments.
-- serde_json's `retain` on an array is `keep_items`. `home_settings_path`, `resolve_hook_exe` and
-- the reading and writing of files are not modelled.
pub mod Arrays
pub mod Strip
pub mod Marked
pub mod Merge
pub mod Again
pub mod Args
pub mod Send
mod Examples
use cydrust.Prelude.{
  ℕ, Bool, true, false, ◌||◌, not, Option, none, some, List, [], ◌∷◌, if◌then◌else◌,
}
use cydrust.Proto.Model.{Bytes}
use cydrust.Proto.Same.{same_bytes}
use cydrust.Proto.Scan.{find_str}
use cydrust.Json.{
  Value, null, bool, number, string, array, object, Items, nil, cons, Fields, end, field, get_field,
  set_field, get, as_array, get_str,
}
use cydrust.Hooks.Arrays.{any_item, keep_items, push, is_empty}

abbrev pub notification : Bytes
notification =
    b'N' ∷ b'o' ∷ b't' ∷ b'i' ∷ b'f' ∷ b'i' ∷ b'c' ∷ b'a' ∷ b't' ∷ b'i' ∷ b'o' ∷ b'n' ∷ []

abbrev pub stop : Bytes
stop = b'S' ∷ b't' ∷ b'o' ∷ b'p' ∷ []

-- `HOOK_EVENTS.contains(ev)`
abbrev pub is_event : Bytes → Bool
is_event ev = same_bytes notification ev || same_bytes stop ev

abbrev pub vibe_marker : Bytes
vibe_marker = b'v' ∷ b'i' ∷ b'b' ∷ b'e' ∷ b'_' ∷ b'h' ∷ b'o' ∷ b'o' ∷ b'k' ∷ []

abbrev pub hooks_key : Bytes
hooks_key = b'h' ∷ b'o' ∷ b'o' ∷ b'k' ∷ b's' ∷ []

abbrev command_key : Bytes
command_key = b'c' ∷ b'o' ∷ b'm' ∷ b'm' ∷ b'a' ∷ b'n' ∷ b'd' ∷ []

abbrev matcher_key : Bytes
matcher_key = b'm' ∷ b'a' ∷ b't' ∷ b'c' ∷ b'h' ∷ b'e' ∷ b'r' ∷ []

abbrev type_key : Bytes
type_key = b't' ∷ b'y' ∷ b'p' ∷ b'e' ∷ []

-- `contains(VIBE_MARKER)`
unfoldable pub is_marked : Bytes → Bool
is_marked s = elim (find_str vibe_marker s) [ none ↦ false | some rest ↦ true ]

module _ {N : Type 0} where
  unfoldable pub hook_is_ours : Value N → Bool
  hook_is_ours h = elim (get_str h command_key) [ none ↦ false | some s ↦ is_marked s ]

  ours_in : Option (Value N) → Bool
  ours_in none = false
  ours_in (some v) = elim (as_array v) [ none ↦ false | some hs ↦ any_item hook_is_ours hs ]

  unfoldable pub block_is_ours : Value N → Bool
  unfolding ours_in
  block_is_ours block = ours_in (get block hooks_key)

  -- the registration that `merge_hooks` appends
  unfoldable pub own_block : Bytes → Value N
  own_block command = object (
      field matcher_key (string []) (
        field hooks_key
          (array (
            cons
              (object
                (field type_key (string command_key) (field command_key (string command) end)))
              nil))
          end))

  is_users : Value N → Bool
  is_users block = not (block_is_ours block)

  -- the blocks without ours
  unfoldable pub users : Items N → Items N
  unfolding is_users
  users = keep_items is_users

  abbrev object_or_empty : Value N → Fields N
  object_or_empty (object fs) = fs
  object_or_empty _ = end

  abbrev array_or_empty : Value N → Items N
  array_or_empty (array xs) = xs
  array_or_empty _ = nil

  -- `entry(k).or_insert_with(...)`, and the empty object where the value is no object
  unfoldable pub object_at : Fields N → Bytes → Fields N
  object_at fs k = elim (get_field fs k) [ none ↦ end | some v ↦ object_or_empty v ]

  -- the same for arrays
  unfoldable pub array_at : Fields N → Bytes → Items N
  array_at fs k = elim (get_field fs k) [ none ↦ nil | some v ↦ array_or_empty v ]

  -- a stale event: its array without our blocks, or nothing where that is empty
  stripped : Bytes → Value N → Fields N → Fields N
  stripped ev (array xs) rest =
      let kept = users xs in if is_empty kept then rest else field ev (array kept) rest
  stripped ev v rest = field ev v rest

  -- the loop over the events that are not ours
  unfoldable pub strip : Fields N → Fields N
  unfolding stripped
  strip end = end
  strip (field ev v fs) =
      let rest = strip fs in if is_event ev then field ev v rest else stripped ev v rest

  -- the blocks of one of our events after the merge
  unfoldable pub registered : Bytes → Items N → Items N
  registered command xs = push (users xs) (own_block command)

  -- the loop over `HOOK_EVENTS`
  unfoldable pub register : Bytes → Bytes → Fields N → Fields N
  register command ev hooks = set_field hooks ev (array (registered command (array_at hooks ev)))

  unfoldable pub merge_events : Bytes → Fields N → Fields N
  merge_events command hooks = register command stop (register command notification (strip hooks))

  unfoldable pub merge_hooks : Value N → Bytes → Value N
  merge_hooks settings command =
      let root = object_or_empty settings in
      object (set_field root hooks_key (object (merge_events command (object_at root hooks_key))))
