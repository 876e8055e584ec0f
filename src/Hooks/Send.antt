-- ===== src/Hooks/Send.antt =====
-- bridge/src/bin/vibe_hook.rs: the arguments of `run`, the choice of the hub's URL and token,
-- `project_from_cwd`, and the body that is sent. The environment and the file are arguments; the
-- request itself is not modelled. The file's contents are those of `from_config` in
-- install_hooks.rs, which has the same text.
pub mod Project
use cydrust.Prelude.{ℕ, Bool, true, false, Option, none, some, List, [], ◌∷◌, ◌++◌, if◌then◌else◌}
use cydrust.Proto.Model.{Bytes}
use cydrust.Proto.Same.{same_bytes}
use cydrust.Json.{Value, null, string, number, object, end, field, get_str}
use cydrust.Strings.{is_nil, replace, trim_end, last_part}
use cydrust.Hooks.Args.{or_else}

unfoldable pub project_from_cwd : Bytes → Bytes
project_from_cwd cwd =
    let trimmed = trim_end b'/' (replace b'\\' b'/' cwd) in
    if is_nil trimmed then b'?' ∷ [] else last_part b'/' trimmed

pub record HookArgs : Type 0 where
  pub url : Option Bytes
  pub token : Option Bytes
  pub config_path : Option Bytes

-- one arm of the `match`, where there is one
unfoldable pub assign : Bytes → Option Bytes → HookArgs → Option HookArgs
assign arg v a =
    if same_bytes arg (b'-' ∷ b'-' ∷ b'u' ∷ b'r' ∷ b'l' ∷ [])
    then some (record a { url = v })
    else if same_bytes arg (b'-' ∷ b'-' ∷ b't' ∷ b'o' ∷ b'k' ∷ b'e' ∷ b'n' ∷ [])
    then some (record a { token = v })
    else if same_bytes arg (b'-' ∷ b'-' ∷ b'c' ∷ b'o' ∷ b'n' ∷ b'f' ∷ b'i' ∷ b'g' ∷ [])
    then some (record a { config_path = v })
    else none

-- the loop over the arguments, which passes over those it does not know
unfoldable pub parse_args : List Bytes → HookArgs → HookArgs
parse_args [] a = a
parse_args (arg ∷ []) a = elim (assign arg none a) [ none ↦ a | some b ↦ b ]
parse_args (arg ∷ value ∷ rest) a = elim (assign arg (some value) a) [
  | none ↦ parse_args (value ∷ rest) a
  | some b ↦ parse_args rest b
]

-- the three variables of the environment that are read
pub record Env : Type 0 where
  pub vibe_monitor_token : Option Bytes
  pub vibe_token : Option Bytes
  pub vibe_hub_url : Option Bytes

abbrev pub or_str : Option Bytes → Bytes → Bytes
or_str none d = d
or_str (some s) d = s

-- The URL and the token; `given` is what the file at `--config` gives.
unfoldable pub hook_url : HookArgs → Env → Option Bytes × Option Bytes → Bytes
hook_url a env given = or_str (or_else (or_else a.url given.1) env.vibe_hub_url) (
    b'h' ∷ b't' ∷ b't' ∷ b'p' ∷ b':' ∷ b'/' ∷ b'/' ∷ b'l' ∷ b'o' ∷ b'c' ∷ b'a' ∷ b'l' ∷ b'h' ∷ b'o'
    ∷ b's' ∷ b't' ∷ b':' ∷ b'5' ∷ b'1' ∷ b'5' ∷ b'1' ∷ [])

unfoldable pub hook_token : HookArgs → Env → Option Bytes × Option Bytes → Bytes
hook_token a env given =
    or_str (or_else (or_else env.vibe_monitor_token (or_else a.token given.0)) env.vibe_token) []

module _ {N : Type 0} where
  -- the closure `get_str`: the first key with a string that is not empty
  unfoldable pub first_str : Value N → List Bytes → Option Bytes
  first_str payload [] = none
  first_str payload (k ∷ ks) =
      let rest = first_str payload ks in
      elim (get_str payload k) [ none ↦ rest | some s ↦ if is_nil s then rest else some s ]

  unfoldable pub hook_body : Value N → N → Value N
  hook_body payload now =
      let event =
        or_str
          (first_str payload (
            (b'h' ∷ b'o' ∷ b'o' ∷ b'k' ∷ b'_' ∷ b'e' ∷ b'v' ∷ b'e' ∷ b'n' ∷ b't' ∷ b'_' ∷ b'n'
              ∷ b'a' ∷ b'm' ∷ b'e' ∷ [])
            ∷ (b'h' ∷ b'o' ∷ b'o' ∷ b'k' ∷ b'E' ∷ b'v' ∷ b'e' ∷ b'n' ∷ b't' ∷ b'N' ∷ b'a' ∷ b'm'
                ∷ b'e' ∷ [])
            ∷ []))
          (b'S' ∷ b't' ∷ b'o' ∷ b'p' ∷ []) in
      let id =
        or_str
          (first_str payload (
            (b's' ∷ b'e' ∷ b's' ∷ b's' ∷ b'i' ∷ b'o' ∷ b'n' ∷ b'_' ∷ b'i' ∷ b'd' ∷ [])
            ∷ (b's' ∷ b'e' ∷ b's' ∷ b's' ∷ b'i' ∷ b'o' ∷ b'n' ∷ b'I' ∷ b'd' ∷ [])
            ∷ []))
          (b'u' ∷ b'n' ∷ b'k' ∷ b'n' ∷ b'o' ∷ b'w' ∷ b'n' ∷ []) in
      let cwd = or_str (first_str payload ((b'c' ∷ b'w' ∷ b'd' ∷ []) ∷ [])) [] in
      object (
        field (b'i' ∷ b'd' ∷ []) (string id) (
          field (b'p' ∷ b'r' ∷ b'o' ∷ b'j' ∷ b'e' ∷ b'c' ∷ b't' ∷ [])
            (string (project_from_cwd cwd))
            (field (b't' ∷ b'o' ∷ b'o' ∷ b'l' ∷ [])
              (string (b'c' ∷ b'l' ∷ b'a' ∷ b'u' ∷ b'd' ∷ b'e' ∷ []))
              (field (b'e' ∷ b'v' ∷ b'e' ∷ b'n' ∷ b't' ∷ []) (string event)
                (field (b't' ∷ b's' ∷ []) (number now) end)))))
