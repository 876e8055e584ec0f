-- ===== src/Hooks/Args.antt =====
-- bridge/src/bin/install_hooks.rs: the arguments of `run`, `from_config`, and the choice of the hub's
-- URL and token. toml's lookups and the printing of an integer are parameters.
pub mod Laws
use cydrust.Prelude.{
  ℕ, Bool, true, false, ◌||◌, Option, none, some, List, [], ◌∷◌, ◌++◌, if◌then◌else◌,
}
use cydrust.Proto.Model.{Bytes}
use cydrust.Proto.Same.{same_bytes}

-- the variables that the loop fills
pub record Args : Type 0 where
  pub url : Option Bytes
  pub token : Option Bytes
  pub config_path : Option Bytes
  pub settings_path_override : Option Bytes
  pub hook_exe_override : Option Bytes

abbrev pub no_args : Args
no_args = record {
  url = none;
  token = none;
  config_path = none;
  settings_path_override = none;
  hook_exe_override = none;
}

-- how the loop ends
pub data Parsed : Type 0 where
  done : Args → Parsed
  help : Parsed
  unknown_argument : Bytes → Parsed

pub data Flag : Type 0 where
  url token config path hook_exe : Flag

abbrev pub flag_str : Flag → Bytes
flag_str url = b'-' ∷ b'-' ∷ b'u' ∷ b'r' ∷ b'l' ∷ []
flag_str token = b'-' ∷ b'-' ∷ b't' ∷ b'o' ∷ b'k' ∷ b'e' ∷ b'n' ∷ []
flag_str config = b'-' ∷ b'-' ∷ b'c' ∷ b'o' ∷ b'n' ∷ b'f' ∷ b'i' ∷ b'g' ∷ []
flag_str path = b'-' ∷ b'-' ∷ b'p' ∷ b'a' ∷ b't' ∷ b'h' ∷ []
flag_str hook_exe = b'-' ∷ b'-' ∷ b'h' ∷ b'o' ∷ b'o' ∷ b'k' ∷ b'-' ∷ b'e' ∷ b'x' ∷ b'e' ∷ []

-- the flag that an argument is
unfoldable pub flag_of : Bytes → Option Flag
flag_of arg =
    if same_bytes arg (flag_str url)
    then some url
    else if same_bytes arg (flag_str token)
    then some token
    else if same_bytes arg (flag_str config)
    then some config
    else if same_bytes arg (flag_str path)
    then some path
    else if same_bytes arg (flag_str hook_exe)
    then some hook_exe
    else none

-- one arm of the `match`; the value is `args.get(i + 1)`
abbrev pub assign : Flag → Option Bytes → Args → Args
assign url v a = record a { url = v }
assign token v a = record a { token = v }
assign config v a = record a { config_path = v }
assign path v a = record a { settings_path_override = v }
assign hook_exe v a = record a { hook_exe_override = v }

unfoldable pub is_help : Bytes → Bool
is_help arg =
    same_bytes arg (b'-' ∷ b'h' ∷ [])
    || same_bytes arg (b'-' ∷ b'-' ∷ b'h' ∷ b'e' ∷ b'l' ∷ b'p' ∷ [])

-- an argument that is no flag with a value
unfoldable pub other : Bytes → Parsed
other arg = if is_help arg then help else unknown_argument arg

-- the loop over the arguments
unfoldable pub parse_args : List Bytes → Args → Parsed
parse_args [] a = done a
parse_args (arg ∷ []) a = elim (flag_of arg) [ none ↦ other arg | some f ↦ done (assign f none a) ]
parse_args (arg ∷ value ∷ rest) a = elim (flag_of arg) [
  | none ↦ other arg
  | some f ↦ parse_args rest (assign f (some value) a)
]

-- `a.or(b)`
abbrev pub or_else : Option Bytes → Option Bytes → Option Bytes
or_else (some s) o = some s
or_else none o = o

module _ {T I : Type 0} (str : T → Bytes → Option Bytes) (integer : T → Bytes → Option I)
    (show : I → Bytes) where
  -- the host that a client talks to
  abbrev client_host : Bytes → Bytes
  client_host host =
      if same_bytes host (b'0' ∷ b'.' ∷ b'0' ∷ b'.' ∷ b'0' ∷ b'.' ∷ b'0' ∷ [])
      then b'1' ∷ b'2' ∷ b'7' ∷ b'.' ∷ b'0' ∷ b'.' ∷ b'0' ∷ b'.' ∷ b'1' ∷ []
      else host

  unfoldable pub config_url : T → Option Bytes
  config_url val = elim (str val (b'h' ∷ b'o' ∷ b's' ∷ b't' ∷ [])) [
    | none ↦ none
    | some host ↦ elim (integer val (b'p' ∷ b'o' ∷ b'r' ∷ b't' ∷ [])) [
      | none ↦ none
      | some port ↦ some (
          b'h' ∷ b't' ∷ b't' ∷ b'p' ∷ b':' ∷ b'/' ∷ b'/' ∷ []
          ++ client_host host
          ++ b':' ∷ show port)
    ]
  ]

  -- `from_config`, where `read` is the file, or `none` where it cannot be read or parsed
  unfoldable pub from_config : Option T → Option Bytes × Option Bytes
  from_config none = (none, none)
  from_config (some val) = (str val (b't' ∷ b'o' ∷ b'k' ∷ b'e' ∷ b'n' ∷ []), config_url val)

  -- what the file at `--config` gives
  unfoldable pub configured : Option Bytes → (Bytes → Option T) → Option Bytes × Option Bytes
  configured none read = (none, none)
  configured (some file) read = from_config (read file)

  -- the URL, and the token where there is one
  unfoldable pub resolve : Args → (Bytes → Option T) → Bytes × Option Bytes
  resolve a read =
      let given = configured a.config_path read in
      (
        elim (or_else a.url given.1) [
          | none ↦
              b'h' ∷ b't' ∷ b't' ∷ b'p' ∷ b':' ∷ b'/' ∷ b'/' ∷ b'l' ∷ b'o' ∷ b'c' ∷ b'a' ∷ b'l'
              ∷ b'h' ∷ b'o' ∷ b's' ∷ b't' ∷ b':' ∷ b'5' ∷ b'1' ∷ b'5' ∷ b'1' ∷ []
          | some u ↦ u
        ],
        or_else a.token given.0,
      )
