-- ===== src/Hooks/Args/Laws.antt =====
-- bridge/src/bin/install_hooks.rs: the loop over the arguments, for any number of them.
use cydrust.Prelude.{◌≡◌, refl, false, none, some, List, [], ◌∷◌, ◌++◌}
use cydrust.Proto.Model.{Bytes}
use cydrust.Proto.Same.{same_list}
use cydrust.Hooks.Args.{
  Args, unknown_argument, Flag, flag_str, flag_of, assign, is_help, other, parse_args,
}

-- flags with their values, and the arguments that spell them
abbrev pub spelled : List (Flag × Bytes) → List Bytes
spelled [] = []
spelled ((f, v) ∷ fs) = flag_str f ∷ v ∷ spelled fs

abbrev pub assign_all : List (Flag × Bytes) → Args → Args
assign_all [] a = a
assign_all ((f, v) ∷ fs) a = assign_all fs (assign f (some v) a)

flag_of-flag_str : (f : Flag) → flag_of (flag_str f) ≡ some f
unfolding flag_of same_list
flag_of-flag_str Flag.url = refl
flag_of-flag_str Flag.token = refl
flag_of-flag_str Flag.config = refl
flag_of-flag_str Flag.path = refl
flag_of-flag_str Flag.hook_exe = refl

-- Flags with their values are taken in their order, so that the last of a flag stands.
pub parse_args-spelled :
    (fs : List (Flag × Bytes)) (rest : List Bytes) (a : Args)
    → parse_args (spelled fs ++ rest) a ≡ parse_args rest (assign_all fs a)
unfolding parse_args
parse_args-spelled [] rest a = refl
parse_args-spelled ((f, v) ∷ fs) rest a =
    rw (flag_of-flag_str f, parse_args) (parse_args-spelled fs rest (assign f (some v) a))

parse_args-other :
    (arg : Bytes) (rest : List Bytes) (a : Args)
    → flag_of arg ≡ none
    → parse_args (arg ∷ rest) a ≡ other arg
unfolding parse_args
parse_args-other arg [] a h = rw (h, parse_args)
parse_args-other arg (v ∷ rest) a h = rw (h, parse_args)

-- After any number of flags with their values, an argument that is neither a flag nor a request for
-- help ends the program with the error that names it, whatever follows.
pub parse_args-unknown :
    (fs : List (Flag × Bytes)) (arg : Bytes) (rest : List Bytes) (a : Args)
    → flag_of arg ≡ none
    → is_help arg ≡ false
    → parse_args (spelled fs ++ arg ∷ rest) a ≡ unknown_argument arg
unfolding other
parse_args-unknown fs arg rest a h n =
    rw (parse_args-spelled fs (arg ∷ rest) a, parse_args-other arg rest (assign_all fs a) h, n)
