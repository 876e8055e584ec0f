-- ===== src/Proto/Show.antt =====
-- firmware/src/proto.rs: the formatting of times and `wrap_lines`. The printing of a number and
-- `trim_end` are parameters; f32's formats are not modelled.
pub mod Wrapped
use cydrust.Prelude.{
  ℕ, zero, suc, ◌/◌, ◌%◌, Bool, true, false, ◌&&◌, Option, none, some, List, [], ◌∷◌, ◌++◌,
  if◌then◌else◌, ltb, leb, ◌==◌, length, take, drop, min,
}
use cydrust.Prelude.Int.{ℤ, pos, negsuc}
use cydrust.Proto.Model.{Bytes}
use cydrust.Proto.Text.{floor_boundary}

module _ (show : ℕ → Bytes) where
  age_of : ℕ → Bytes
  age_of s =
      if ltb s 5
      then b'n' ∷ b'o' ∷ b'w' ∷ []
      else if ltb s 60
      then show s ++ b's' ∷ b' ' ∷ b'a' ∷ b'g' ∷ b'o' ∷ []
      else if ltb s 3600
      then show (s / 60) ++ b'm' ∷ b' ' ∷ b'a' ∷ b'g' ∷ b'o' ∷ []
      else if ltb s 86400
      then show (s / 3600) ++ b'h' ∷ b' ' ∷ b'a' ∷ b'g' ∷ b'o' ∷ []
      else show (s / 86400) ++ b'd' ∷ b' ' ∷ b'a' ∷ b'g' ∷ b'o' ∷ []

  unfoldable pub humanize_age : ℤ → Bytes
  unfolding age_of
  humanize_age (negsuc n) = []
  humanize_age (pos s) = age_of s

  duration_of : ℕ → Bytes
  duration_of s =
      if ltb s 60
      then show s ++ b's' ∷ []
      else if ltb s 3600
      then show (s / 60) ++ b'm' ∷ []
      else show (s / 3600) ++ b'h' ∷ []

  unfoldable pub humanize_dur : ℤ → Bytes
  unfolding duration_of
  humanize_dur (negsuc n) = []
  humanize_dur (pos s) = duration_of s

  unfoldable pub fmt_reset : ℕ → Bytes
  fmt_reset reset_sec =
      let mins = reset_sec / 60 in
      if leb 60 mins
      then show (mins / 60) ++ (b'h' ∷ b' ' ∷ []) ++ show (mins % 60) ++ (b'm' ∷ [])
      else show mins ++ (b'm' ∷ [])

  long_of : ℕ → Bytes
  long_of sec =
      let mins = sec / 60 in
      let hrs = mins / 60 in
      if leb 24 hrs
      then show (hrs / 24) ++ (b'd' ∷ b' ' ∷ []) ++ show (hrs % 24) ++ (b'h' ∷ [])
      else if leb 1 hrs
      then show hrs ++ (b'h' ∷ b' ' ∷ []) ++ show (mins % 60) ++ (b'm' ∷ [])
      else show mins ++ (b'm' ∷ [])

  unfoldable pub fmt_long : ℤ → Bytes
  unfolding long_of
  fmt_long (negsuc n) = b'-' ∷ b'-' ∷ []
  fmt_long (pos sec) = long_of sec

-- `rfind(' ')`
unfoldable pub last_space : Bytes → Option ℕ
last_space [] = none
last_space (c ∷ cs) =
    let later = last_space cs in
    elim later [ some i ↦ some (suc i) | none ↦ if c == b' ' then some 0 else none ]

-- the end of a line at a space, where there is one past the start
abbrev at_space : Option ℕ → ℕ → ℕ
at_space none end_here = end_here
at_space (some zero) end_here = end_here
at_space (some (suc i)) end_here = suc i

-- where the line at the start of the text ends
unfoldable pub line_end : ℕ → Bytes → ℕ
line_end cols rest =
    if leb (length rest) cols
    then length rest
    else (let cut = floor_boundary rest cols in at_space (last_space (take cut rest)) cut)

-- `trim_start_matches(' ')`
unfoldable pub skip_spaces : Bytes → Bytes
skip_spaces [] = []
skip_spaces (c ∷ cs) = let rest = skip_spaces cs in if c == b' ' then rest else c ∷ cs

-- the loop, from the start of a line; `max` is what it may still push
unfoldable pub wrap_lines : (Bytes → Bytes) → ℕ → ℕ → Bytes → List Bytes
wrap_lines trim_end cols zero rest = []
wrap_lines trim_end cols (suc max) [] = []
wrap_lines trim_end cols (suc max) (c ∷ cs) =
    let cut = line_end cols (c ∷ cs) in
    trim_end (take cut (c ∷ cs)) ∷ wrap_lines trim_end cols max (skip_spaces (drop cut (c ∷ cs)))
