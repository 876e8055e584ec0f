-- ===== src/Usage/Codex/Misses.antt =====
-- bridge/src/usage.rs: which file Codex's usage is read from, and when there is none.
use cydrust.Prelude.{ℕ, ◌≡◌, ◌⊎◌, Option, none, some, List, [], ◌∷◌, ◌++◌, All}
use cydrust.Proto.Model.{Bytes}
use cydrust.Json.{Value, get}
use cydrust.Strings.{split}
use cydrust.Metrics.Number.{Real, Number}
use cydrust.Usage.{UsageInfo, miss}
use cydrust.Usage.Codex.{Parse, last_limits, f64_at, codex_reading}
use cydrust.Usage.Project.{attach_single_call_analytics}

module _ {N F : Type 0} (real : Real F) (num : Number N F) (parse : Parse F)
    (from_line : Bytes → Option (Value N)) (of_u64 : ℕ → F) (clock : ℕ → Bytes) where
  -- the analytics of the program
  abbrev pub analytics_of : UsageInfo F → ℕ → UsageInfo F
  analytics_of = attach_single_call_analytics real of_u64 clock

  -- the last rate limits of the text are these, and their primary window has this share
  abbrev pub Gives : Bytes → Value N → F → Type 0
  Gives text rl pct =
      (prim : Value N) × (share : Value N) × (last_limits from_line (split b'\n' text) none
        ≡ some rl)
      × (get rl (b'p' ∷ b'r' ∷ b'i' ∷ b'm' ∷ b'a' ∷ b'r' ∷ b'y' ∷ []) ≡ some prim)
      × (get prim
            (b'u' ∷ b's' ∷ b'e' ∷ b'd' ∷ b'_' ∷ b'p' ∷ b'e' ∷ b'r' ∷ b'c' ∷ b'e' ∷ b'n' ∷ b't' ∷ [])
          ≡ some share)
      × (f64_at real num parse (some share) ≡ some pct)

  -- a file that cannot be read, or has no share
  abbrev pub GivesNone : Option Bytes → Type 0
  GivesNone none = Unit
  GivesNone (some text) = ¬ ((rl : Value N) × (pct : F) × Gives text rl pct)

  -- The usage is the reading of the first file that gives a share, with its analytics; or no file
  -- gives one, and it is the default.
  abbrev pub IsReading : List (Option Bytes) → ℕ → UsageInfo F → Type 0
  IsReading files now u =
      (All GivesNone files × (u ≡ miss))
      ⊎ ((before : List (Option Bytes)) × (text : Bytes) × (after : List (Option Bytes))
          × (rl : Value N) × (pct : F) × (files ≡ before ++ some text ∷ after)
          × All GivesNone before
          × Gives text rl pct
          × (u ≡ analytics_of (codex_reading real num parse rl now pct) now))

  -- the same for one text
  abbrev IsRead : Bytes → ℕ → UsageInfo F → Type 0
  IsRead text now u =
      (GivesNone (some text) × (u ≡ miss))
      ⊎ ((rl : Value N) × (pct : F) × Gives text rl pct
          × (u ≡ analytics_of (codex_reading real num parse rl now pct) now))
