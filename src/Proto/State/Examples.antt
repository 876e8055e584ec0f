-- ===== src/Proto/State/Examples.antt =====
-- firmware/src/proto.rs: a text with a session and a model.
use cydrust.Prelude.{ℕ, ◌≡◌, none, [], ◌∷◌}
use cydrust.Prelude.Int.{pos}
use cydrust.Prelude.Run.{ok}
use cydrust.Proto.Model.{Bytes, DisplayState}
use cydrust.Proto.Provider.{Float32}
use cydrust.Proto.State.{parse_state}
use cydrust.Proto.State.Bounded.{IsShown, parse_state-IsShown}

abbrev text : Bytes
text =
    b'"' ∷ b's' ∷ b'e' ∷ b's' ∷ b's' ∷ b'i' ∷ b'o' ∷ b'n' ∷ b's' ∷ b'"' ∷ b':' ∷ b'[' ∷ b'{' ∷ b'"'
    ∷ b't' ∷ b'o' ∷ b'o' ∷ b'l' ∷ b'"' ∷ b':' ∷ b'"' ∷ b'x' ∷ b'"' ∷ b'}' ∷ b']' ∷ b',' ∷ b'"'
    ∷ b'm' ∷ b'e' ∷ b't' ∷ b'r' ∷ b'i' ∷ b'c' ∷ b's' ∷ b'"' ∷ b':' ∷ b'{' ∷ b'"' ∷ b'm' ∷ b'"'
    ∷ b':' ∷ b'[' ∷ b'{' ∷ b'"' ∷ b'p' ∷ b'"' ∷ b':' ∷ b'"' ∷ b'c' ∷ b'o' ∷ b'd' ∷ b'e' ∷ b'x'
    ∷ b'"' ∷ b',' ∷ b'"' ∷ b'n' ∷ b'"' ∷ b':' ∷ b'"' ∷ b'g' ∷ b'p' ∷ b't' ∷ b'-' ∷ b'5' ∷ b'"'
    ∷ b'}' ∷ b']' ∷ b'}' ∷ []

abbrev no_number : Float32 ℕ
no_number = record { zero_f = 0; minus_one = 0; parse = λ s. none; to_i32 = pos; to_u32 = λ n. n }

parse_state-IsShown_example :
    (ds : DisplayState ℕ) × (parse_state no_number text ≡ ok ds) × IsShown ds
parse_state-IsShown_example = parse_state-IsShown no_number text
