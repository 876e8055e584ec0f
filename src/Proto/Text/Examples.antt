-- ===== src/Proto/Text/Examples.antt =====
-- firmware/src/proto.rs: a text with a character of three bytes.
use cydrust.Prelude.{◌≡◌, refl, [], ◌∷◌}
use cydrust.Prelude.Run.{ok}
use cydrust.Proto.Model.{Bytes}
use cydrust.Proto.Text.{trunc_bytes, str_take, floor_boundary, is_char_boundary}
use cydrust.Proto.Text.Cut.{IsCut, trunc_bytes-IsCut}

-- `a` and an em dash
abbrev dashed : Bytes
dashed = b'a' ∷ 226 ∷ 128 ∷ 148 ∷ b'b' ∷ []

cut_before : trunc_bytes dashed 3 ≡ ok (b'a' ∷ [])
unfolding trunc_bytes str_take floor_boundary is_char_boundary
cut_before = refl

trunc_bytes-IsCut_example : (r : Bytes) × (trunc_bytes dashed 3 ≡ ok r) × IsCut dashed 3 r
trunc_bytes-IsCut_example = trunc_bytes-IsCut dashed 3
