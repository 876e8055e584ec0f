-- ===== src/Sprite/Examples.antt =====
-- firmware/src/sprite.rs: runs on a synthetic blob, whose colours are their raw values.
use cydrust.Prelude.{
  ℕ, zero, suc, ◌+◌, ◌*◌, ◌≡◌, refl, Option, some, List, [], ◌∷◌, ◌++◌, length, replicate, arith,
}
use cydrust.Prelude.Run.{ok, read, slice}
use cydrust.Sprite.{
  Sprites, FramePixels, parse, frame, collect, moods, frames, palette_len, u16le, u32le, header_ok,
  table_entry, table_loop, palette_loop, parse_body,
}
use cydrust.Sprite.Decode.{pixels, expand}
use cydrust.Sprite.Bounds.{IsValid, ParseGood, parse_total}
use cydrust.Sprite.Picture.{picture, frame-picture}

-- two pixels of colour 1, then three of colour 2
abbrev sample_payload : List ℕ
sample_payload = 2 ∷ 1 ∷ 3 ∷ 2 ∷ []

abbrev sample_palette : ℕ → List ℕ
sample_palette zero = []
sample_palette (suc n) = 7 ∷ 0 ∷ sample_palette n

abbrev sample_table : ℕ → List ℕ
sample_table zero = []
sample_table (suc n) = 0 ∷ 0 ∷ 0 ∷ 0 ∷ 4 ∷ 0 ∷ 0 ∷ 0 ∷ sample_table n

abbrev sample_blob : List ℕ
sample_blob =
    b'C'
    ∷ b'Y'
    ∷ b'D'
    ∷ b'S'
    ∷ 1
    ∷ 5
    ∷ 16
    ∷ 128
    ∷ 128
    ∷ 16
    ∷ (sample_palette 16 ++ (sample_table 80 ++ sample_payload))

abbrev sample : Sprites ℕ
sample = record {
  payload = sample_payload;
  table = replicate (moods * frames) (0, 4);
  palette = replicate palette_len 7;
}

sample_parses : parse (λ raw. raw) sample_blob ≡ ok (some sample)
unfolding parse header_ok parse_body palette_loop table_loop table_entry u16le u32le read slice
sample_parses = refl

sample-IsValid : IsValid sample
sample-IsValid = record { entries = refl; colours = refl; bounded = omega arith }

parse_total_example :
    (r : Option (Sprites ℕ)) × (parse (λ (raw : ℕ). raw) sample_blob ≡ ok r)
    × ParseGood (λ (raw : ℕ). raw) r
parse_total_example = parse_total (λ (raw : ℕ). raw) sample_blob

frame-picture_example :
    (e : ℕ × ℕ) × (p : FramePixels ℕ) × (read sample.table (2 * frames + 3) ≡ ok e)
    × (frame sample 2 3 9 ≡ ok (some p))
    × (collect (pixels + 1) p ≡ ok (some (picture sample e 9)))
    × (length (picture sample e 9) ≡ pixels)
frame-picture_example = frame-picture sample 2 3 9 sample-IsValid (omega arith) (omega arith)

-- index 0 is transparent, and a run of no pixels is one of the background
expand_pairs : expand {C = ℕ} (9 ∷ 5 ∷ []) 9 (2 ∷ 1 ∷ 0 ∷ 1 ∷ 1 ∷ 7 ∷ 4 ∷ []) ≡ 5 ∷ 5 ∷ 9 ∷ 9 ∷ []
expand_pairs = refl
