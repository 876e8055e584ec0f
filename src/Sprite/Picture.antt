-- ===== src/Sprite/Picture.antt =====
-- firmware/src/sprite.rs, whole: from the bytes of a blob to the pixels of a frame.
use cydrust.Prelude.{ℕ, ◌+◌, ◌*◌, ◌<◌, ◌≡◌, refl, some, List, length, take, drop, set}
use cydrust.Prelude.Run.{ok, read}
use cydrust.Sprite.{Sprites, FramePixels, frame, collect, moods, frames}
use cydrust.Sprite.Bounds.{IsValid, start, frame_inside}
use cydrust.Sprite.Decode.{pixels, expand, pad, length-pad, collect-pad}

module _ {C : Type 0} where
  -- the picture that table entry `e` stands for: index 0 is the background
  abbrev pub picture : Sprites C → ℕ × ℕ → C → List C
  picture s e bg = pad pixels bg (expand (set s.palette 0 bg) bg (take e.1 (drop e.0 s.payload)))

  -- In a valid blob, at a mood and a frame in range, `frame` returns an iterator that panics
  -- nowhere and whose pixels are those of the table entry: the runs of its bytes in order, cut at
  -- 128 * 128 and filled with the background where they are fewer. There are 128 * 128 of them.
  pub frame-picture :
      (s : Sprites C) (m f : ℕ) (bg : C)
      → IsValid s
      → m < moods
      → f < frames
      → (e : ℕ × ℕ) × (p : FramePixels C) × (read s.table (m * frames + f) ≡ ok e)
        × (frame s m f bg ≡ ok (some p))
        × (collect (pixels + 1) p ≡ ok (some (picture s e bg)))
        × (length (picture s e bg) ≡ pixels)
  frame-picture s m f bg v hm hf =
      let (e, r, b, eq) = frame_inside s m f bg v hm hf in
      (
        e,
        start s e bg,
        r,
        eq,
        collect-pad pixels (start s e bg) refl,
        length-pad pixels bg (expand (set s.palette 0 bg) bg (take e.1 (drop e.0 s.payload))),
      )
