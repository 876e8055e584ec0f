-- ===== src/Sprite/Decode.antt =====
-- firmware/src/sprite.rs: the iterator `FramePixels` against a plain description of the picture.
use native.Mathlib.Numerals.{add-one, add-two}
use native.Mathlib.Decide.{ℕ_discrete, dec_lt}
use cydrust.Prelude.{
  ℕ, zero, suc, ◌+◌, ◌-◌, ◌*◌, ◌<◌, ◌≤◌, ◌≡◌, refl, ap, none, some, List, [], ◌∷◌, ◌++◌, arith,
  length, get_or, drop, replicate,
}
use cydrust.Prelude.Run.{ok, read}
use cydrust.Sprite.{FramePixels, next, collect, sprite_w, sprite_h}

abbrev pub pixels : ℕ
pixels = sprite_w * sprite_h

module _ {C : Type 0} where
  -- what a pair of bytes stands for; a run of no pixels is one of the background
  abbrev pub run_pixels : List C → C → ℕ → ℕ → List C
  run_pixels palette bg zero idx = bg ∷ []
  run_pixels palette bg (suc k) idx = replicate (suc k) (get_or palette idx bg)

  -- what the bytes of a frame stand for
  abbrev pub expand : List C → C → List ℕ → List C
  expand palette bg [] = []
  expand palette bg (run ∷ []) = []
  expand palette bg (run ∷ idx ∷ rest) = run_pixels palette bg run idx ++ expand palette bg rest

  -- the first `n` pixels, with the background where there are fewer
  abbrev pub pad : ℕ → C → List C → List C
  pad zero bg xs = []
  pad (suc n) bg [] = bg ∷ pad n bg []
  pad (suc n) bg (x ∷ xs) = x ∷ pad n bg xs

  pub length-pad : (n : ℕ) (bg : C) (xs : List C) → length (pad n bg xs) ≡ n
  length-pad zero bg xs = refl
  length-pad (suc n) bg [] = ap suc (length-pad n bg [])
  length-pad (suc n) bg (x ∷ xs) = ap suc (length-pad n bg xs)

  -- the pixels that an iterator has yet to give, but for the cap
  abbrev pub pending : FramePixels C → List C
  pending p = replicate p.run p.colour ++ expand p.palette p.bg (drop p.at p.bytes)

-- Where two bytes are left, both are read.
drop_two :
    (b : List ℕ) (at : ℕ)
    → suc at < length b
    → (r : ℕ) × (i : ℕ) × (drop at b ≡ r ∷ i ∷ drop (suc (suc at)) b)
      × (read b at ≡ ok r)
      × (read b (suc at) ≡ ok i)
unfolding read
drop_two [] at h = elim h [ ]
drop_two (x ∷ []) at h = absurd (omega arith)
drop_two (x ∷ y ∷ b) zero h = (x, y, refl, refl, refl)
drop_two (x ∷ y ∷ b) (suc at) h = drop_two (y ∷ b) at (omega arith)

-- Where fewer are left, they stand for nothing.
expand_rest :
    {C : Type 0} (palette : List C) (bg : C) (b : List ℕ) (at : ℕ)
    → length b ≤ suc at
    → expand palette bg (drop at b) ≡ []
expand_rest palette bg [] zero h = refl
expand_rest palette bg [] (suc at) h = refl
expand_rest palette bg (x ∷ []) zero h = refl
expand_rest palette bg (x ∷ y ∷ b) zero h = absurd (omega arith)
expand_rest palette bg (x ∷ b) (suc at) h = expand_rest palette bg b at (omega arith)

module _ {C : Type 0} where
  -- One call of `next` gives the first pending pixel, and leaves the others.
  abbrev Gives : FramePixels C → Type 0
  Gives p =
      (c : C) × (q : FramePixels C) × (next p ≡ ok (some c, q))
      × (q.emitted ≡ p.emitted + 1)
      × ((n : ℕ) → pad (suc n) p.bg (pending p) ≡ c ∷ pad n q.bg (pending q))

  within_run : (p : FramePixels C) (k : ℕ) → p.emitted < pixels → p.run ≡ suc k → Gives p
  unfolding next
  within_run p k h e =
      (p.colour, record p { run = k; emitted = p.emitted + 1 }, ground arith, refl, λ n. rw e)

  past_end :
      (p : FramePixels C) → p.emitted < pixels → p.run ≡ 0 → length p.bytes ≤ suc p.at → Gives p
  unfolding next
  past_end p h e f = (
    p.bg,
    record p { emitted = p.emitted + 1 },
    ground arith,
    refl,
    λ n. rw (e, expand_rest p.palette p.bg p.bytes p.at f),
  )

  at_run :
      (p : FramePixels C) → p.emitted < pixels → p.run ≡ 0 → suc p.at < length p.bytes → Gives p
  unfolding next
  at_run p h e f = let (r, i, d, x, y) = drop_two p.bytes p.at f in by_length r i d x y
    where
      by_length :
          (r i : ℕ)
          → drop p.at p.bytes ≡ r ∷ i ∷ drop (suc (suc p.at)) p.bytes
          → read p.bytes p.at ≡ ok r
          → read p.bytes (suc p.at) ≡ ok i
          → Gives p
      by_length zero i d x y = (
        p.bg,
        record p {
          run = 0;
          colour = get_or p.palette i p.bg;
          at = p.at + 2;
          emitted = p.emitted + 1;
        },
        ground (arith, add-one p.at),
        refl,
        λ n. rw (e, d, add-two),
      )
      by_length (suc k) i d x y = (
        get_or p.palette i p.bg,
        record p {
          run = k;
          colour = get_or p.palette i p.bg;
          at = p.at + 2;
          emitted = p.emitted + 1;
        },
        ground (arith, add-one p.at),
        refl,
        λ n. rw (e, d, add-two),
      )

  next-Gives : (p : FramePixels C) → p.emitted < pixels → Gives p
  next-Gives p h = elim (ℕ_discrete p.run 0) [
    | yes e ↦ elim (dec_lt (suc p.at) (length p.bytes)) [
      | yes f ↦ at_run p h e f
      | no f ↦ past_end p h e (omega arith)
    ]
    | no e ↦ within_run p (p.run - 1) h (omega arith)
  ]

  collect_step :
      (m : ℕ) (p q : FramePixels C) (c : C) (l : List C)
      → next p ≡ ok (some c, q)
      → collect m q ≡ ok (some l)
      → collect (suc m) p ≡ ok (some (c ∷ l))
  unfolding collect
  collect_step m p q c l e h = rw (e, h)

  collect_end : (p : FramePixels C) → pixels ≤ p.emitted → collect 1 p ≡ ok (some [])
  unfolding collect
  collect_end p h = let e : next p ≡ ok (none, p) = unfold next in ground arith in rw e

  -- The pixels that a whole pass over the iterator gives, from any point of it.
  pub collect-pad :
      (n : ℕ) (p : FramePixels C)
      → p.emitted + n ≡ pixels
      → collect (suc n) p ≡ ok (some (pad n p.bg (pending p)))
  collect-pad zero p h = collect_end p (omega arith)
  collect-pad (suc n) p h =
      let (c, q, e, m, f) = next-Gives p (omega arith) in
      rw f (collect_step (suc n) p q c _ e (collect-pad n q (omega arith)))
