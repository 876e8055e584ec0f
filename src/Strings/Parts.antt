-- ===== src/Strings/Parts.antt =====
-- Lemmas on the methods on `str`.
use cydrust.Prelude.{
  ℕ, zero, suc, ◌≡◌, refl, false, ◌||◌, none, some, List, [], ◌∷◌, ◌++◌, arith, ◌==◌, if◌then◌else◌,
  Bool-cases, Option-cases, inl, inr, replicate, ==_iff,
}
use cydrust.Proto.Model.{Bytes}
use cydrust.Strings.{has, after_last, last_part, is_nil, trim_end, replace, on_head, split, join}

some-injective {ℓ} : {A : Type ℓ} {a b : A} → some a ≡ some b → a ≡ b
some-injective e = cc

pub has-append : (b : ℕ) (s t : Bytes) → has b (s ++ t) ≡ (has b s || has b t)
unfolding has
has-append b [] t = refl
has-append b (c ∷ s) t = let rest = has-append b s t in ground arith

-- a text without the byte
pub after_last-none : (b : ℕ) (s : Bytes) → has b s ≡ false → after_last b s ≡ none
unfolding has after_last
after_last-none b [] h = refl
after_last-none b (c ∷ s) h = let rest = after_last-none b s in ground arith

pub after_last-append : (b : ℕ) (s t : Bytes) → has b t ≡ false → after_last b (s ++ b ∷ t) ≡ some t
unfolding after_last
after_last-append b [] t h = rw (after_last-none b t h) ground arith
after_last-append b (c ∷ s) t h = rw (after_last-append b s t h)

after_last-has : (b : ℕ) (s : Bytes) → after_last b s ≡ none → has b s ≡ false
unfolding has after_last
after_last-has b [] h = refl
after_last-has b (c ∷ s) h = elim (Option-cases (after_last b s)) [
  | inl e ↦
      let rest = after_last-has b s e in
      let first : (if c == b then some s else none) ≡ none = rw (e, after_last) at h in ground arith
  | inr (t, e) ↦ let k : some t ≡ none = rw (e, after_last) at h in cc
]

has-after_last : (b : ℕ) (s t : Bytes) → after_last b s ≡ some t → has b t ≡ false
unfolding has after_last
has-after_last b [] t h = cc
has-after_last b (c ∷ s) t h = elim (Option-cases (after_last b s)) [
  | inl e ↦
      let none_there = after_last-has b s e in
      let first : (if c == b then some s else none) ≡ some t = rw (e, after_last) at h in
      elim (Bool-cases (c == b)) [
        | inl f ↦ let k : some s ≡ some t = rw f at first in rw (← some-injective k) none_there
        | inr f ↦ let k : none ≡ some t = rw f at first in cc
      ]
  | inr (u, e) ↦
      let k : some u ≡ some t = rw (e, after_last) at h in
      rw (← some-injective k) (has-after_last b s u e)
]

-- The last part is free of the separator.
pub has-last_part : (b : ℕ) (s : Bytes) → has b (last_part b s) ≡ false
unfolding last_part
has-last_part b s = elim (Option-cases (after_last b s)) [
  | inl e ↦ rw (e, last_part) (after_last-has b s e)
  | inr (t, e) ↦ rw (e, last_part) (has-after_last b s t e)
]

pub trim_end-replicate : (b n : ℕ) (s : Bytes) → trim_end b (s ++ replicate n b) ≡ trim_end b s
unfolding trim_end
trim_end-replicate b zero [] = refl
trim_end-replicate b (suc n) [] = rw (trim_end-replicate b n []) ground arith
trim_end-replicate b n (c ∷ s) = rw (trim_end-replicate b n s)

pub trim_end_none : (b : ℕ) (s : Bytes) → has b s ≡ false → trim_end b s ≡ s
unfolding trim_end has
trim_end_none b [] h = refl
trim_end_none b (c ∷ s) h = let rest = trim_end_none b s in ground arith

pub is_nil-append : (s t : Bytes) → is_nil t ≡ false → is_nil (s ++ t) ≡ false
is_nil-append [] t h = h
is_nil-append (c ∷ s) t h = refl

pub trim_end_kept :
    (b : ℕ) (s t : Bytes) → trim_end b t ≡ t → is_nil t ≡ false → trim_end b (s ++ t) ≡ s ++ t
unfolding trim_end
trim_end_kept b [] t h n = h
trim_end_kept b (c ∷ s) t h n = rw (trim_end_kept b s t h n) (rw (is_nil-append s t n))

pub replace-append : (a b : ℕ) (s t : Bytes) → replace a b (s ++ t) ≡ replace a b s ++ replace a b t
unfolding replace
replace-append a b [] t = refl
replace-append a b (c ∷ s) t = rw (replace-append a b s t)

pub has-replicate : (a b n : ℕ) → (b == a) ≡ false → has a (replicate n b) ≡ false
unfolding has
has-replicate a b zero h = refl
has-replicate a b (suc n) h = rw h (has-replicate a b n h)

pub replace_id : (a b : ℕ) (s : Bytes) → has a s ≡ false → replace a b s ≡ s
unfolding replace has
replace_id a b [] h = refl
replace_id a b (c ∷ s) h = let rest = replace_id a b s in ground arith

split_cons : (b : ℕ) (s : Bytes) → (p : Bytes) × (ps : List Bytes) × (split b s ≡ p ∷ ps)
unfolding split
split_cons b [] = ([], [], refl)
split_cons b (c ∷ s) =
    let (p, ps, e) = split_cons b s in
    elim (Bool-cases (c == b)) [ inl h ↦ ([], p ∷ ps, rw (h, e)) | inr h ↦ (c ∷ p, ps, rw (h, e)) ]

join-on_head : (b c : ℕ) (ps : List Bytes) → join b (on_head c ps) ≡ c ∷ join b ps
unfolding join
join-on_head b c [] = refl
join-on_head b c (p ∷ []) = refl
join-on_head b c (p ∷ q ∷ ps) = refl

-- Splitting and joining again gives the text back.
pub join-split : (b : ℕ) (s : Bytes) → join b (split b s) ≡ s
unfolding join split
join-split b [] = refl
join-split b (c ∷ s) =
    let (p, ps, e) = split_cons b s in
    let whole = join-split b s in
    let rest : join b (p ∷ ps) ≡ s = rw e at whole in
    elim (Bool-cases (c == b)) [
      | inl h ↦ let q : c ≡ b = (==_iff c b).0 h in rw (h, e) (rw (rest, q))
      | inr h ↦ rw (h, join-on_head b c (split b s), join-split b s)
    ]
