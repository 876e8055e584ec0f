-- ===== src/Proto/Scan/Find.antt =====
-- firmware/src/proto.rs: what a search for a text in another finds.
use cydrust.Prelude.{
  ◌≡◌, refl, ap, ◌∙◌, Bool-cases, inl, inr, none, some, [], ◌∷◌, ◌++◌, ◌==◌, ==_iff, Option-cases,
}
use mathlib.Core.Option.{some-injective}
use cydrust.Proto.Model.{Bytes}
use cydrust.Proto.Reflexive.{==_refl}
use cydrust.Proto.Scan.{after_prefix, find_str}

after_prefix-some :
    (needle text rest : Bytes) → after_prefix needle text ≡ some rest → text ≡ needle ++ rest
unfolding after_prefix
after_prefix-some [] text rest h = some-injective text rest h
after_prefix-some (n ∷ needle) [] rest h = cc
after_prefix-some (n ∷ needle) (c ∷ text) rest h = elim (Bool-cases (n == c)) [
  | inl e ↦
      let k : after_prefix needle text ≡ some rest = rw (e, after_prefix) at h in
      rw ((==_iff n c).0 e, after_prefix-some needle text rest k)
  | inr e ↦ let k : none ≡ some rest = rw (e, after_prefix) at h in cc
]

after_prefix-++ : (needle rest : Bytes) → after_prefix needle (needle ++ rest) ≡ some rest
unfolding after_prefix
after_prefix-++ [] rest = refl
after_prefix-++ (n ∷ needle) rest = rw (==_refl n, after_prefix-++ needle rest)

-- What is found stands in the text.
pub find_str-some :
    (needle text rest : Bytes)
    → find_str needle text ≡ some rest
    → (before : Bytes) × (text ≡ before ++ (needle ++ rest))
unfolding find_str
find_str-some needle [] rest h = ([], after_prefix-some needle [] rest h)
find_str-some needle (c ∷ text) rest h = elim (Option-cases (after_prefix needle (c ∷ text))) [
  | inl e ↦
      let k : find_str needle text ≡ some rest = rw (e, find_str) at h in
      let (b, t) = find_str-some needle text rest k in (c ∷ b, ap (λ x. c ∷ x) t)
  | inr (r, e) ↦
      let k : some r ≡ some rest = rw (e, find_str) at h in
      ([], after_prefix-some needle (c ∷ text) rest (e ∙ k))
]

find_str-here :
    (needle text rest : Bytes)
    → after_prefix needle text ≡ some rest
    → find_str needle text ≡ some rest
unfolding find_str
find_str-here needle [] rest h = h
find_str-here needle (c ∷ text) rest h = rw (h, find_str)

-- What stands in the text is found, there or before.
pub find_str-++ :
    (needle before after : Bytes)
    → (rest : Bytes) × (find_str needle (before ++ (needle ++ after)) ≡ some rest)
unfolding find_str
find_str-++ needle [] after =
    (after, find_str-here needle (needle ++ after) after (after_prefix-++ needle after))
find_str-++ needle (c ∷ before) after =
    elim (Option-cases (after_prefix needle (c ∷ before ++ (needle ++ after)))) [
      | inl e ↦ let (r, k) = find_str-++ needle before after in (r, rw (e, find_str) k)
      | inr (r, e) ↦ (r, rw (e, find_str))
    ]
