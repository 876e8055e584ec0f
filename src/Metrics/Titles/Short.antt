-- ===== src/Metrics/Titles/Short.antt =====
-- bridge/src/metrics.rs: the length of a title.
use cydrust.Prelude.{
  ℕ, ◌≤◌, ◌/◌, ◌≡◌, Option, none, some, [], ◌∷◌, arith, if◌then◌else◌, if_both, leb, length, take,
  length-take, Bool-cases, Option-cases, inl, inr, ◌==◌,
}
use cydrust.Chars.{
  Text, trim, trim_end, is_nil, before_last_space, join_words, words, first_text_line, byte_length,
}
use cydrust.Metrics.Titles.{not_empty, cut_at_word, limited, first_line}

-- a title that fits: none, or a text that is not empty and has at most `limit` characters
abbrev pub FitsIn : ℕ → Option Text → Type 0
FitsIn limit none = Unit
FitsIn limit (some t) = (1 ≤ length t) × (length t ≤ limit)

trim_end-le : (text : Text) → length (trim_end text) ≤ length text
unfolding trim_end
trim_end-le [] = omega arith
trim_end-le (c ∷ cs) = let rest = trim_end-le cs in ground arith

not_empty-FitsIn : (limit : ℕ) (t : Text) → length t ≤ limit → FitsIn limit (not_empty t)
not_empty-FitsIn limit [] h = tt
not_empty-FitsIn limit (c ∷ cs) h = (omega arith, h)

before_last_space-le : (text t : Text) → before_last_space text ≡ some t → length t ≤ length text
unfolding before_last_space
before_last_space-le [] t h = cc
before_last_space-le (c ∷ cs) t h = elim (Option-cases (before_last_space cs)) [
  | inl e ↦
      let first : (if c == b' ' then some [] else none) ≡ some t = rw (e, before_last_space) at h in
      ground arith
  | inr (u, e) ↦
      let shorter = before_last_space-le cs u e in
      let k : some (c ∷ u) ≡ some t = rw (e, before_last_space) at h in ground arith
]

trimmed-FitsIn : (limit : ℕ) (t : Text) → length t ≤ limit → FitsIn limit (not_empty (trim_end t))
trimmed-FitsIn limit t h =
    let shorter = trim_end-le t in not_empty-FitsIn limit (trim_end t) (omega arith)

cut_at_word-FitsIn :
    (limit : ℕ) (cut : Text) → length cut ≤ limit → FitsIn limit (cut_at_word limit cut)
unfolding cut_at_word
cut_at_word-FitsIn limit cut h = elim (Option-cases (before_last_space cut)) [
  | inl e ↦ rw (e, cut_at_word) (trimmed-FitsIn limit cut h)
  | inr (t, e) ↦
      let shorter = before_last_space-le cut t e in
      rw (e, cut_at_word)
        (if_both (FitsIn limit) (leb (limit / 2) (byte_length t))
          (trimmed-FitsIn limit t (omega arith)) (trimmed-FitsIn limit cut h))
]

limited-FitsIn : (limit : ℕ) (line : Text) → FitsIn limit (limited limit line)
unfolding limited
limited-FitsIn limit [] = tt
limited-FitsIn limit (c ∷ cs) = elim (Bool-cases (leb (length (c ∷ cs)) limit)) [
  | inl e ↦ rw e (omega arith, ground arith)
  | inr e ↦ rw e (
      cut_at_word-FitsIn limit (take limit (c ∷ cs))
        (rw (length-take limit (c ∷ cs)) (omega arith)))
]

-- A title has at least one character and at most `limit`, whatever the text is.
pub first_line-FitsIn : (text : Text) (limit : ℕ) → FitsIn limit (first_line text limit)
unfolding first_line
first_line-FitsIn text limit =
    if_both (FitsIn limit) (is_nil (trim text)) tt
      (limited-FitsIn limit (join_words (words (trim (first_text_line (trim text))))))
