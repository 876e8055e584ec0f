-- ===== src/Collect/Claude/Turn.antt =====
-- bridge/src/collector.rs: when a turn is found to be active.
use cydrust.Prelude.{
  ℕ, ◌-◌, ◌⊎◌, false, arith, leb, ltb, if◌then◌else◌, Bool-cases, subst, ◌≡◌, refl, sym, ap, ◌∙◌,
  ◌↔◌, inl, inr, true, Option, none, some, List, [], ◌∷◌, ◌++◌, All, All-append, Option-cases,
}
use mathlib.Core.List.{reverse, reverse-append, reverse-reverse, append_assoc}
use cydrust.Proto.Model.{Bytes}
use cydrust.Proto.Same.{same_bytes, same_list}
use cydrust.Bridge.Map.{same_bytes→≡}
use cydrust.Json.{Value, get_str}
use cydrust.Chars.{Text, lines, trim, is_nil}
use cydrust.Collect.Claude.{
  Transcript, tail_bytes, drop_first, lines_read, tail_of, tail_lines, speaker, parsed,
  line_speaker, look_back, detect_active_turn,
}

All-reverse {ℓ κ} : {A : Type ℓ} (P : A → Type κ) (xs : List A) → All P xs → All P (reverse xs)
All-reverse P [] h = tt
All-reverse P (x ∷ xs) h =
    rw (reverse-append (x ∷ []) xs) (All-append P (reverse xs) x (All-reverse P xs h.1) h.0)

reverse-around {ℓ} :
    {A : Type ℓ} (a b : List A) (x : A) → reverse (a ++ x ∷ b) ≡ reverse b ++ x ∷ reverse a
reverse-around a b x =
    reverse-append a (x ∷ b)
    ∙ ap (λ r. r ++ reverse a) (reverse-append (x ∷ []) b)
    ∙ append_assoc (reverse b) (x ∷ []) (reverse a)

All-map {ℓ κ} :
    {A : Type ℓ} (P Q : A → Type κ) (xs : List A) → ((x : A) → P x → Q x) → All P xs → All Q xs
All-map P Q [] f a = tt
All-map P Q (x ∷ xs) f a = (f x a.0, All-map P Q xs f a.1)

abbrev pub user_str : Bytes
user_str = (b'u' ∷ b's' ∷ b'e' ∷ b'r' ∷ [])

abbrev pub assistant_str : Bytes
assistant_str = (b'a' ∷ b's' ∷ b's' ∷ b'i' ∷ b's' ∷ b't' ∷ b'a' ∷ b'n' ∷ b't' ∷ [])

module _ {N : Type 0} (from_str : Text → Option (Value N)) where
  -- the line is not blank, and is an entry of this type
  abbrev pub HasType : Bytes → Text → Type 0
  HasType who line =
      (obj : Value N) × (is_nil (trim line) ≡ false)
      × (from_str (trim line) ≡ some obj)
      × (get_str obj (b't' ∷ b'y' ∷ b'p' ∷ b'e' ∷ []) ≡ some who)

  -- neither side speaks in the line
  abbrev pub IsSilent : Text → Type 0
  IsSilent line = ¬ HasType user_str line × ¬ HasType assistant_str line

  -- a line of the user, and no line of either side after it
  abbrev pub EndsOnUser : List Text → Type 0
  EndsOnUser lines =
      (before : List Text) × (line : Text) × (after : List Text) × (lines ≡ before ++ line ∷ after)
      × HasType user_str line
      × All IsSilent after

  -- the same for the lines backwards, as the loop reads them
  abbrev StartsOnUser : List Text → Type 0
  StartsOnUser lines =
      (after : List Text) × (line : Text) × (before : List Text) × (lines ≡ after ++ line ∷ before)
      × (line_speaker from_str line ≡ some true)
      × All (λ l. line_speaker from_str l ≡ none) after

  spoken :
      (who : Bytes) (line : Text)
      → HasType who line
      → line_speaker from_str line ≡ speaker (some who)
  unfolding line_speaker parsed
  spoken who line (obj, n, e, t) = rw (n, e, t)

  -- who speaks in a line, and in what sense
  line_speaker-cases :
      (line : Text)
      → (HasType user_str line × (line_speaker from_str line ≡ some true))
        ⊎ (HasType assistant_str line × (line_speaker from_str line ≡ some false))
        ⊎ (line_speaker from_str line ≡ none)
  unfolding line_speaker parsed
  line_speaker-cases line = elim (Bool-cases (is_nil (trim line))) [
    | inl n ↦ inr (inr (rw n))
    | inr n ↦ elim (Option-cases (from_str (trim line))) [
      | inl e ↦ inr (inr (rw (n, e)))
      | inr (obj, e) ↦ elim (Option-cases (get_str obj (b't' ∷ b'y' ∷ b'p' ∷ b'e' ∷ []))) [
        | inl t ↦ inr (inr (rw (n, e, t)))
        | inr (who, t) ↦ elim (Bool-cases (same_bytes who user_str)) [
          | inl u ↦
              inl ((obj, n, e, t ∙ ap some (same_bytes→≡ who user_str u)), rw (n, e, t) (rw u))
          | inr u ↦ elim (Bool-cases (same_bytes who assistant_str)) [
            | inl a ↦ inr (
                inl (
                  (obj, n, e, t ∙ ap some (same_bytes→≡ who assistant_str a)),
                  rw (n, e, t) (rw (u, a)),
                ))
            | inr a ↦ inr (inr (rw (n, e, t) (rw (u, a))))
          ]
        ]
      ]
    ]
  ]

  user-speaks : (line : Text) → HasType user_str line → line_speaker from_str line ≡ some true
  unfolding same_list
  user-speaks line h = spoken user_str line h

  assistant-speaks :
      (line : Text) → HasType assistant_str line → line_speaker from_str line ≡ some false
  unfolding same_list
  assistant-speaks line h = spoken assistant_str line h

  speaks-user : (line : Text) → line_speaker from_str line ≡ some true → HasType user_str line
  speaks-user line h = elim (line_speaker-cases line) [
    | inl (k, e) ↦ k
    | inr (inl (k, e)) ↦ let f : some false ≡ some true = sym e ∙ h in cc
    | inr (inr e) ↦ let f : none ≡ some true = sym e ∙ h in cc
  ]

  none-IsSilent : (line : Text) → line_speaker from_str line ≡ none → IsSilent line
  none-IsSilent line h = (
    λ k. let f : some true ≡ none = sym (user-speaks line k) ∙ h in cc,
    λ k. let f : some false ≡ none = sym (assistant-speaks line k) ∙ h in cc,
  )

  IsSilent-none : (line : Text) → IsSilent line → line_speaker from_str line ≡ none
  IsSilent-none line (u, a) = elim (line_speaker-cases line) [
    | inl (k, e) ↦ elim (u k) [ ]
    | inr (inl (k, e)) ↦ elim (a k) [ ]
    | inr (inr e) ↦ e
  ]

  look_back-user : (lines : List Text) → look_back from_str lines ≡ true → StartsOnUser lines
  unfolding look_back
  look_back-user [] h = cc
  look_back-user (line ∷ lines) h = elim (Option-cases (line_speaker from_str line)) [
    | inl e ↦
        let (a, l, b, f, g, k) = look_back-user lines (rw (e, look_back) at h) in
        (line ∷ a, l, b, ap (λ r. line ∷ r) f, g, (e, k))
    | inr (is_user, e) ↦
        let s : is_user ≡ true = rw (e, look_back) at h in
        ([], line, lines, refl, e ∙ ap some s, tt)
  ]

  user-look_back :
      (a : List Text) (l : Text) (b : List Text)
      → line_speaker from_str l ≡ some true
      → All (λ l. line_speaker from_str l ≡ none) a
      → look_back from_str (a ++ l ∷ b) ≡ true
  unfolding look_back
  user-look_back [] l b e k = rw (e, look_back)
  user-look_back (x ∷ a) l b e k = rw (k.0, look_back) (user-look_back a l b e k.1)

-- the lines that were written whole: all of a file of 64 KiB or less, and of the end of a longer
-- one all but the first
abbrev pub whole_lines : ℕ → List Text → List Text
whole_lines size [] = []
whole_lines size (first ∷ rest) = if leb size 65536 then first ∷ rest else rest

module _ {N : Type 0} (decode : Bytes → Text) (from_str : Text → Option (Value N)) where
  tail_lines-whole :
      (t : Transcript) (size : ℕ) (buf : Bytes)
      → t.size ≡ some size
      → t.read_from (size - 65536) ≡ some buf
      → tail_lines decode (some t) ≡ whole_lines size (lines (decode buf))
  unfolding tail_lines tail_of lines_read
  tail_lines-whole t size buf s r = elim (Bool-cases (ltb tail_bytes size)) [
    | inl e ↦
        let k : leb size 65536 ≡ false = ground arith in rw (s, e, r) (cut (lines (decode buf)) k)
    | inr e ↦
        let k : leb size 65536 ≡ true = ground arith in
        let z : size - 65536 ≡ 0 = ground arith in
        let r : t.read_from 0 ≡ some buf = subst (λ n. t.read_from n ≡ some buf) z r in
        rw (s, e, r) (all (lines (decode buf)) k)
  ]
    where
      cut : (ls : List Text) → leb size 65536 ≡ false → drop_first ls ≡ whole_lines size ls
      cut [] k = refl
      cut (l ∷ ls) k = rw k

      all : (ls : List Text) → leb size 65536 ≡ true → ls ≡ whole_lines size ls
      all [] k = refl
      all (l ∷ ls) k = rw k

  look_back_iff :
      (ls : List Text) → (look_back from_str (reverse ls) ≡ true) ↔ EndsOnUser from_str ls
  look_back_iff ls = (
    λ h.
        let (a, l, b, e, s, k) = look_back-user from_str (reverse ls) h in
        (
          reverse b,
          l,
          reverse a,
          sym (reverse-reverse ls) ∙ ap reverse e ∙ reverse-around a b l,
          speaks-user from_str l s,
          All-map _ _ (reverse a) (none-IsSilent from_str) (All-reverse _ a k),
        ),
    λ (b, l, a, e, s, k). rw e (
        rw (reverse-around b a l) (
          user-look_back from_str (reverse a) l (reverse b) (user-speaks from_str l s)
            (All-reverse _ a (All-map _ _ a (IsSilent-none from_str) k)))),
  )

  -- For a transcript of a known size whose last 64 KiB can be read, a turn is active exactly when
  -- the lines that were written whole have one of type `user` after which none is of type `user` or
  -- `assistant`.
  pub detect_active_turn_iff :
      (t : Transcript) (size : ℕ) (buf : Bytes)
      → t.size ≡ some size
      → t.read_from (size - 65536) ≡ some buf
      → (detect_active_turn decode from_str (some t) ≡ true)
        ↔ EndsOnUser from_str (whole_lines size (lines (decode buf)))
  unfolding detect_active_turn
  detect_active_turn_iff t size buf s r =
      rw (tail_lines-whole t size buf s r) (look_back_iff (whole_lines size (lines (decode buf))))
