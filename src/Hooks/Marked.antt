-- ===== src/Hooks/Marked.antt =====
-- bridge/src/bin/install_hooks.rs: which blocks `block_is_ours` takes for ours.
use cydrust.Prelude.{
  ◌≡◌, refl, ap, ◌∙◌, ◌↔◌, ◌⊎◌, inl, inr, Bool, ◌||◌, true, false, Option, none, some, [], ◌∷◌,
  ◌++◌, Bool-cases, Option-cases,
}
use mathlib.Core.Option.{some-injective}
use cydrust.Proto.Model.{Bytes}
use cydrust.Proto.Scan.{find_str}
use cydrust.Proto.Scan.Find.{find_str-some, find_str-++}
use cydrust.Json.{Value, null, bool, number, string, array, object, Items, nil, cons, get, as_str}
use cydrust.Hooks.{
  vibe_marker, hooks_key, command_key, is_marked, hook_is_ours, ours_in, block_is_ours,
}
use cydrust.Hooks.Arrays.{any_item}

-- the text has the marker in it
abbrev pub Mentions : Bytes → Type 0
Mentions s =
    (before : Bytes) × (after : Bytes) × (s
      ≡ before ++ ((b'v' ∷ b'i' ∷ b'b' ∷ b'e' ∷ b'_' ∷ b'h' ∷ b'o' ∷ b'o' ∷ b'k' ∷ []) ++ after))

is_marked_iff : (s : Bytes) → (is_marked s ≡ true) ↔ Mentions s
unfolding is_marked
is_marked_iff s = (
  λ h. elim (Option-cases (find_str vibe_marker s)) [
    | inl e ↦ let k : false ≡ true = rw (e, is_marked) at h in cc
    | inr (r, e) ↦ let (b, t) = find_str-some vibe_marker s r e in (b, r, t)
  ],
  λ (b, a, e). let (r, k) = find_str-++ vibe_marker b a in rw (e, k, is_marked),
)

module _ {N : Type 0} where
  abbrev pub ItemOf : Value N → Items N → Type 0
  ItemOf x nil = ⊥
  ItemOf x (cons y ys) = (y ≡ x) ⊎ ItemOf x ys

  -- one of the hooks of the block is a command with the marker in it
  abbrev pub NamesUs : Value N → Type 0
  NamesUs block =
      (hs : Items N) × (h : Value N) × (s : Bytes) × (get block
          (b'h' ∷ b'o' ∷ b'o' ∷ b'k' ∷ b's' ∷ [])
        ≡ some (array hs))
      × ItemOf h hs
      × (get h (b'c' ∷ b'o' ∷ b'm' ∷ b'm' ∷ b'a' ∷ b'n' ∷ b'd' ∷ []) ≡ some (string s))
      × Mentions s

  as_str-some : (v : Value N) (s : Bytes) → as_str v ≡ some s → v ≡ string s
  as_str-some (string t) s h = ap string (some-injective t s h)
  as_str-some null s h = cc
  as_str-some (bool b) s h = cc
  as_str-some (number n) s h = cc
  as_str-some (array xs) s h = cc
  as_str-some (object fs) s h = cc

  any_item-some :
      (p : Value N → Bool) (xs : Items N)
      → any_item p xs ≡ true
      → (x : Value N) × ItemOf x xs × (p x ≡ true)
  unfolding any_item
  any_item-some p nil h = cc
  any_item-some p (cons x xs) h = elim (Bool-cases (p x)) [
    | inl e ↦ (x, inl refl, e)
    | inr e ↦
        let k : any_item p xs ≡ true = rw (e, any_item) at h in
        let (y, i, q) = any_item-some p xs k in (y, inr i, q)
  ]

  some-any_item :
      (p : Value N → Bool) (xs : Items N) (x : Value N)
      → ItemOf x xs
      → p x ≡ true
      → any_item p xs ≡ true
  unfolding any_item
  some-any_item p nil x i h = elim i [ ]
  some-any_item p (cons y ys) x (inl e) h = let k = ap p e ∙ h in rw (k, any_item)
  some-any_item p (cons y ys) x (inr i) h = rw (some-any_item p ys x i h, any_item) (or_true (p y))
    where
      or_true : (b : Bool) → (b || true) ≡ true
      or_true true = refl
      or_true false = refl

  hook_is_ours_iff :
      (h : Value N)
      → (hook_is_ours h ≡ true) ↔ (
          (s : Bytes) × (get h (b'c' ∷ b'o' ∷ b'm' ∷ b'm' ∷ b'a' ∷ b'n' ∷ b'd' ∷ [])
            ≡ some (string s))
          × Mentions s)
  unfolding hook_is_ours
  hook_is_ours_iff h = (
    λ k. elim (Option-cases (get h command_key)) [
      | inl e ↦ let f : false ≡ true = rw (e, hook_is_ours) at k in cc
      | inr (w, e) ↦ elim (Option-cases (as_str w)) [
        | inl g ↦ let f : false ≡ true = rw (e, g, hook_is_ours) at k in cc
        | inr (s, g) ↦
            (s, e ∙ ap some (as_str-some w s g), (is_marked_iff s).0 (rw (e, g, hook_is_ours) at k))
      ]
    ],
    λ (s, e, m). rw (e, hook_is_ours) ((is_marked_iff s).1 m),
  )

  ours_in-some :
      (o : Option (Value N))
      → ours_in o ≡ true
      → (hs : Items N) × (o ≡ some (array hs)) × (any_item hook_is_ours hs ≡ true)
  unfolding ours_in
  ours_in-some none h = cc
  ours_in-some (some (array hs)) h = (hs, refl, h)
  ours_in-some (some null) h = cc
  ours_in-some (some (bool b)) h = cc
  ours_in-some (some (number n)) h = cc
  ours_in-some (some (string t)) h = cc
  ours_in-some (some (object fs)) h = cc

  -- A block is taken for ours exactly where one of its commands has the marker.
  pub block_is_ours_iff : (block : Value N) → (block_is_ours block ≡ true) ↔ NamesUs block
  unfolding block_is_ours ours_in
  block_is_ours_iff block = (
    λ k.
        let (hs, e, any) = ours_in-some (get block hooks_key) k in
        let (h, i, o) = any_item-some hook_is_ours hs any in
        let (s, c, m) = (hook_is_ours_iff h).0 o in (hs, h, s, e, i, c, m),
    λ (hs, h, s, e, i, c, m).
        rw e (some-any_item hook_is_ours hs h i ((hook_is_ours_iff h).1 (s, c, m))),
  )
