-- ===== src/Collect/Codex/Uuid.antt =====
-- bridge/src/collector_codex.rs: the session id in the name of a rollout.
use cydrust.Prelude.{
  ℕ, zero, suc, ◌+◌, ◌≡◌, refl, sym, ap, ◌∙◌, Bool, true, false, not, ◌&&◌, none, some, List, [],
  ◌∷◌, ◌++◌, arith, inl, inr, if◌then◌else◌, ◌==◌, length, length-append, take, drop, replicate,
  Bool-cases,
}
use cydrust.Proto.Model.{Bytes}
use cydrust.Collect.Codex.{
  is_hex, hex_run, after_dash, dash_size, match_groups, groups, find_uuid, uuid_from_stem,
}

-- what stands at each place: a hex digit, or a dash
unfoldable pub fits : List Bool → Bytes → Bool
unfolding is_hex
fits [] s = true
fits (p ∷ ps) [] = false
fits (p ∷ ps) (c ∷ s) = (if p then is_hex c else c == b'-') && fits ps s

abbrev dash : Bool → List Bool
dash true = []
dash false = false ∷ []

abbrev hexes : ℕ → List Bool
hexes n = replicate n true

-- the places of some groups
abbrev places : Bool → List ℕ → List Bool
places first [] = []
places first (g ∷ gs) = dash first ++ (hexes g ++ places false gs)

-- 8-4-4-4-12 hex digits
abbrev pub uuid_places : List Bool
uuid_places = places true groups

abbrev pub IsUuid : Bytes → Type 0
IsUuid u = (length u ≡ 36) × (fits uuid_places u ≡ true)

-- no eight hex digits in a row
unfoldable pub is_clear : Bytes → Bool
is_clear [] = true
is_clear (c ∷ s) = not (fits (hexes 8) (c ∷ s)) && is_clear s

fits-append :
    (p q : List Bool) (s : Bytes) → fits (p ++ q) s ≡ (fits p s && fits q (drop (length p) s))
unfolding fits
fits-append [] q s = refl
fits-append (b ∷ p) q [] = refl
fits-append (b ∷ p) q (c ∷ s) = let rest = fits-append p q s in ground arith

fits-hex_run : (n : ℕ) (s : Bytes) → (hex_run n s == n) ≡ fits (hexes n) s
unfolding fits hex_run
fits-hex_run zero s = refl
fits-hex_run (suc n) [] = ground arith
fits-hex_run (suc n) (c ∷ s) = let rest = fits-hex_run n s in ground arith

length-hexes : (n : ℕ) → length (hexes n) ≡ n
length-hexes zero = refl
length-hexes (suc n) = ap suc (length-hexes n)

-- what the places of a group and of those after it ask of a text
fits-group :
    (g : ℕ) (gs : List ℕ) (t : Bytes)
    → fits (hexes g ++ places false gs) t
      ≡ ((hex_run g t == g) && fits (places false gs) (drop g t))
fits-group g gs t = rw (fits-append (hexes g) (places false gs) t, length-hexes g, fits-hex_run g t)

length-group :
    (g : ℕ) (gs : List ℕ) → length (hexes g ++ places false gs) ≡ g + length (places false gs)
length-group g gs = rw (length-append (hexes g) (places false gs), length-hexes g)

-- a match from behind the dash on
match_group :
    (first : Bool) (g : ℕ) (gs : List ℕ) (s t : Bytes) (n : ℕ)
    → n ≡ dash_size first + (g + length (places false gs))
    → after_dash first s ≡ some t
    → match_groups false gs (drop g t)
      ≡ (if fits (places false gs) (drop g t) then some (length (places false gs)) else none)
    → match_groups first (g ∷ gs) s ≡ (if fits (hexes g ++ places false gs) t then some n else none)
unfolding match_groups
match_group first g gs s t n size e ih = rw (fits-group g gs t) (
    rw (e, match_groups)
      (elim (Bool-cases (hex_run g t == g)) [
        | inl h ↦ elim (Bool-cases (fits (places false gs) (drop g t))) [
          | inl k ↦
              let found : match_groups false gs (drop g t) ≡ some (length (places false gs)) =
                rw k at ih in
              rw (h, k, found) (ap some (omega (arith, size)))
          | inr k ↦
              let lost : match_groups false gs (drop g t) ≡ none = rw k at ih in rw (h, k, lost)
        ]
        | inr h ↦ rw h
      ]))

match_groups_lem :
    (first : Bool) (gs : List ℕ) (s : Bytes)
    → match_groups first gs s
      ≡ (if fits (places first gs) s then some (length (places first gs)) else none)
unfolding match_groups fits
match_groups_lem first [] s = refl
match_groups_lem true (g ∷ gs) s =
    match_group true g gs s s _ (omega (arith, length-group g gs)) refl
      (match_groups_lem false gs (drop g s))
match_groups_lem false (g ∷ gs) [] = refl
match_groups_lem false (g ∷ gs) (c ∷ s) = elim (Bool-cases (c == b'-')) [
  | inl e ↦
      match_group false g gs (c ∷ s) s (length (places false (g ∷ gs)))
        (omega (arith, length-group g gs)) (rw e) (match_groups_lem false gs (drop g s))
      ∙ rw e
  | inr e ↦ rw (e, match_groups)
]

take-length-append : (u s : Bytes) → take (length u) (u ++ s) ≡ u
take-length-append [] s = refl
take-length-append (c ∷ u) s = rw (take-length-append u s)

fits-longer : (p : List Bool) (u s : Bytes) → fits p u ≡ true → fits p (u ++ s) ≡ true
unfolding fits
fits-longer [] u s h = refl
fits-longer (b ∷ p) [] s h = cc
fits-longer (b ∷ p) (c ∷ u) s h = let rest = fits-longer p u s in ground arith

-- A dash ends a run of hex digits as the end of the text does.
hexes-dash : (n : ℕ) (a s : Bytes) → fits (hexes n) (a ++ b'-' ∷ s) ≡ fits (hexes n) a
unfolding fits
hexes-dash zero a s = refl
hexes-dash (suc n) [] s = refl
hexes-dash (suc n) (c ∷ a) s = rw (hexes-dash n a s)

-- no id starts where no eight hex digits do
find_uuid_skip :
    (c : ℕ) (s : Bytes) → fits (hexes 8) (c ∷ s) ≡ false → find_uuid (c ∷ s) ≡ find_uuid s
unfolding find_uuid
find_uuid_skip c s h =
    let asked = fits-append (hexes 8) (places false (4 ∷ 4 ∷ 4 ∷ 12 ∷ [])) (c ∷ s) in
    let none_here : match_groups true groups (c ∷ s) ≡ none =
      match_groups_lem true groups (c ∷ s) ∙ rw (asked, h) refl in
    rw (none_here, find_uuid)

find_uuid_here : (u s : Bytes) → IsUuid u → find_uuid (u ++ s) ≡ some u
unfolding find_uuid
find_uuid_here [] s (n, h) = absurd (omega (arith, n))
find_uuid_here (c ∷ u) s (n, h) =
    let here : match_groups true groups (c ∷ u ++ s) ≡ some 36 =
      match_groups_lem true groups (c ∷ u ++ s) ∙ rw (fits-longer uuid_places (c ∷ u) s h) in
    let cut : take 36 (c ∷ u ++ s) ≡ c ∷ u =
      ap (λ k. take k (c ∷ u ++ s)) (sym n) ∙ take-length-append (c ∷ u) s in
    rw (here, find_uuid) (ap some cut)

dash-none : (s : Bytes) → fits (hexes 8) (b'-' ∷ s) ≡ false
unfolding fits
dash-none s = refl

find_uuid_after :
    (a u s : Bytes) → is_clear a ≡ true → IsUuid u → find_uuid (a ++ b'-' ∷ (u ++ s)) ≡ some u
unfolding is_clear
find_uuid_after [] u s k h =
    find_uuid_skip b'-' (u ++ s) (dash-none (u ++ s)) ∙ find_uuid_here u s h
find_uuid_after (c ∷ a) u s k h = elim (Bool-cases (fits (hexes 8) (c ∷ a))) [
  | inl e ↦ let same : false ≡ true = rw (e, is_clear) at k in cc
  | inr e ↦
      find_uuid_skip c (a ++ b'-' ∷ (u ++ s)) (hexes-dash 8 (c ∷ a) (u ++ s) ∙ e)
      ∙ find_uuid_after a u s (rw (e, is_clear) at k) h
]

-- A session id is read back from a name that ends in it behind a dash, whatever comes before,
-- as long as that has no eight hex digits in a row; and what may follow does not matter.
pub uuid_from_stem-uuid :
    (a u s : Bytes) → is_clear a ≡ true → IsUuid u → uuid_from_stem (a ++ b'-' ∷ (u ++ s)) ≡ u
unfolding uuid_from_stem
uuid_from_stem-uuid a u s k h = rw (find_uuid_after a u s k h, uuid_from_stem)
