-- ===== src/Tree.antt =====
-- std's `BTreeMap<String, V>`: a list of pairs in the order of the keys, and `HashSet<String>`.
use cydrust.Prelude.{
  ℕ, Bool, true, false, ◌||◌, Option, none, some, List, [], ◌∷◌, if◌then◌else◌, ltb, ◌==◌,
}
use cydrust.Proto.Model.{Bytes}
use cydrust.Proto.Same.{same_bytes}
pub mod Sum

-- the order of `str`
unfoldable pub before : Bytes → Bytes → Bool
before [] [] = false
before [] (d ∷ t) = true
before (c ∷ s) [] = false
before (c ∷ s) (d ∷ t) = let rest = before s t in if c == d then rest else ltb c d

abbrev pub Tree : Type 0 → Type 0
Tree V = List (Bytes × V)

module _ {V : Type 0} where
  -- `entry(k).or_default()`, and a change of the value there
  unfoldable pub entry : Bytes → V → (V → V) → Tree V → Tree V
  entry k d f [] = (k, f d) ∷ []
  entry k d f ((j, v) ∷ t) =
      let rest = entry k d f t in
      if same_bytes j k
      then (j, f v) ∷ t
      else if before k j
      then (k, f d) ∷ (j, v) ∷ t
      else (j, v) ∷ rest

-- `HashSet::contains`
unfoldable pub seen : List Bytes → Bytes → Bool
seen [] k = false
seen (j ∷ js) k = same_bytes j k || seen js k
