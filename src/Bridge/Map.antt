-- ===== src/Bridge/Map.antt =====
-- std's `HashMap<String, V>` as the bridge uses it: a list of pairs. The order of the list stands
-- for the map's order of iteration, which is not specified.
pub mod Find
use cydrust.Prelude.{
  ℕ, ◌≡◌, refl, ◌≢◌, ◌↔◌, Bool, true, false, not, ◌&&◌, Option, none, some, List, [], ◌∷◌, inl, inr,
  arith, ◌==◌, ==_iff, if◌then◌else◌, filter, Bool-cases, sym, ◌∙◌, ap,
}
use cydrust.Proto.Model.{Bytes}
use cydrust.Proto.Same.{same_list, same_bytes}
use cydrust.Proto.Reflexive.{same_bytes_refl}

pub same_bytes→≡ : (a b : Bytes) → same_bytes a b ≡ true → a ≡ b
unfolding same_list
same_bytes→≡ [] [] h = refl
same_bytes→≡ (x ∷ a) (y ∷ b) h =
    let e : x ≡ y = ground arith in
    let r : same_bytes a b ≡ true = ground arith in rw (e, same_bytes→≡ a b r)
same_bytes→≡ [] (y ∷ b) h = cc
same_bytes→≡ (x ∷ a) [] h = cc

abbrev pub Map : Type 0 → Type 0
Map V = List (Bytes × V)

module _ {V : Type 0} where
  unfoldable pub find : Map V → Bytes → Option V
  find [] k = none
  find ((j, v) ∷ m) k = if same_bytes j k then some v else find m k

  unfoldable pub insert : Map V → Bytes → V → Map V
  insert [] k v = (k, v) ∷ []
  insert ((j, w) ∷ m) k v =
      let rest = insert m k v in if same_bytes j k then (j, v) ∷ m else (j, w) ∷ rest

  -- `if let Some(v) = m.get_mut(k) { ... }`
  unfoldable pub modify : Map V → Bytes → (V → V) → Map V
  modify [] k f = []
  modify ((j, w) ∷ m) k f =
      let rest = modify m k f in if same_bytes j k then (j, f w) ∷ m else (j, w) ∷ rest

  unfoldable pub retain : (Bytes → V → Bool) → Map V → Map V
  retain p [] = []
  retain p ((j, w) ∷ m) = let rest = retain p m in if p j w then (j, w) ∷ rest else rest

  -- no key occurs twice
  abbrev pub IsMap : Map V → Type 0
  IsMap [] = Unit
  IsMap ((j, w) ∷ m) = (find m j ≡ none) × IsMap m
