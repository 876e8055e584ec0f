-- ===== src/Bridge/Map/Find.antt =====
-- std's `HashMap`: what each operation does to a key.
use cydrust.Prelude.{
  ◌≡◌, refl, Bool, true, false, Option, none, some, [], ◌∷◌, inl, inr, arith, if◌then◌else◌,
  Bool-cases, sym,
}
use cydrust.Proto.Model.{Bytes}
use cydrust.Proto.Same.{same_bytes}
use cydrust.Proto.Reflexive.{same_bytes_refl}
use cydrust.Bridge.Map.{Map, find, insert, modify, retain, IsMap, same_bytes→≡}

-- `Option::filter`
abbrev pub keep {ℓ} : {A : Type ℓ} → (A → Bool) → Option A → Option A
keep p none = none
keep p (some a) = if p a then some a else none

abbrev pub map_option {ℓ} : {A : Type ℓ} → (A → A) → Option A → Option A
map_option f none = none
map_option f (some a) = some (f a)

-- equal keys have the same test, and of two keys that differ only one can be a third
same_bytes-agree : (i k j : Bytes) → same_bytes i k ≡ true → same_bytes i j ≡ same_bytes k j
same_bytes-agree i k j e = rw (same_bytes→≡ i k e)

same_bytes-differ :
    (i k j : Bytes) → same_bytes i k ≡ false → same_bytes k j ≡ true → same_bytes i j ≡ false
same_bytes-differ i k j h e = rw (sym (same_bytes→≡ k j e)) h

module _ {V : Type 0} where
  pub find-insert :
      (m : Map V) (k : Bytes) (v : V) (j : Bytes)
      → find (insert m k v) j ≡ (if same_bytes k j then some v else find m j)
  unfolding find insert
  find-insert [] k v j = refl
  find-insert ((i, w) ∷ m) k v j =
      let rest = find-insert m k v j in
      let agree = same_bytes-agree i k j in let differ = same_bytes-differ i k j in ground arith

  pub find-modify :
      (m : Map V) (k : Bytes) (f : V → V) (j : Bytes)
      → find (modify m k f) j ≡ (if same_bytes k j then map_option f (find m j) else find m j)
  unfolding find modify
  find-modify [] k f j = elim (Bool-cases (same_bytes k j)) [ inl e ↦ rw e | inr e ↦ rw e ]
  find-modify ((i, w) ∷ m) k f j =
      let rest = find-modify m k f j in
      let agree = same_bytes-agree i k j in let differ = same_bytes-differ i k j in ground arith

  retain-none :
      (p : Bytes → V → Bool) (m : Map V) (j : Bytes) → find m j ≡ none → find (retain p m) j ≡ none
  unfolding find retain
  retain-none p [] j h = refl
  retain-none p ((i, w) ∷ m) j h = let rest = retain-none p m j in ground arith

  pub find-retain :
      (p : Bytes → V → Bool) (m : Map V) (j : Bytes)
      → IsMap m
      → find (retain p m) j ≡ keep (p j) (find m j)
  unfolding find retain
  find-retain p [] j h = refl
  find-retain p ((i, w) ∷ m) j h = elim (Bool-cases (same_bytes i j)) [
    | inl e ↦
        let same = same_bytes→≡ i j e in
        let gone = retain-none p m j (rw (sym same) h.0) in
        let here : p i w ≡ p j w = rw same in ground arith
    | inr e ↦ let rest = find-retain p m j h.1 in ground arith
  ]

  pub insert-IsMap : (m : Map V) (k : Bytes) (v : V) → IsMap m → IsMap (insert m k v)
  unfolding find insert
  insert-IsMap [] k v h = (refl, tt)
  insert-IsMap ((i, w) ∷ m) k v h =
      let rest = insert-IsMap m k v h.1 in
      let absent = find-insert m k v i in
      let flip = same_bytes-agree k i k in let same = same_bytes_refl k in ground arith

  pub modify-IsMap : (m : Map V) (k : Bytes) (f : V → V) → IsMap m → IsMap (modify m k f)
  unfolding find modify
  modify-IsMap [] k f h = tt
  modify-IsMap ((i, w) ∷ m) k f h =
      let rest = modify-IsMap m k f h.1 in
      let absent = find-modify m k f i in
      let flip = same_bytes-agree k i k in let same = same_bytes_refl k in ground arith

  pub retain-IsMap : (p : Bytes → V → Bool) (m : Map V) → IsMap m → IsMap (retain p m)
  unfolding find retain
  retain-IsMap p [] h = tt
  retain-IsMap p ((i, w) ∷ m) h =
      let rest = retain-IsMap p m h.1 in let absent = retain-none p m i h.0 in ground arith
