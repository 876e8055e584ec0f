-- ===== src/Bridge/Rows/Distinct.antt =====
-- bridge/src/hub.rs: no two rows are of one tool and project.
use cydrust.Prelude.{
  ℕ, zero, suc, ◌≡◌, ◌≢◌, ap, subst, sym, ◌∙◌, inl, inr, true, false, ◌&&◌, List, [], ◌∷◌, All,
  take, Bool-cases, Option-cases, if_both,
}
use mathlib.Core.Bool.{false≢true}
use cydrust.Proto.Model.{Bytes}
use cydrust.Proto.Same.{same_bytes}
use cydrust.Proto.Reflexive.{same_bytes_refl}
use cydrust.Bridge.Map.{Map}
use cydrust.Bridge.Model.{Float, SessionRow}
use cydrust.Bridge.State.{Inner, snapshot}
use cydrust.Bridge.Rows.{
  Derived, Groups, max_sessions, cmp_row, insert_row, sort_rows, derive_all, push_group, group_all,
  with_representative, representative, group_row, group_rows, derive_rows,
}
use cydrust.Bridge.Rows.Order.{insert_row-gt, insert_row-le, Ordering-cases}
use cydrust.Bridge.Rows.Group.{insert_row-All, sort_rows-All, take-All}

abbrev pub key_of : SessionRow → Bytes × Bytes
key_of r = (r.tool, r.project)

-- no two keys of the list are the same
abbrev pub AreDistinct : {A : Type 0} → (A → Bytes × Bytes) → List A → Type 0
AreDistinct key [] = Unit
AreDistinct key (x ∷ xs) = All (λ y. key x ≢ key y) xs × AreDistinct key xs

All-map :
    {A : Type 0} (P Q : A → Type 0) (xs : List A) (f : (x : A) → P x → Q x) → All P xs → All Q xs
All-map P Q [] f a = tt
All-map P Q (x ∷ xs) f a = (f x a.0, All-map P Q xs f a.1)

insert_row-AreDistinct :
    (x : SessionRow) (rows : List SessionRow)
    → All (λ y. key_of x ≢ key_of y) rows
    → AreDistinct key_of rows
    → AreDistinct key_of (insert_row x rows)
insert_row-AreDistinct x [] a h = unfold insert_row in (tt, tt)
insert_row-AreDistinct x (y ∷ rows) a h = elim (Ordering-cases (cmp_row x y)) [
  | inl e ↦ subst (AreDistinct key_of) (sym (insert_row-gt x y rows e)) (
    insert_row-All (λ z. key_of y ≢ key_of z) x rows (λ q. a.0 (sym q)) h.0,
    insert_row-AreDistinct x rows a.1 h.1,
  )
  | inr e ↦ subst (AreDistinct key_of) (sym (insert_row-le x y rows e)) (a, h)
]

sort_rows-AreDistinct :
    (rows : List SessionRow) → AreDistinct key_of rows → AreDistinct key_of (sort_rows rows)
unfolding sort_rows
sort_rows-AreDistinct [] h = tt
sort_rows-AreDistinct (x ∷ rows) h =
    insert_row-AreDistinct x (sort_rows rows) (sort_rows-All (λ y. key_of x ≢ key_of y) rows h.0)
      (sort_rows-AreDistinct rows h.1)

take-AreDistinct :
    (n : ℕ) (rows : List SessionRow) → AreDistinct key_of rows → AreDistinct key_of (take n rows)
take-AreDistinct zero rows h = tt
take-AreDistinct (suc n) [] h = tt
take-AreDistinct (suc n) (x ∷ rows) h =
    (take-All (λ y. key_of x ≢ key_of y) n rows h.0, take-AreDistinct n rows h.1)

-- Two keys that the test tells apart differ.
differ : (k j : Bytes × Bytes) → (same_bytes k.0 j.0 && same_bytes k.1 j.1) ≡ false → k ≢ j
differ k j e q =
    let same = ap (λ x. same_bytes k.0 x.0 && same_bytes k.1 x.1) q in
    let own : (same_bytes k.0 k.0 && same_bytes k.1 k.1) ≡ true =
      rw (same_bytes_refl k.0, same_bytes_refl k.1) in
    false≢true (sym e ∙ (sym same ∙ own))

module _ {F : Type 0} (f : Float F) where
  push_group-keys :
      (P : Bytes × Bytes → Type 0) (gs : Groups F) (d : Derived F)
      → All (λ g. P g.0) gs
      → P (d.tool, d.project)
      → All (λ g. P g.0) (push_group f gs d)
  unfolding push_group
  push_group-keys P [] d a p = (p, tt)
  push_group-keys P ((k, ds) ∷ gs) d a p =
      if_both (All (λ g. P g.0)) (same_bytes k.0 d.tool && same_bytes k.1 d.project) a
        (a.0, push_group-keys P gs d a.1 p)

  push_group-AreDistinct :
      (gs : Groups F) (d : Derived F)
      → AreDistinct (λ g. g.0) gs
      → AreDistinct (λ g. g.0) (push_group f gs d)
  unfolding push_group
  push_group-AreDistinct [] d h = (tt, tt)
  push_group-AreDistinct ((k, ds) ∷ gs) d h =
      elim (Bool-cases (same_bytes k.0 d.tool && same_bytes k.1 d.project)) [
        | inl e ↦ rw e h
        | inr e ↦ rw e (
          push_group-keys (λ j. k ≢ j) gs d h.0 (differ k (d.tool, d.project) e),
          push_group-AreDistinct gs d h.1,
        )
      ]

  group_all-AreDistinct :
      (gs : Groups F) (ds : List (Derived F))
      → AreDistinct (λ g. g.0) gs
      → AreDistinct (λ g. g.0) (group_all f gs ds)
  unfolding group_all
  group_all-AreDistinct gs [] h = h
  group_all-AreDistinct gs (d ∷ ds) h =
      group_all-AreDistinct (push_group f gs d) ds (push_group-AreDistinct gs d h)

  -- The rows of the groups have their keys.
  group_rows-keys :
      (P : Bytes × Bytes → Type 0) (titles : Map Bytes) (gs : Groups F)
      → All (λ g. P g.0) gs
      → All (λ r. P (key_of r)) (group_rows f titles gs)
  unfolding group_rows with_representative group_row
  group_rows-keys P titles [] a = tt
  group_rows-keys P titles ((key, grp) ∷ gs) a = elim (Option-cases (representative f grp)) [
    | inl e ↦ rw e (group_rows-keys P titles gs a.1)
    | inr (rep, e) ↦ rw e (a.0, group_rows-keys P titles gs a.1)
  ]

  group_rows-AreDistinct :
      (titles : Map Bytes) (gs : Groups F)
      → AreDistinct (λ g. g.0) gs
      → AreDistinct key_of (group_rows f titles gs)
  unfolding group_rows with_representative group_row
  group_rows-AreDistinct titles [] h = tt
  group_rows-AreDistinct titles ((key, grp) ∷ gs) h = elim (Option-cases (representative f grp)) [
    | inl e ↦ rw e (group_rows-AreDistinct titles gs h.1)
    | inr (rep, e) ↦
        rw e (group_rows-keys (λ j. key ≢ j) titles gs h.0, group_rows-AreDistinct titles gs h.1)
  ]

  -- Whatever the store holds, no two of the rows are of one tool and one project.
  pub derive_rows-AreDistinct :
      (titles : Map Bytes) (now : F) (store : Inner F)
      → AreDistinct key_of (derive_rows f titles now store)
  unfolding derive_rows
  derive_rows-AreDistinct titles now store =
      let gs = group_all f [] (derive_all f now (snapshot f store)) in
      take-AreDistinct max_sessions (sort_rows (group_rows f titles gs)) (
        sort_rows-AreDistinct (group_rows f titles gs) (
          group_rows-AreDistinct titles gs
            (group_all-AreDistinct [] (derive_all f now (snapshot f store)) tt)))
