-- ===== src/Bridge/Rows/Order.antt =====
-- bridge/src/hub.rs: the order of the rows and their number.
use Prim.Native.Nat.{Ordering}
use cydrust.Prelude.{
  ℕ, zero, suc, ◌≤◌, ◌<◌, ◌≡◌, refl, subst, sym, ◌⊎◌, inl, inr, List, [], ◌∷◌, arith, take, length,
  length-take,
}
use cydrust.Proto.Model.{Bytes}
use cydrust.Bridge.Map.{Map}
use cydrust.Bridge.Model.{Float, SessionRow}
use cydrust.Bridge.State.{Inner, snapshot}
use cydrust.Bridge.Rows.{
  max_sessions, status_rank, cmp_row, insert_row, sort_rows, derive_rows, group_rows, group_all,
  derive_all,
}

-- waiting rows before working ones and those before idle ones, and among these the younger first
abbrev pub InOrder : SessionRow → SessionRow → Type 0
InOrder a b =
    (status_rank a.status < status_rank b.status)
    ⊎ ((status_rank a.status ≡ status_rank b.status) × (a.age_sec ≤ b.age_sec))

abbrev Before : SessionRow → List SessionRow → Type 0
Before a [] = Unit
Before a (b ∷ rows) = InOrder a b

-- each row and the next are in order
abbrev pub IsOrdered : List SessionRow → Type 0
IsOrdered [] = Unit
IsOrdered (a ∷ rows) = Before a rows × IsOrdered rows

cmp_row-gt : (a b : SessionRow) → cmp_row a b ≡ Ordering.gt → InOrder b a
unfolding cmp_row
cmp_row-gt a b h = ground arith

cmp_row-lt : (a b : SessionRow) → cmp_row a b ≡ Ordering.lt → InOrder a b
unfolding cmp_row
cmp_row-lt a b h = ground arith

cmp_row-eq : (a b : SessionRow) → cmp_row a b ≡ Ordering.eq → InOrder a b
unfolding cmp_row
cmp_row-eq a b h = ground arith

pub Ordering-cases : (o : Ordering) → (o ≡ Ordering.gt) ⊎ ((o ≡ Ordering.lt) ⊎ (o ≡ Ordering.eq))
Ordering-cases Ordering.gt = inl refl
Ordering-cases Ordering.lt = inr (inl refl)
Ordering-cases Ordering.eq = inr (inr refl)

pub insert_row-gt :
    (x y : SessionRow) (rows : List SessionRow)
    → cmp_row x y ≡ Ordering.gt
    → insert_row x (y ∷ rows) ≡ y ∷ insert_row x rows
unfolding insert_row
insert_row-gt x y rows e = rw (e, insert_row)

pub insert_row-le :
    (x y : SessionRow) (rows : List SessionRow)
    → (cmp_row x y ≡ Ordering.lt) ⊎ (cmp_row x y ≡ Ordering.eq)
    → insert_row x (y ∷ rows) ≡ x ∷ y ∷ rows
unfolding insert_row
insert_row-le x y rows (inl e) = rw (e, insert_row)
insert_row-le x y rows (inr e) = rw (e, insert_row)

cmp_row-le :
    (a b : SessionRow) → (cmp_row a b ≡ Ordering.lt) ⊎ (cmp_row a b ≡ Ordering.eq) → InOrder a b
cmp_row-le a b (inl e) = cmp_row-lt a b e
cmp_row-le a b (inr e) = cmp_row-eq a b e

insert_row-Before :
    (y x : SessionRow) (rows : List SessionRow)
    → InOrder y x
    → Before y rows
    → Before y (insert_row x rows)
insert_row-Before y x [] h b = unfold insert_row in h
insert_row-Before y x (z ∷ rows) h b = elim (Ordering-cases (cmp_row x z)) [
  | inl e ↦ subst (Before y) (sym (insert_row-gt x z rows e)) b
  | inr e ↦ subst (Before y) (sym (insert_row-le x z rows e)) h
]

insert_row-IsOrdered :
    (x : SessionRow) (rows : List SessionRow) → IsOrdered rows → IsOrdered (insert_row x rows)
insert_row-IsOrdered x [] h = unfold insert_row in (tt, tt)
insert_row-IsOrdered x (y ∷ rows) h = elim (Ordering-cases (cmp_row x y)) [
  | inl e ↦
      subst IsOrdered (sym (insert_row-gt x y rows e))
        (insert_row-Before y x rows (cmp_row-gt x y e) h.0, insert_row-IsOrdered x rows h.1)
  | inr e ↦ subst IsOrdered (sym (insert_row-le x y rows e)) (cmp_row-le x y e, h)
]

pub sort_rows-IsOrdered : (rows : List SessionRow) → IsOrdered (sort_rows rows)
unfolding sort_rows
sort_rows-IsOrdered [] = tt
sort_rows-IsOrdered (x ∷ rows) = insert_row-IsOrdered x (sort_rows rows) (sort_rows-IsOrdered rows)

take-IsOrdered : (n : ℕ) (rows : List SessionRow) → IsOrdered rows → IsOrdered (take n rows)
take-IsOrdered zero rows h = tt
take-IsOrdered (suc n) [] h = tt
take-IsOrdered (suc zero) (a ∷ rows) h = (tt, tt)
take-IsOrdered (suc (suc n)) (a ∷ []) h = (tt, tt)
take-IsOrdered (suc (suc n)) (a ∷ b ∷ rows) h = (h.0, take-IsOrdered (suc n) (b ∷ rows) h.1)

-- Whatever the store holds, the rows are at most 100; waiting sessions come first, then working
-- ones, then idle ones, and among those of one status the younger come first.
pub derive_rows-IsOrdered :
    {F : Type 0} (f : Float F) (titles : Map Bytes) (now : F) (store : Inner F)
    → IsOrdered (derive_rows f titles now store) × (length (derive_rows f titles now store) ≤ 100)
unfolding derive_rows
derive_rows-IsOrdered f titles now store =
    let all =
      sort_rows (group_rows f titles (group_all f [] (derive_all f now (snapshot f store)))) in
    let sorted =
      sort_rows-IsOrdered
        (group_rows f titles (group_all f [] (derive_all f now (snapshot f store)))) in
    let cut = length-take max_sessions all in
    (take-IsOrdered max_sessions all sorted, omega (arith, cut))
