-- ===== src/Bridge/Rows/Group.antt =====
-- bridge/src/hub.rs: the flag of a row that waits, against its status.
use cydrust.Prelude.{
  ℕ, zero, suc, ◌≡◌, refl, subst, sym, ◌∙◌, inl, inr, Bool, ◌&&◌, Option, none, some, List, [], ◌∷◌,
  arith, All, any, take, ◌==◌, if_both,
}
use cydrust.Proto.Model.{Bytes}
use cydrust.Proto.Same.{same_bytes}
use cydrust.Bridge.Map.{Map}
use cydrust.Bridge.Model.{Float, Status, Session, SessionRow}
use cydrust.Bridge.State.{Inner, snapshot}
use cydrust.Bridge.Rows.{
  Derived, Groups, max_sessions, status_rank, status_of_rank, best_rank, cmp_row, insert_row,
  sort_rows, derive, derive_all, append_to, push_group, group_all, push_some, with_representative,
  representative, group_row, group_rows, derive_rows,
}
use cydrust.Bridge.Rows.Order.{insert_row-gt, insert_row-le, Ordering-cases}

-- the status is `Waiting` exactly where the flag is set
abbrev pub Agrees : Bool → Status → Type 0
Agrees flag status = flag ≡ (status_rank status == 0)

abbrev pub RowAgrees : SessionRow → Type 0
RowAgrees r = Agrees r.waiting r.status

abbrev DerivedAgrees : {F : Type 0} → Derived F → Type 0
DerivedAgrees d = Agrees d.waiting d.status

abbrev GroupAgrees : {F : Type 0} → (Bytes × Bytes) × List (Derived F) → Type 0
GroupAgrees g = All DerivedAgrees g.1

pub insert_row-All :
    (P : SessionRow → Type 0) (x : SessionRow) (rows : List SessionRow)
    → P x
    → All P rows
    → All P (insert_row x rows)
insert_row-All P x [] h a = unfold insert_row in (h, tt)
insert_row-All P x (y ∷ rows) h a = elim (Ordering-cases (cmp_row x y)) [
  | inl e ↦ subst (All P) (sym (insert_row-gt x y rows e)) (a.0, insert_row-All P x rows h a.1)
  | inr e ↦ subst (All P) (sym (insert_row-le x y rows e)) (h, a)
]

pub sort_rows-All :
    (P : SessionRow → Type 0) (rows : List SessionRow) → All P rows → All P (sort_rows rows)
unfolding sort_rows
sort_rows-All P [] a = tt
sort_rows-All P (x ∷ rows) a = insert_row-All P x (sort_rows rows) a.0 (sort_rows-All P rows a.1)

pub take-All :
    (P : SessionRow → Type 0) (n : ℕ) (rows : List SessionRow) → All P rows → All P (take n rows)
take-All P zero rows a = tt
take-All P (suc n) [] a = tt
take-All P (suc n) (x ∷ rows) a = (a.0, take-All P n rows a.1)

-- The best rank of a group is that of waiting exactly where one of its sessions waits.
best_rank-any :
    {F : Type 0} (grp : List (Derived F))
    → All DerivedAgrees grp
    → any (λ d. d.waiting) grp ≡ (best_rank grp == 0)
unfolding best_rank
best_rank-any [] a = refl
best_rank-any (d ∷ grp) a = let rest = best_rank-any grp a.1 in let first = a.0 in ground arith

rank_of : (n : ℕ) → (status_rank (status_of_rank n) == 0) ≡ (n == 0)
unfolding status_of_rank
rank_of zero = refl
rank_of (suc zero) = refl
rank_of (suc (suc n)) = ground arith

module _ {F : Type 0} (f : Float F) where
  derive-DerivedAgrees :
      (now : F) (s : Session F) (rest : List (Derived F))
      → All DerivedAgrees rest
      → All DerivedAgrees (push_some (derive f now s) rest)
  unfolding derive
  derive-DerivedAgrees now s rest a = ground arith

  derive_all-DerivedAgrees :
      (now : F) (ss : List (Session F)) → All DerivedAgrees (derive_all f now ss)
  unfolding derive_all
  derive_all-DerivedAgrees now [] = tt
  derive_all-DerivedAgrees now (s ∷ ss) =
      derive-DerivedAgrees now s (derive_all f now ss) (derive_all-DerivedAgrees now ss)

  append_to-DerivedAgrees :
      (ds : List (Derived F)) (d : Derived F)
      → All DerivedAgrees ds
      → DerivedAgrees d
      → All DerivedAgrees (append_to f ds d)
  unfolding append_to
  append_to-DerivedAgrees [] d a h = (h, tt)
  append_to-DerivedAgrees (x ∷ ds) d a h = (a.0, append_to-DerivedAgrees ds d a.1 h)

  push_group-GroupAgrees :
      (gs : Groups F) (d : Derived F)
      → All GroupAgrees gs
      → DerivedAgrees d
      → All GroupAgrees (push_group f gs d)
  unfolding push_group
  push_group-GroupAgrees [] d a h = ((h, tt), tt)
  push_group-GroupAgrees ((k, ds) ∷ gs) d a h =
      if_both (All GroupAgrees) (same_bytes k.0 d.tool && same_bytes k.1 d.project)
        (append_to-DerivedAgrees ds d a.0 h, a.1) (a.0, push_group-GroupAgrees gs d a.1 h)

  group_all-GroupAgrees :
      (gs : Groups F) (ds : List (Derived F))
      → All GroupAgrees gs
      → All DerivedAgrees ds
      → All GroupAgrees (group_all f gs ds)
  unfolding group_all
  group_all-GroupAgrees gs [] a h = a
  group_all-GroupAgrees gs (d ∷ ds) a h =
      group_all-GroupAgrees (push_group f gs d) ds (push_group-GroupAgrees gs d a h.0) h.1

  group_row-RowAgrees :
      (titles : Map Bytes) (key : Bytes × Bytes) (grp : List (Derived F)) (rep : Derived F)
      → All DerivedAgrees grp
      → RowAgrees (group_row f titles key grp rep)
  unfolding group_row
  group_row-RowAgrees titles key grp rep a = best_rank-any grp a ∙ sym (rank_of (best_rank grp))

  with_representative-RowAgrees :
      (titles : Map Bytes) (key : Bytes × Bytes) (grp : List (Derived F)) (o : Option (Derived F))
      (rest : List SessionRow)
      → All DerivedAgrees grp
      → All RowAgrees rest
      → All RowAgrees (push_some (with_representative f titles key grp o) rest)
  unfolding with_representative
  with_representative-RowAgrees titles key grp none rest a b = b
  with_representative-RowAgrees titles key grp (some rep) rest a b =
      (group_row-RowAgrees titles key grp rep a, b)

  group_rows-RowAgrees :
      (titles : Map Bytes) (gs : Groups F)
      → All GroupAgrees gs
      → All RowAgrees (group_rows f titles gs)
  unfolding group_rows
  group_rows-RowAgrees titles [] a = tt
  group_rows-RowAgrees titles ((key, grp) ∷ gs) a =
      with_representative-RowAgrees titles key grp (representative f grp) (group_rows f titles gs)
        a.0 (group_rows-RowAgrees titles gs a.1)

  -- Every row that is shown has the status of a waiting session exactly where it is flagged so,
  -- whatever sessions its group joins.
  pub derive_rows-RowAgrees :
      (titles : Map Bytes) (now : F) (store : Inner F)
      → All RowAgrees (derive_rows f titles now store)
  unfolding derive_rows
  derive_rows-RowAgrees titles now store =
      let ds = derive_all f now (snapshot f store) in
      let gs = group_all-GroupAgrees [] ds tt (derive_all-DerivedAgrees now (snapshot f store)) in
      let rows = group_rows f titles (group_all f [] ds) in
      take-All RowAgrees max_sessions (sort_rows rows)
        (sort_rows-All RowAgrees rows (group_rows-RowAgrees titles (group_all f [] ds) gs))
