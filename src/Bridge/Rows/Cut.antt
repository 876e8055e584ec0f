-- ===== src/Bridge/Rows/Cut.antt =====
-- bridge/src/hub.rs: what sorting the rows keeps, and which rows the limit of 100 leaves out.
use cydrust.Prelude.{
  ℕ, zero, suc, ◌≤◌, ◌≡◌, refl, ap, subst, sym, ◌⊎◌, inl, inr, List, [], ◌∷◌, arith, All, take,
  length,
}
use cydrust.Bridge.Model.{SessionRow}
use cydrust.Bridge.Rows.{
  Derived, status_rank, status_of_rank, best_rank, cmp_row, insert_row, sort_rows,
}
use cydrust.Bridge.Rows.Order.{IsOrdered, insert_row-gt, insert_row-le, Ordering-cases}

-- one of the elements satisfies the predicate
abbrev pub Any : {A : Type 0} → (A → Type 0) → List A → Type 0
Any P [] = ⊥
Any P (x ∷ xs) = P x ⊎ Any P xs

-- the row is of the session's tool and project, and at least as urgent
pub record Represents {F : Type 0} (d : Derived F) (r : SessionRow) : Type 0 where
  pub tool : r.tool ≡ d.tool
  pub project : r.project ≡ d.project
  pub urgent : status_rank r.status ≤ status_rank d.status

insert_row-first :
    (P : SessionRow → Type 0) (x : SessionRow) (rows : List SessionRow)
    → P x ⊎ Any P rows
    → Any P (insert_row x rows)
insert_row-first P x [] h = unfold insert_row in h
insert_row-first P x (y ∷ rows) h = elim (Ordering-cases (cmp_row x y)) [
  | inl e ↦ subst (Any P) (sym (insert_row-gt x y rows e)) (elim h [
    | inl p ↦ inr (insert_row-first P x rows (inl p))
    | inr (inl q) ↦ inl q
    | inr (inr q) ↦ inr (insert_row-first P x rows (inr q))
  ])
  | inr e ↦ subst (Any P) (sym (insert_row-le x y rows e)) h
]

pub sort_rows-Any :
    (P : SessionRow → Type 0) (rows : List SessionRow) → Any P rows → Any P (sort_rows rows)
unfolding sort_rows
sort_rows-Any P [] h = h
sort_rows-Any P (x ∷ rows) (inl p) = insert_row-first P x (sort_rows rows) (inl p)
sort_rows-Any P (x ∷ rows) (inr q) =
    insert_row-first P x (sort_rows rows) (inr (sort_rows-Any P rows q))

pub best_rank-le :
    {F : Type 0} (d : Derived F) (grp : List (Derived F))
    → Any (λ x. x ≡ d) grp
    → best_rank grp ≤ status_rank d.status
unfolding best_rank
best_rank-le d [] h = elim h [ ]
best_rank-le d (x ∷ grp) (inl e) = let r = ap (λ y. status_rank y.status) e in omega (arith, r)
best_rank-le d (x ∷ grp) (inr q) = let rest = best_rank-le d grp q in omega (arith, rest)

pub rank_of-le : (n : ℕ) → status_rank (status_of_rank n) ≤ n
unfolding status_of_rank
rank_of-le zero = omega arith
rank_of-le (suc zero) = omega arith
rank_of-le (suc (suc n)) = omega arith

-- A row that stands before another in the order is at least as urgent.
first-le :
    (k : ℕ) (a : SessionRow) (rows : List SessionRow)
    → IsOrdered (a ∷ rows)
    → Any (λ r. status_rank r.status ≤ k) rows
    → status_rank a.status ≤ k
first-le k a [] h p = elim p [ ]
first-le k a (b ∷ rows) h (inl p) = elim h.0 [ inl l ↦ omega arith | inr e ↦ omega (arith, e.0) ]
first-le k a (b ∷ rows) h (inr q) =
    let rest = first-le k b rows h.1 q in
    elim h.0 [ inl l ↦ omega (arith, rest) | inr e ↦ omega (arith, rest, e.0) ]

Any-map :
    {A : Type 0} (P Q : A → Type 0) (xs : List A) (f : (x : A) → P x → Q x) → Any P xs → Any Q xs
Any-map P Q [] f p = elim p [ ]
Any-map P Q (x ∷ xs) f (inl p) = inl (f x p)
Any-map P Q (x ∷ xs) f (inr q) = inr (Any-map P Q xs f q)

-- What a cut leaves out is no more urgent than all that it keeps.
pub take-Any :
    {F : Type 0} (d : Derived F) (n : ℕ) (rows : List SessionRow)
    → IsOrdered rows
    → Any (Represents d) rows
    → Any (Represents d) (take n rows)
      ⊎ ((length (take n rows) ≡ n)
          × All (λ r. status_rank r.status ≤ status_rank d.status) (take n rows))
take-Any d zero rows h p = inr (refl, tt)
take-Any d (suc n) [] h p = elim p [ ]
take-Any d (suc n) (a ∷ rows) h (inl p) = inl (inl p)
take-Any d (suc n) (a ∷ rows) h (inr q) =
    let urgent =
      Any-map (Represents d) (λ r. status_rank r.status ≤ status_rank d.status) rows
        (λ r p. p.urgent) q in
    elim (take-Any d n rows h.1 q) [
      | inl p ↦ inl (inr p)
      | inr kept ↦ inr (ap suc kept.0, (first-le (status_rank d.status) a rows h urgent, kept.1))
    ]
