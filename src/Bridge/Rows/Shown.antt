-- ===== src/Bridge/Rows/Shown.antt =====
-- bridge/src/hub.rs: which sessions have a row.
use cydrust.Prelude.{
  ◌≤◌, ◌≡◌, refl, ap, subst, sym, ◌∙◌, ◌⊎◌, inl, inr, ◌&&◌, Option, none, some, List, [], ◌∷◌,
  arith, All, filter, length, Bool-cases, Option-cases, if_both,
}
use cydrust.Proto.Model.{Bytes}
use cydrust.Proto.Same.{same_bytes}
use cydrust.Bridge.Map.{Map, same_bytes→≡}
use cydrust.Bridge.Model.{Float, Session}
use cydrust.Bridge.State.{Inner, snapshot}
use cydrust.Bridge.Rows.{
  Derived, Groups, max_sessions, status_rank, best_rank, sort_rows, derive, derive_all, append_to,
  push_group, group_all, push_some, with_representative, min_by_age, youngest, representative,
  group_row, group_rows, derive_rows,
}
use cydrust.Bridge.Rows.Cut.{Any, Represents, sort_rows-Any, best_rank-le, rank_of-le, take-Any}
use cydrust.Bridge.Rows.Order.{sort_rows-IsOrdered}

record GroupHas {F : Type 0} (d : Derived F) (g : (Bytes × Bytes) × List (Derived F)) : Type 0 where
  tool : g.0.0 ≡ d.tool
  project : g.0.1 ≡ d.project
  has : Any (λ x. x ≡ d) g.1

push_some-Any :
    {A : Type 0} (P : A → Type 0) (rest : List A) (o : Option A)
    → Any P rest
    → Any P (push_some o rest)
push_some-Any P rest none p = p
push_some-Any P rest (some a) p = inr p

module _ {F : Type 0} (f : Float F) where
  derive_all-Any :
      (now : F) (s : Session F) (d : Derived F) (ss : List (Session F))
      → derive f now s ≡ some d
      → Any (λ x. x ≡ s) ss
      → Any (λ x. x ≡ d) (derive_all f now ss)
  unfolding derive_all
  derive_all-Any now s d [] e h = elim h [ ]
  derive_all-Any now s d (x ∷ ss) e (inl same) =
      subst (λ o. Any (λ y. y ≡ d) (push_some o (derive_all f now ss)))
        (sym (ap (derive f now) same ∙ e)) (inl refl)
  derive_all-Any now s d (x ∷ ss) e (inr q) =
      push_some-Any (λ y. y ≡ d) (derive_all f now ss) (derive f now x)
        (derive_all-Any now s d ss e q)

  append_to-has : (ds : List (Derived F)) (d : Derived F) → Any (λ x. x ≡ d) (append_to f ds d)
  unfolding append_to
  append_to-has [] d = inl refl
  append_to-has (x ∷ ds) d = inr (append_to-has ds d)

  append_to-Any :
      (P : Derived F → Type 0) (ds : List (Derived F)) (e : Derived F)
      → Any P ds
      → Any P (append_to f ds e)
  unfolding append_to
  append_to-Any P [] e h = elim h [ ]
  append_to-Any P (x ∷ ds) e (inl p) = inl p
  append_to-Any P (x ∷ ds) e (inr q) = inr (append_to-Any P ds e q)

  push_group-has : (gs : Groups F) (d : Derived F) → Any (GroupHas d) (push_group f gs d)
  unfolding push_group
  push_group-has [] d = inl (record { tool = refl; project = refl; has = inl refl })
  push_group-has ((k, ds) ∷ gs) d =
      elim (Bool-cases (same_bytes k.0 d.tool && same_bytes k.1 d.project)) [
        | inl e ↦ rw e (
            inl (record {
              tool = same_bytes→≡ k.0 d.tool (ground arith);
              project = same_bytes→≡ k.1 d.project (ground arith);
              has = append_to-has ds d;
            }))
        | inr e ↦ rw e (inr (push_group-has gs d))
      ]

  push_group-kept :
      (gs : Groups F) (d e : Derived F) → Any (GroupHas d) gs → Any (GroupHas d) (push_group f gs e)
  unfolding push_group
  push_group-kept [] d e h = elim h [ ]
  push_group-kept ((k, ds) ∷ gs) d e (inl p) =
      if_both (Any (GroupHas d)) (same_bytes k.0 e.tool && same_bytes k.1 e.project)
        (inl (record {
          tool = p.tool;
          project = p.project;
          has = append_to-Any (λ x. x ≡ d) ds e p.has;
        }))
        (inl p)
  push_group-kept ((k, ds) ∷ gs) d e (inr q) =
      if_both (Any (GroupHas d)) (same_bytes k.0 e.tool && same_bytes k.1 e.project) (inr q)
        (inr (push_group-kept gs d e q))

  group_all-Any :
      (gs : Groups F) (d : Derived F) (ds : List (Derived F))
      → Any (GroupHas d) gs ⊎ Any (λ x. x ≡ d) ds
      → Any (GroupHas d) (group_all f gs ds)
  unfolding group_all
  group_all-Any gs d [] (inl p) = p
  group_all-Any gs d [] (inr h) = elim h [ ]
  group_all-Any gs d (e ∷ ds) (inl p) =
      group_all-Any (push_group f gs e) d ds (inl (push_group-kept gs d e p))
  group_all-Any gs d (e ∷ ds) (inr (inl same)) =
      group_all-Any (push_group f gs e) d ds
        (inl (subst (λ x. Any (GroupHas d) (push_group f gs x)) (sym same) (push_group-has gs d)))
  group_all-Any gs d (e ∷ ds) (inr (inr q)) = group_all-Any (push_group f gs e) d ds (inr q)

  -- A group with a session has a representative.
  representative-some :
      (grp : List (Derived F)) (P : Derived F → Type 0)
      → Any P grp
      → (rep : Derived F) × (representative f grp ≡ some rep)
  unfolding representative min_by_age
  representative-some [] P h = elim h [ ]
  representative-some (d ∷ ds) P h =
      elim (Option-cases (min_by_age f (filter (λ x. x.waiting) (d ∷ ds)))) [
        | inl e ↦ (youngest f d ds, rw (e, representative))
        | inr (rep, e) ↦ (rep, rw (e, representative))
      ]

  group_row-Represents :
      (titles : Map Bytes) (d : Derived F) (g : (Bytes × Bytes) × List (Derived F))
      (rep : Derived F)
      → GroupHas d g
      → Represents d (group_row f titles g.0 g.1 rep)
  unfolding group_row
  group_row-Represents titles d g rep h =
      let best = best_rank-le d g.1 h.has in
      let rank = rank_of-le (best_rank g.1) in
      record { tool = h.tool; project = h.project; urgent = omega (arith, best, rank) }

  group_rows-Any :
      (titles : Map Bytes) (d : Derived F) (gs : Groups F)
      → Any (GroupHas d) gs
      → Any (Represents d) (group_rows f titles gs)
  unfolding group_rows with_representative
  group_rows-Any titles d [] h = elim h [ ]
  group_rows-Any titles d ((key, grp) ∷ gs) (inl p) =
      let rep = representative-some grp (λ x. x ≡ d) p.has in
      rw rep.1 (inl (group_row-Represents titles d (key, grp) rep.0 p))
  group_rows-Any titles d ((key, grp) ∷ gs) (inr q) =
      push_some-Any (Represents d) (group_rows f titles gs)
        (with_representative f titles key grp (representative f grp)) (group_rows-Any titles d gs q)

  -- A session that is not gone has a row of its tool and project that is at least as urgent as the
  -- session, or the limit of 100 is reached and every row that is shown is at least as urgent.
  pub derive_rows-shown :
      (titles : Map Bytes) (now : F) (store : Inner F) (s : Session F) (d : Derived F)
      → Any (λ x. x ≡ s) (snapshot f store)
      → derive f now s ≡ some d
      → Any (Represents d) (derive_rows f titles now store)
        ⊎ ((length (derive_rows f titles now store) ≡ 100)
            × All
                (λ r. status_rank r.status ≤ status_rank d.status)
                (derive_rows f titles now store))
  unfolding derive_rows
  derive_rows-shown titles now store s d h e =
      let ds = derive_all f now (snapshot f store) in
      let rows = group_rows f titles (group_all f [] ds) in
      let shown =
        group_rows-Any titles d (group_all f [] ds)
          (group_all-Any [] d ds (inr (derive_all-Any now s d (snapshot f store) e h))) in
      take-Any d max_sessions (sort_rows rows) (sort_rows-IsOrdered rows)
        (sort_rows-Any (Represents d) rows shown)
