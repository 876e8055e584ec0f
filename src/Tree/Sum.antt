-- ===== src/Tree/Sum.antt =====
-- Wrapping sums over a `BTreeMap`.
use cydrust.Prelude.{ℕ, ◌≡◌, refl, sym, [], ◌∷◌, map, arith, Bool-cases, inl, inr}
use cydrust.Proto.Model.{Bytes}
use cydrust.Proto.Same.{same_bytes}
use cydrust.Tree.{Tree, before, entry}
use cydrust.Metrics.Number.{add, sum_from}

pub add_assoc : (a b c : ℕ) → add (add a b) c ≡ add a (add b c)
unfolding add
add_assoc a b c = omega arith

pub add_comm : (a b : ℕ) → add a b ≡ add b a
unfolding add
add_comm a b = omega arith

-- an addition in the middle
pub add_swap : (a b c : ℕ) → add (add a b) c ≡ add (add a c) b
unfolding add
add_swap a b c = omega arith

pub add_left_swap : (a b c : ℕ) → add a (add b c) ≡ add b (add a c)
unfolding add
add_left_swap a b c = omega arith

pub add_zero : (a b : ℕ) → add (add a b) 0 ≡ add a b
unfolding add
add_zero a b = omega arith

add_first : (a b : ℕ) → add (add 0 a) b ≡ add b a
unfolding add
add_first a b = omega arith

module _ {V : Type 0} (f : V → ℕ) where
  unfoldable pub sum_by : Tree V → ℕ
  sum_by [] = 0
  sum_by ((j, v) ∷ t) = add (f v) (sum_by t)

  pub sum_by-add_zero : (t : Tree V) → add (sum_by t) 0 ≡ sum_by t
  unfolding sum_by add
  sum_by-add_zero [] = refl
  sum_by-add_zero ((j, v) ∷ t) = add_zero (f v) (sum_by t)

  -- a change that adds to the value at one key
  pub sum_by-entry :
      (k : Bytes) (d : V) (g : V → V) (x : ℕ) (t : Tree V)
      → f d ≡ 0
      → ((v : V) → f (g v) ≡ add (f v) x)
      → sum_by (entry k d g t) ≡ add (sum_by t) x
  unfolding sum_by entry
  sum_by-entry k d g x [] z h = rw (h d, z) (add_zero 0 x)
  sum_by-entry k d g x ((j, v) ∷ t) z h = elim (Bool-cases (same_bytes j k)) [
    | inl e ↦ rw (e, sum_by) (rw (h v) (add_swap (f v) x (sum_by t)))
    | inr e ↦ elim (Bool-cases (before k j)) [
      | inl b ↦ rw (e, b, sum_by) (rw (h d, z) (add_first x (add (f v) (sum_by t))))
      | inr b ↦
          rw (e, b, sum_by) (rw (sum_by-entry k d g x t z h) (sym (add_assoc (f v) (sum_by t) x)))
    ]
  ]

  -- `values().map(f).sum()`
  pub sum_from-values :
      (a c : ℕ) (t : Tree V) → sum_from (add a c) (map (λ e. f e.1) t) ≡ add (add a c) (sum_by t)
  unfolding sum_from sum_by
  sum_from-values a c [] = sym (add_zero a c)
  sum_from-values a c ((j, v) ∷ t) =
      rw (sum_from-values (add a c) (f v) t) (add_assoc (add a c) (f v) (sum_by t))

  pub sum_from-zero : (t : Tree V) → sum_from 0 (map (λ e. f e.1) t) ≡ sum_by t
  unfolding add
  sum_from-zero t =
      let sum : sum_from 0 (map (λ e. f e.1) t) ≡ add 0 (sum_by t) = sum_from-values 0 0 t in
      rw (sum, add_comm 0 (sum_by t)) (sum_by-add_zero t)
