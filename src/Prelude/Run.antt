-- ===== src/Prelude/Run.antt =====
-- Code that may panic: an index or a slice out of range is `panic`, anything else `ok`.
use Prim.Native.Nat.{ℕ, ◌-◌, ◌≤◌, ◌<◌}
use mathlib.Core.Path.{◌≡◌, refl}
use mathlib.Core.Bool.{◌&&◌}
use mathlib.Core.List.{List}
use mathlib.Core.Option.{none, some}
use cydrust.Prelude.Tests.{leb, if◌then◌else◌, le→leb}
use cydrust.Prelude.Lists.{length, get_elem?, get_elem?-lt, take, drop}

pub data Run {ℓ} (A : Type ℓ) : Type ℓ where
  panic : Run A
  ok : (value : A) → Run A

-- what follows a panic is not run
abbrev pub ◌>>=◌ {ℓ κ} : {A : Type ℓ} {B : Type κ} (first : Run A) (rest : A → Run B) → Run B
panic >>= rest = panic
ok value >>= rest = rest value

infixl 5 ◌>>=◌
module _ {ℓ} {A : Type ℓ} where
  -- `xs[i]`
  unfoldable pub read : List A → ℕ → Run A
  read xs i = elim (get_elem? xs i) [ none ↦ panic | some x ↦ ok x ]

  -- `&xs[i..j]`
  unfoldable pub slice : List A → ℕ → ℕ → Run (List A)
  slice xs i j = if leb i j && leb j (length xs) then ok (take (j - i) (drop i xs)) else panic

  pub read-lt : (xs : List A) (i : ℕ) → i < length xs → (x : A) × (read xs i ≡ ok x)
  unfolding read
  read-lt xs i h = let (x, e) = get_elem?-lt xs i h in (x, rw (e, read))

  pub slice-le :
      (xs : List A) (i j : ℕ) → i ≤ j → j ≤ length xs → slice xs i j ≡ ok (take (j - i) (drop i xs))
  unfolding slice
  slice-le xs i j h k = rw (le→leb i j h, le→leb j (length xs) k)

-- What a run that does not panic has gone through.
pub >>=-eq-ok {ℓ κ} :
    {A : Type ℓ} {B : Type κ} (first : Run A) (rest : A → Run B) {value : B}
    → (first >>= rest) ≡ ok value
    → (between : A) × (first ≡ ok between) × (rest between ≡ ok value)
>>=-eq-ok panic rest e = cc
>>=-eq-ok (ok between) rest e = (between, refl, e)

pub ok-injective {ℓ} : {A : Type ℓ} {a b : A} → ok a ≡ ok b → a ≡ b
ok-injective e = cc
