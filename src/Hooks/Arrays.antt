-- ===== src/Hooks/Arrays.antt =====
-- serde_json's arrays, with the operations of `Vec` that install_hooks.rs uses.
use cydrust.Prelude.{◌≡◌, refl, Bool, true, false, ◌||◌, arith, if◌then◌else◌}
use cydrust.Json.{Value, Items, nil, cons}

module _ {N : Type 0} where
  unfoldable pub any_item : (Value N → Bool) → Items N → Bool
  any_item p nil = false
  any_item p (cons x xs) = p x || any_item p xs

  -- `retain`
  unfoldable pub keep_items : (Value N → Bool) → Items N → Items N
  keep_items p nil = nil
  keep_items p (cons x xs) = let rest = keep_items p xs in if p x then cons x rest else rest

  unfoldable pub push : Items N → Value N → Items N
  push nil y = cons y nil
  push (cons x xs) y = cons x (push xs y)

  unfoldable pub is_empty : Items N → Bool
  is_empty nil = true
  is_empty (cons x xs) = false

  pub keep_items_again :
      (p : Value N → Bool) (xs : Items N) → keep_items p (keep_items p xs) ≡ keep_items p xs
  unfolding keep_items
  keep_items_again p nil = refl
  keep_items_again p (cons x xs) = let rest = keep_items_again p xs in ground arith

  pub keep_items-push :
      (p : Value N → Bool) (xs : Items N) (y : Value N)
      → keep_items p (push xs y) ≡ (if p y then push (keep_items p xs) y else keep_items p xs)
  unfolding keep_items push
  keep_items-push p nil y = refl
  keep_items-push p (cons x xs) y = let rest = keep_items-push p xs y in ground arith

  pub is_empty-push : (xs : Items N) (y : Value N) → is_empty (push xs y) ≡ false
  unfolding is_empty push
  is_empty-push nil y = refl
  is_empty-push (cons x xs) y = refl
