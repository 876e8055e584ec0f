-- ===== src/Proto/Reflexive.antt =====
-- firmware/src/proto.rs: the derived `PartialEq` on a value and itself.
use cydrust.Prelude.{ℕ, ◌≡◌, refl, Bool, true, false, List, [], ◌∷◌, arith, ◌==◌}
use cydrust.Prelude.Int.{ℤ, pos, negsuc}
use cydrust.Proto.Model.{
  Bytes, SessionStatus, working, idle, waiting, SessionRow, Usage, ModelRow, Metrics, DisplayState,
}
use cydrust.Proto.Same.{
  same_bool, same_list, same_bytes, same_int, same_status, same_row, same_usage, same_model,
  same_metrics, same_state,
}

pub ==_refl : (n : ℕ) → (n == n) ≡ true
==_refl n = ground arith

pub same_bool_refl : (b : Bool) → same_bool b b ≡ true
same_bool_refl true = refl
same_bool_refl false = refl

same_list_refl :
    {A : Type 0} (same : A → A → Bool)
    → ((a : A) → same a a ≡ true)
    → (xs : List A) → same_list same xs xs ≡ true
unfolding same_list
same_list_refl same h [] = refl
same_list_refl same h (x ∷ xs) = rw (h x, same_list_refl same h xs)

pub same_bytes_refl : (b : Bytes) → same_bytes b b ≡ true
same_bytes_refl b = same_list_refl ◌==◌ ==_refl b

same_int_refl : (z : ℤ) → same_int z z ≡ true
same_int_refl (pos m) = ==_refl m
same_int_refl (negsuc m) = ==_refl m

same_status_refl : (s : SessionStatus) → same_status s s ≡ true
same_status_refl working = refl
same_status_refl idle = refl
same_status_refl waiting = refl

same_row_refl : (r : SessionRow) → same_row r r ≡ true
unfolding same_row
same_row_refl r = simp (
  same_bytes_refl r.project,
  same_status_refl r.status,
  same_bytes_refl r.tool,
  same_bytes_refl r.id,
  same_int_refl r.age_sec,
  same_int_refl r.wait_sec,
  same_bytes_refl r.summary,
)

module _ {F : Type 0} (same_f : F → F → Bool) (h : (x : F) → same_f x x ≡ true) where
  same_usage_refl : (u : Usage F) → same_usage same_f u u ≡ true
  unfolding same_usage
  same_usage_refl u = simp (same_bool_refl, h, ==_refl, same_int_refl, same_bytes_refl u.eta_clock)

  same_model_refl : (m : ModelRow F) → same_model same_f m m ≡ true
  unfolding same_model
  same_model_refl m = simp (same_bytes_refl m.provider, same_bytes_refl m.model, same_bool_refl, h)

  pub same_metrics_refl : (m : Metrics F) → same_metrics same_f m m ≡ true
  unfolding same_metrics
  same_metrics_refl m = simp (
    same_list_refl (same_model same_f) same_model_refl m.models,
    same_bool_refl,
    h,
    ==_refl,
    same_int_refl,
  )

  pub same_state_refl : (s : DisplayState F) → same_state same_f s s ≡ true
  unfolding same_state
  same_state_refl s = simp (
    same_list_refl same_row same_row_refl s.sessions,
    same_usage_refl,
    same_metrics_refl,
    same_bool_refl,
    ==_refl,
  )
