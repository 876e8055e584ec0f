-- ===== src/Eink/Spaced.antt =====
-- firmware/src/eink.rs: how often the panel is refreshed.
use cydrust.Prelude.{
  ℕ, ◌+◌, ◌≤◌, ◌≡◌, Bool, true, some, List, [], ◌∷◌, arith, All, if◌then◌else◌, Bool-cases, inl,
  inr,
}
use cydrust.Proto.Model.{Bytes}
use cydrust.Eink.{Eink, Input, min_refresh, current, is_due, round}

module _ {F : Type 0} (same_f : F → F → Bool) (percent : F → Bytes) where
  -- when the rounds begin a refresh
  abbrev pub refreshes : List (Input F) → Eink F → List ℕ
  refreshes [] s = []
  refreshes (i ∷ is) s =
      let rest = refreshes is (round same_f percent i s).0 in
      if is_due same_f percent i s then i.now ∷ rest else rest

-- from a time on, no two less than 45 seconds apart
abbrev pub AreSpaced : ℕ → List ℕ → Type 0
AreSpaced t [] = Unit
AreSpaced t (u ∷ us) = (t + min_refresh ≤ u) × AreSpaced u us

AreSpaced-earlier : (t u : ℕ) (us : List ℕ) → t ≤ u → AreSpaced u us → AreSpaced t us
AreSpaced-earlier t u [] h a = tt
AreSpaced-earlier t u (v ∷ us) h a = (omega arith, a.1)

module _ {F : Type 0} (same_f : F → F → Bool) (percent : F → Bytes) where
  due-late :
      (i : Input F) (s : Eink F)
      → is_due same_f percent i s ≡ true
      → s.last_refresh + min_refresh ≤ i.now
  unfolding is_due
  due-late i s d = ground arith

  -- As long as the clock does not go back during a round, the refreshes of any run begin 45 seconds
  -- apart or more, and the first that long after the last one before the run.
  pub refreshes-AreSpaced :
      (is : List (Input F)) (s : Eink F)
      → All (λ i. i.now ≤ i.after) is
      → AreSpaced s.last_refresh (refreshes same_f percent is s)
  unfolding round
  refreshes-AreSpaced [] s c = tt
  refreshes-AreSpaced (i ∷ is) s c = elim (Bool-cases (is_due same_f percent i s)) [
    | inl d ↦
        let shown : Eink F = record { prev = some (current i); last_refresh = i.after } in
        rw d
          (due-late i s d, AreSpaced-earlier i.now i.after _ c.0 (refreshes-AreSpaced is shown c.1))
    | inr d ↦ rw d (refreshes-AreSpaced is s c.1)
  ]
