-- ===== src/Usage/Capacity/Verdicts.antt =====
-- bridge/src/usage.rs: when `capacity` asks to hold off.
use cydrust.Prelude.{ℕ, ◌≡◌, refl, sym, ◌↔◌, true, false, ◌||◌, [], Bool-cases, inl, inr}
use cydrust.Proto.Model.{Bytes}
use cydrust.Metrics.Number.{Real}
use cydrust.Usage.{UsageInfo}
use cydrust.Usage.Capacity.{throttle, pace, go, exhausts, exhausting, max_pct, capacity, verdict_of}

verdict_of-none :
    {F : Type 0} (real : Real F) (show_int show : ℕ → Bytes) (pct : F) (idle : ℕ)
    → (verdict_of real show_int show [] pct idle).status ≡ throttle
    → true ≡ false
unfolding verdict_of
verdict_of-none real show_int show pct idle h =
    elim (Bool-cases (real.less_than (real.milli 700) pct)) [
      | inl e ↦ let k : pace ≡ throttle = rw (e, verdict_of) at h in cc
      | inr e ↦ let k : go ≡ throttle = rw (e, verdict_of) at h in cc
    ]

-- The verdict is to throttle exactly where one of the two providers that report is projected to
-- exhaust, whatever the shares are.
pub capacity-throttle_iff :
    {F : Type 0} (real : Real F) (show_int show : ℕ → Bytes) (claude codex : UsageInfo F) (idle : ℕ)
    → ((capacity real show_int show claude codex idle).status ≡ throttle)
      ↔ (exhausts claude || exhausts codex ≡ true)
unfolding capacity exhausting verdict_of
capacity-throttle_iff real show_int show claude codex idle = elim (Bool-cases (exhausts claude)) [
  | inl e ↦ rw e (λ h. refl, λ h. refl)
  | inr e ↦ elim (Bool-cases (exhausts codex)) [
    | inl f ↦ rw (e, f) (λ h. refl, λ h. refl)
    | inr f ↦
        rw (e, f)
          (
            λ h. sym (
                verdict_of-none real show_int show (max_pct real show_int show claude codex) idle
                  h),
            λ h. cc,
          )
  ]
]
