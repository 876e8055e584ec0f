-- ===== src/Mascot/Delay.antt =====
-- firmware/src/mascot.rs: the delay that `snap_art` chooses.
use cydrust.Prelude.{ℕ, ◌*◌, ◌^◌, ◌≤◌, ◌<◌, ◌≡◌, ◌⊎◌, ◌↔◌, true, arith, any, ◌==◌}
use cydrust.Mascot.{art_is_valid, snap_art, art_vals}

-- a delay that is offered
abbrev pub IsOffered : ℕ → Type 0
IsOffered v = any (λ w. w == v) art_vals ≡ true

abbrev pub Fires : ℕ → ℕ → Type 0
Fires art_sec sleep_min = (art_sec ≡ 0) ⊎ (sleep_min ≡ 0) ⊎ (art_sec < sleep_min * 60)

-- For a u16 `sleep_min` a delay is valid exactly when it is off, the screen never sleeps, or the
-- delay is over before the screen sleeps.
pub art_is_valid_iff :
    (art_sec sleep_min : ℕ)
    → sleep_min < 2 ^ 16
    → (art_is_valid art_sec sleep_min ≡ true) ↔ Fires art_sec sleep_min
unfolding art_is_valid
art_is_valid_iff a s h = (λ e. ground arith, λ e. ground arith)

-- what `snap_art` promises of its answer `r`
pub record IsSnapped (art_sec sleep_min r : ℕ) : Type 0 where
  pub offered : IsOffered r
  pub valid : art_is_valid r sleep_min ≡ true
  pub below : r ≤ art_sec
  pub largest : (v : ℕ) → IsOffered v → art_is_valid v sleep_min ≡ true → v ≤ art_sec → v ≤ r

module _ (a s : ℕ) where
  snap_art-IsOffered : IsOffered (snap_art a s)
  unfolding snap_art
  snap_art-IsOffered = ground arith

  snap_art_valid : art_is_valid (snap_art a s) s ≡ true
  unfolding snap_art art_is_valid
  snap_art_valid = ground arith

  snap_art-le : snap_art a s ≤ a
  unfolding snap_art
  snap_art-le = ground arith

  le-snap_art : (v : ℕ) → IsOffered v → art_is_valid v s ≡ true → v ≤ a → v ≤ snap_art a s
  unfolding snap_art
  le-snap_art v o h k = ground arith

  -- `snap_art` answers the largest offered delay that is valid and not above the one given.
  pub snap_art-IsSnapped : IsSnapped a s (snap_art a s)
  snap_art-IsSnapped = record {
    offered = snap_art-IsOffered;
    valid = snap_art_valid;
    below = snap_art-le;
    largest = le-snap_art;
  }
