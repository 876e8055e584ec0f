-- ===== src/Bridge/Federation/Node.antt =====
-- bridge/src/federation.rs: the names that `sanitize_node_id` answers.
use cydrust.Prelude.{
  ℕ, zero, suc, ◌≤◌, ◌<◌, ◌≡◌, refl, Bool, true, false, not, List, [], ◌∷◌, arith, length, take,
  map, any, if◌then◌else◌, ◌==◌, length-take, Bool-cases, inl, inr,
}
use cydrust.Proto.Model.{Bytes}
use cydrust.Bridge.Federation.{slash, sanitize_node_id, allowed, unknown_host}
use cydrust.Bridge.Federation.Merge.{IsNode}

clean : (c : ℕ) → ((if allowed c then c else b'-') == slash) ≡ false
unfolding allowed
clean c = ground arith

take_clean : (n : ℕ) (raw : List ℕ) → IsNode (take n (map (λ c. if allowed c then c else b'-') raw))
take_clean zero raw = tt
take_clean (suc n) [] = tt
take_clean (suc n) (c ∷ raw) = (clean c, take_clean n raw)

any-length : (p : ℕ → Bool) (xs : List ℕ) → any p xs ≡ true → 0 < length xs
any-length p [] h = cc
any-length p (x ∷ xs) h = omega arith

no_slash : (b : Bytes) → any (λ c. c == slash) b ≡ false → IsNode b
no_slash [] h = tt
no_slash (c ∷ b) h =
    let first : (c == slash) ≡ false = ground arith in
    let rest : any (λ d. d == slash) b ≡ false = ground arith in (first, no_slash b rest)

-- Whatever the host calls itself, the name of the node is not empty, has at most 63 bytes, and no
-- slash.
pub sanitize_node_id-IsNode :
    (raw : List ℕ)
    → IsNode (sanitize_node_id raw)
      × (0 < length (sanitize_node_id raw))
      × (length (sanitize_node_id raw) ≤ 63)
unfolding sanitize_node_id
sanitize_node_id-IsNode raw =
    let s = take 63 (map (λ c. if allowed c then c else b'-') raw) in
    let short = length-take 63 (map (λ c. if allowed c then c else b'-') raw) in
    elim (Bool-cases (any (λ c. not (c == b'-')) s)) [
      | inl e ↦ rw e (take_clean 63 raw, any-length _ s e, omega (arith, short))
      | inr e ↦ rw e (no_slash unknown_host refl, omega arith, omega arith)
    ]
