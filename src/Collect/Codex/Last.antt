-- ===== src/Collect/Codex/Last.antt =====
-- bridge/src/collector_codex.rs: the last marker, the last to speak, and the verdict on them.
use cydrust.Prelude.{
  get_or, arith, ◌≡◌, refl, sym, ap, ◌∙◌, ◌↔◌, ◌⊎◌, inl, inr, true, Option, none, some, List, [],
  ◌∷◌, ◌++◌, All, Bool-cases, Option-cases,
}
use mathlib.Core.Option.{some-injective}
use cydrust.Proto.Model.{Bytes}
use cydrust.Proto.Same.{same_bytes}
use cydrust.Proto.Reflexive.{same_bytes_refl}
use cydrust.Bridge.Map.{same_bytes→≡}
use cydrust.Chars.{Text}
use cydrust.Collect.Codex.{working, done, aborted, agent, user, turn_marker, msg_kind, verdict}
use cydrust.Collect.Codex.Rollouts.{last_of}

abbrev pub started_str : Bytes
started_str =
    (b't' ∷ b'a' ∷ b's' ∷ b'k' ∷ b'_' ∷ b's' ∷ b't' ∷ b'a' ∷ b'r' ∷ b't' ∷ b'e' ∷ b'd' ∷ [])

abbrev pub complete_str : Bytes
complete_str =
    (b't' ∷ b'a' ∷ b's' ∷ b'k' ∷ b'_' ∷ b'c' ∷ b'o' ∷ b'm' ∷ b'p' ∷ b'l' ∷ b'e' ∷ b't' ∷ b'e' ∷ [])

abbrev pub aborted_str : Bytes
aborted_str =
    (b't' ∷ b'u' ∷ b'r' ∷ b'n' ∷ b'_' ∷ b'a' ∷ b'b' ∷ b'o' ∷ b'r' ∷ b't' ∷ b'e' ∷ b'd' ∷ [])

abbrev pub agent_str : Bytes
agent_str =
    (b'a' ∷ b'g' ∷ b'e' ∷ b'n' ∷ b't' ∷ b'_' ∷ b'm' ∷ b'e' ∷ b's' ∷ b's' ∷ b'a' ∷ b'g' ∷ b'e' ∷ [])

abbrev pub user_str : Bytes
user_str = (b'u' ∷ b's' ∷ b'e' ∷ b'r' ∷ b'_' ∷ b'm' ∷ b'e' ∷ b's' ∷ b's' ∷ b'a' ∷ b'g' ∷ b'e' ∷ [])

-- one line is such, and none after it is one of those
abbrev pub Ends : (Text → Type 0) → (Text → Type 0) → List Text → Type 0
Ends P Q ls =
    (before : List Text) × (line : Text) × (after : List Text) × (ls ≡ before ++ line ∷ after)
    × P line
    × All Q after

pub All-map :
    {A : Type 0} (P Q : A → Type 0) (xs : List A) → ((x : A) → P x → Q x) → All P xs → All Q xs
All-map P Q [] f a = tt
All-map P Q (x ∷ xs) f a = (f x a.0, All-map P Q xs f a.1)

pub last_of-none :
    (g : Text → Option Bytes) (xs : List Text) → last_of g xs ≡ none → All (λ x. g x ≡ none) xs
last_of-none g [] h = tt
last_of-none g (x ∷ xs) h = elim (Option-cases (last_of g xs)) [
  | inl e ↦ (rw e at h, last_of-none g xs e)
  | inr (s, e) ↦ let k : some s ≡ none = rw e at h in cc
]

pub none-last_of :
    (g : Text → Option Bytes) (xs : List Text) → All (λ x. g x ≡ none) xs → last_of g xs ≡ none
none-last_of g [] a = refl
none-last_of g (x ∷ xs) a = rw (none-last_of g xs a.1) a.0

pub last_of-some :
    (g : Text → Option Bytes) (m : Bytes) (xs : List Text)
    → last_of g xs ≡ some m
    → Ends (λ x. g x ≡ some m) (λ x. g x ≡ none) xs
last_of-some g m [] h = cc
last_of-some g m (x ∷ xs) h = elim (Option-cases (last_of g xs)) [
  | inl e ↦ ([], x, xs, refl, rw e at h, last_of-none g xs e)
  | inr (s, e) ↦
      let k : some s ≡ some m = rw e at h in
      let (b, l, a, f, p, q) = last_of-some g m xs (e ∙ k) in (x ∷ b, l, a, ap (λ r. x ∷ r) f, p, q)
]

pub some-last_of :
    (g : Text → Option Bytes) (m : Bytes) (b : List Text) (l : Text) (a : List Text)
    → g l ≡ some m
    → All (λ x. g x ≡ none) a
    → last_of g (b ++ l ∷ a) ≡ some m
some-last_of g m [] l a p q = rw (none-last_of g a q) p
some-last_of g m (x ∷ b) l a p q = rw (some-last_of g m b l a p q)

-- what the verdict says, by the last marker and the last to speak
pub verdict-waits :
    (m k : Option Bytes)
    → ((verdict m k).0 ≡ true) ↔ ((m ≡ some done) ⊎ ((m ≡ none) × (k ≡ some agent)))
unfolding verdict
verdict-waits (some s) k = (
  λ h. inl (ap some (same_bytes→≡ s done h)),
  λ c. elim c [ inl e ↦ rw (some-injective s done e) (same_bytes_refl done) | inr (e, f) ↦ cc ],
)
verdict-waits none (some k) = (
  λ h. inr (refl, ap some (same_bytes→≡ k agent h)),
  λ c. elim c [ inl e ↦ cc | inr (e, f) ↦ rw (some-injective k agent f) (same_bytes_refl agent) ],
)
verdict-waits none none = (λ h. cc, λ c. elim c [ inl e ↦ cc | inr (e, f) ↦ cc ])

pub verdict-active :
    (m k : Option Bytes)
    → ((verdict m k).1 ≡ true) ↔ ((m ≡ some working) ⊎ ((m ≡ none) × (k ≡ some user)))
unfolding verdict
verdict-active (some s) k = (
  λ h. inl (ap some (same_bytes→≡ s working h)),
  λ c. elim c [
    | inl e ↦ rw (some-injective s working e) (same_bytes_refl working)
    | inr (e, f) ↦ cc
  ],
)
verdict-active none (some k) = (
  λ h. inr (refl, ap some (same_bytes→≡ k user h)),
  λ c. elim c [ inl e ↦ cc | inr (e, f) ↦ rw (some-injective k user f) (same_bytes_refl user) ],
)
verdict-active none none = (λ h. cc, λ c. elim c [ inl e ↦ cc | inr (e, f) ↦ cc ])

-- a test of the three names of markers: which it is, or none
pub marker-cases :
    (t : Bytes)
    → ((t ≡ started_str) × (turn_marker t ≡ some working))
      ⊎ ((t ≡ complete_str) × (turn_marker t ≡ some done))
      ⊎ ((t ≡ aborted_str) × (turn_marker t ≡ some aborted))
      ⊎ (turn_marker t ≡ none)
unfolding turn_marker
marker-cases t = elim (Bool-cases (same_bytes t working)) [
  | inl e ↦ inl (same_bytes→≡ t working e, rw e)
  | inr e ↦ elim (Bool-cases (same_bytes t done)) [
    | inl f ↦ inr (inl (same_bytes→≡ t done f, rw (e, f)))
    | inr f ↦ elim (Bool-cases (same_bytes t aborted)) [
      | inl g ↦ inr (inr (inl (same_bytes→≡ t aborted g, rw (e, f, g))))
      | inr g ↦ inr (inr (inr (rw (e, f, g))))
    ]
  ]
]

pub kind-cases :
    (t : Bytes)
    → ((t ≡ agent_str) × (msg_kind t ≡ some agent))
      ⊎ ((t ≡ user_str) × (msg_kind t ≡ some user))
      ⊎ (msg_kind t ≡ none)
unfolding msg_kind
kind-cases t = elim (Bool-cases (same_bytes t agent_str)) [
  | inl e ↦ inl (same_bytes→≡ t agent_str e, rw e)
  | inr e ↦ elim (Bool-cases (same_bytes t user_str)) [
    | inl f ↦ inr (inl (same_bytes→≡ t user_str f, rw (e, f)))
    | inr f ↦ inr (inr (rw (e, f)))
  ]
]

-- A marker is the name itself.
pub marker-same : (t m : Bytes) → turn_marker t ≡ some m → t ≡ m
marker-same t m h = elim (marker-cases t) [
  | inl (n, u) ↦ n ∙ some-injective working m (sym u ∙ h)
  | inr (inl (n, u)) ↦ n ∙ some-injective done m (sym u ∙ h)
  | inr (inr (inl (n, u))) ↦ n ∙ some-injective aborted m (sym u ∙ h)
  | inr (inr (inr u)) ↦ let f : none ≡ some m = sym u ∙ h in cc
]

pub user-agent : some user ≡ some agent → ⊥
user-agent h =
    let k : 117 ≡ 97 = ap (λ b. get_or b 0 0) (some-injective user agent h) in omega (arith, k)
