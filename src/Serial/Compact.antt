-- ===== src/Serial/Compact.antt =====
-- bridge/src/bin/serial_bridge.rs: `compact_json`.
use cydrust.Prelude.{
  ℕ, ◌≤◌, ◌≡◌, refl, ap, subst, Bool, true, false, not, ◌&&◌, ◌||◌, [], ◌∷◌, if◌then◌else◌, ◌==◌,
  Bool-cases, inl, inr, ==_iff,
}
use cydrust.Proto.Model.{Bytes}

abbrev pub is_ascii_whitespace : ℕ → Bool
is_ascii_whitespace c = c == b' ' || c == b'\t' || c == b'\n' || c == 12 || c == b'\r'

-- `in_string` after a character that is not escaped
abbrev toggled : Bool → ℕ → Bool
toggled in_string c = if c == b'"' then not in_string else in_string

-- the loop, with its flags `in_string` and `escape`
unfoldable pub compact : Bool → Bool → Bytes → Bytes
compact in_string escape [] = []
compact in_string true (c ∷ cs) = c ∷ compact in_string false cs
compact in_string false (c ∷ cs) =
    let escaped = compact in_string true cs in
    let rest = compact (toggled in_string c) false cs in
    if c == b'\\' && in_string
    then c ∷ escaped
    else if not (toggled in_string c) && is_ascii_whitespace c
    then rest
    else c ∷ rest

abbrev pub compact_json : Bytes → Bytes
compact_json s = compact false false s

no_and : (b : Bool) → b && false ≡ true → 1 ≤ 0
no_and true h = cc
no_and false h = cc

-- a quote is not passed over
toggled_whitespace :
    (in_string : Bool) (c : ℕ)
    → not (toggled in_string c) && is_ascii_whitespace c ≡ true
    → toggled in_string c ≡ in_string
toggled_whitespace in_string c h = elim (Bool-cases (c == b'"')) [
  | inl e ↦
      let q : c ≡ b'"' = (==_iff c b'"').0 e in
      let k : not (toggled in_string b'"') && false ≡ true = rw q at h in
      elim (no_and (not (toggled in_string b'"')) k) [ ]
  | inr e ↦ rw e
]

-- the same text with the same flags
compact_again :
    (in_string escape : Bool) (s : Bytes)
    → compact in_string escape (compact in_string escape s) ≡ compact in_string escape s
unfolding compact
compact_again in_string escape [] = refl
compact_again in_string true (c ∷ cs) = ap (λ t. c ∷ t) (compact_again in_string false cs)
compact_again in_string false (c ∷ cs) =
    let escaped = compact_again in_string true cs in
    let rest = compact_again (toggled in_string c) false cs in
    elim (Bool-cases (c == b'\\' && in_string)) [
      | inl e ↦ rw e (rw (e, compact) (rw escaped))
      | inr e ↦ elim (Bool-cases (not (toggled in_string c) && is_ascii_whitespace c)) [
        | inl f ↦
            let same = toggled_whitespace in_string c f in
            rw (e, f)
              (subst
                (λ b.
                  compact b false (compact (toggled in_string c) false cs)
                  ≡ compact (toggled in_string c) false cs)
                same rest)
        | inr f ↦ rw (e, f) (rw (e, compact) (rw (f, rest)))
      ]
    ]

-- A text that has been made compact once is not changed by a second time, whatever the text is.
pub compact_json-compact_json : (s : Bytes) → compact_json (compact_json s) ≡ compact_json s
compact_json-compact_json s = compact_again false false s
