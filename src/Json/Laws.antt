-- ===== src/Json/Laws.antt =====
-- serde_json's `Map`: a field after a write.
use cydrust.Prelude.{◌≡◌, refl, sym, true, false, some, arith, if◌then◌else◌, Bool-cases, inl, inr}
use cydrust.Proto.Model.{Bytes}
use cydrust.Proto.Same.{same_bytes}
use cydrust.Proto.Reflexive.{same_bytes_refl}
use cydrust.Bridge.Map.{same_bytes→≡}
use cydrust.Json.{Value, Fields, end, field, get_field, set_field}

pub same_bytes-agree : (i k j : Bytes) → same_bytes i k ≡ true → same_bytes i j ≡ same_bytes k j
same_bytes-agree i k j e = rw (same_bytes→≡ i k e)

pub same_bytes-differ :
    (i k j : Bytes) → same_bytes i k ≡ false → same_bytes k j ≡ true → same_bytes i j ≡ false
same_bytes-differ i k j h e = rw (sym (same_bytes→≡ k j e)) h

module _ {N : Type 0} where
  pub get_field-set_field :
      (fs : Fields N) (k : Bytes) (v : Value N) (j : Bytes)
      → get_field (set_field fs k v) j ≡ (if same_bytes k j then some v else get_field fs j)
  unfolding get_field set_field
  get_field-set_field end k v j = refl
  get_field-set_field (field i w fs) k v j =
      let rest = get_field-set_field fs k v j in
      let agree = same_bytes-agree i k j in let differ = same_bytes-differ i k j in ground arith

  -- the later of two writes to one key stands
  pub set_field-set_field :
      (fs : Fields N) (k : Bytes) (v w : Value N)
      → set_field (set_field fs k v) k w ≡ set_field fs k w
  unfolding set_field
  set_field-set_field end k v w = rw (same_bytes_refl k)
  set_field-set_field (field i u fs) k v w = elim (Bool-cases (same_bytes i k)) [
    | inl e ↦ rw (e, set_field) (rw e)
    | inr e ↦ rw (e, set_field) (rw (e, set_field-set_field fs k v w))
  ]

  -- A write to a key that is there keeps the place of every key.
  pub set_field_over :
      (fs : Fields N) (k j : Bytes) (v w u : Value N)
      → same_bytes k j ≡ false
      → set_field (set_field (set_field fs k v) j w) k u ≡ set_field (set_field fs k u) j w
  unfolding set_field
  set_field_over end k j v w u h = rw (h, same_bytes_refl k)
  set_field_over (field i x fs) k j v w u h = elim (Bool-cases (same_bytes i k)) [
    | inl e ↦ rw (e, set_field) (rw (same_bytes-agree i k j e, h, set_field) (rw e))
    | inr e ↦ elim (Bool-cases (same_bytes i j)) [
      | inl f ↦ rw (e, set_field) (rw (f, set_field) (rw (e, set_field-set_field fs k v u)))
      | inr f ↦ rw (e, set_field) (rw (f, set_field) (rw (e, set_field_over fs k j v w u h)))
    ]
  ]
