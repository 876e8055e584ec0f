-- ===== src/Hooks/Strip.antt =====
-- bridge/src/bin/install_hooks.rs: what `strip` leaves of the blocks of an event.
use cydrust.Prelude.{◌≡◌, refl, sym, true, false, Option, none, some, arith, Bool-cases, inl, inr}
use cydrust.Proto.Model.{Bytes}
use cydrust.Proto.Same.{same_bytes}
use cydrust.Proto.Reflexive.{same_bytes_refl}
use cydrust.Bridge.Map.{same_bytes→≡}
use cydrust.Json.{
  Value, null, bool, number, string, array, object, Items, nil, cons, Fields, end, field, get_field,
  set_field,
}
use cydrust.Hooks.{
  is_event, block_is_ours, is_users, users, array_at, array_or_empty, stripped, strip,
}
use cydrust.Hooks.Arrays.{keep_items, is_empty, keep_items_again}

module _ {N : Type 0} where
  -- no key stands twice
  abbrev pub IsObject : Fields N → Type 0
  IsObject end = Unit
  IsObject (field k v fs) = (get_field fs k ≡ none) × IsObject fs

  abbrev pub ours : Items N → Items N
  ours = keep_items block_is_ours

  pub ours-users : (xs : Items N) → ours (users xs) ≡ nil
  unfolding users is_users keep_items
  ours-users nil = refl
  ours-users (cons x xs) = let rest = ours-users xs in ground arith

  pub users-users : (xs : Items N) → users (users xs) ≡ users xs
  unfolding users
  users-users xs = keep_items_again is_users xs

  is_empty→≡ : (xs : Items N) → is_empty xs ≡ true → xs ≡ nil
  unfolding is_empty
  is_empty→≡ nil h = refl
  is_empty→≡ (cons x xs) h = cc

  get_field-stripped :
      (k : Bytes) (v : Value N) (fs : Fields N) (j : Bytes)
      → same_bytes k j ≡ false
      → get_field (stripped k v fs) j ≡ get_field fs j
  unfolding stripped get_field
  get_field-stripped k (array xs) fs j h = ground arith
  get_field-stripped k null fs j h = rw h
  get_field-stripped k (bool b) fs j h = rw h
  get_field-stripped k (number n) fs j h = rw h
  get_field-stripped k (string s) fs j h = rw h
  get_field-stripped k (object o) fs j h = rw h

  abbrev pub array_of : Option (Value N) → Items N
  array_of none = nil
  array_of (some v) = array_or_empty v

  pub array_at_lem : (fs : Fields N) (k : Bytes) → array_at fs k ≡ array_of (get_field fs k)
  unfolding array_at
  array_at_lem fs k =
      elim (get_field fs k)
        as (λ o. elim o [ none ↦ nil | some v ↦ array_or_empty v ] ≡ array_of o) [
          | none ↦ refl
          | some v ↦ refl
        ]

  pub get_field-strip-none :
      (fs : Fields N) (k : Bytes) → get_field fs k ≡ none → get_field (strip fs) k ≡ none
  unfolding strip get_field
  get_field-strip-none end k h = refl
  get_field-strip-none (field j v fs) k h =
      let rest = get_field-strip-none fs k in
      let other = get_field-stripped j v (strip fs) k in ground arith

  -- the user's blocks at the event's own place
  users-stripped :
      (k : Bytes) (v : Value N) (fs : Fields N)
      → get_field fs k ≡ none
      → users (array_of (get_field (stripped k v fs) k)) ≡ users (array_or_empty v)
  unfolding stripped get_field users keep_items
  users-stripped k (array xs) fs h = elim (Bool-cases (is_empty (users xs))) [
    | inl e ↦ rw (e, h) (sym (is_empty→≡ (users xs) e))
    | inr e ↦ rw (e, same_bytes_refl k, users-users xs)
  ]
  users-stripped k null fs h = rw (same_bytes_refl k)
  users-stripped k (bool b) fs h = rw (same_bytes_refl k)
  users-stripped k (number n) fs h = rw (same_bytes_refl k)
  users-stripped k (string s) fs h = rw (same_bytes_refl k)
  users-stripped k (object o) fs h = rw (same_bytes_refl k)

  ours-stripped :
      (k : Bytes) (v : Value N) (fs : Fields N)
      → get_field fs k ≡ none
      → ours (array_of (get_field (stripped k v fs) k)) ≡ nil
  unfolding stripped get_field keep_items
  ours-stripped k (array xs) fs h = elim (Bool-cases (is_empty (users xs))) [
    | inl e ↦ rw (e, h)
    | inr e ↦ rw (e, same_bytes_refl k, ours-users xs)
  ]
  ours-stripped k null fs h = rw (same_bytes_refl k)
  ours-stripped k (bool b) fs h = rw (same_bytes_refl k)
  ours-stripped k (number n) fs h = rw (same_bytes_refl k)
  ours-stripped k (string s) fs h = rw (same_bytes_refl k)
  ours-stripped k (object o) fs h = rw (same_bytes_refl k)

  -- The user's blocks of every event are there after `strip`.
  pub users-strip :
      (fs : Fields N) (k : Bytes)
      → IsObject fs
      → users (array_of (get_field (strip fs) k)) ≡ users (array_of (get_field fs k))
  unfolding strip get_field
  users-strip end k h = refl
  users-strip (field j v fs) k h = elim (Bool-cases (is_event j)) [
    | inl e ↦
        rw (e, get_field)
          (elim (Bool-cases (same_bytes j k)) [
            | inl f ↦ rw f
            | inr f ↦ rw (f, users-strip fs k h.1)
          ])
    | inr e ↦ rw e (elim (Bool-cases (same_bytes j k)) [
      | inl f ↦
          rw (f, sym (same_bytes→≡ j k f))
            (users-stripped j v (strip fs) (get_field-strip-none fs j h.0))
      | inr f ↦ rw (f, get_field-stripped j v (strip fs) k f, users-strip fs k h.1)
    ])
  ]

  -- `strip` leaves none of our blocks where we do not subscribe.
  pub ours-strip :
      (fs : Fields N) (k : Bytes)
      → IsObject fs
      → is_event k ≡ false
      → ours (array_of (get_field (strip fs) k)) ≡ nil
  unfolding strip get_field keep_items
  ours-strip end k h o = refl
  ours-strip (field j v fs) k h o = elim (Bool-cases (same_bytes j k)) [
    | inl f ↦
        let e : is_event j ≡ false = rw (same_bytes→≡ j k f) o in
        rw e (
          rw (sym (same_bytes→≡ j k f))
            (ours-stripped j v (strip fs) (get_field-strip-none fs j h.0)))
    | inr f ↦ elim (Bool-cases (is_event j)) [
      | inl e ↦ rw (e, get_field) (rw (f, ours-strip fs k h.1 o))
      | inr e ↦ rw e (rw (get_field-stripped j v (strip fs) k f, ours-strip fs k h.1 o))
    ]
  ]

  strip-stripped :
      (k : Bytes) (v : Value N) (fs : Fields N)
      → is_event k ≡ false
      → strip fs ≡ fs
      → strip (stripped k v fs) ≡ stripped k v fs
  unfolding strip stripped
  strip-stripped k (array xs) fs o h = elim (Bool-cases (is_empty (users xs))) [
    | inl e ↦ rw (e, h)
    | inr e ↦ rw (e, strip) (rw (o, users-users xs, e, h))
  ]
  strip-stripped k null fs o h = rw (o, h)
  strip-stripped k (bool b) fs o h = rw (o, h)
  strip-stripped k (number n) fs o h = rw (o, h)
  strip-stripped k (string s) fs o h = rw (o, h)
  strip-stripped k (object p) fs o h = rw (o, h)

  pub strip-strip : (fs : Fields N) → strip (strip fs) ≡ strip fs
  unfolding strip
  strip-strip end = refl
  strip-strip (field j v fs) = elim (Bool-cases (is_event j)) [
    | inl e ↦ rw (e, strip) (rw (e, strip-strip fs))
    | inr e ↦ rw e (strip-stripped j v (strip fs) e (strip-strip fs))
  ]

  set_field-stripped :
      (k : Bytes) (v : Value N) (fs : Fields N) (ev : Bytes) (u : Value N)
      → same_bytes k ev ≡ false
      → set_field (stripped k v fs) ev u ≡ stripped k v (set_field fs ev u)
  unfolding stripped set_field
  set_field-stripped k (array xs) fs ev u h = elim (Bool-cases (is_empty (users xs))) [
    | inl e ↦ rw e
    | inr e ↦ rw (e, h)
  ]
  set_field-stripped k null fs ev u h = rw h
  set_field-stripped k (bool b) fs ev u h = rw h
  set_field-stripped k (number n) fs ev u h = rw h
  set_field-stripped k (string s) fs ev u h = rw h
  set_field-stripped k (object p) fs ev u h = rw h

  -- An event of ours that is written is not touched.
  pub strip-set_field :
      (fs : Fields N) (ev : Bytes) (u : Value N)
      → is_event ev ≡ true
      → strip (set_field fs ev u) ≡ set_field (strip fs) ev u
  unfolding strip set_field
  strip-set_field end ev u h = rw h
  strip-set_field (field j v fs) ev u h = elim (Bool-cases (same_bytes j ev)) [
    | inl f ↦ rw (same_bytes→≡ j ev f) (rw (same_bytes_refl ev, h) (rw (same_bytes_refl ev)))
    | inr f ↦ elim (Bool-cases (is_event j)) [
      | inl e ↦ rw (f, e, strip) (rw (f, strip-set_field fs ev u h))
      | inr e ↦
          rw (f, e, strip)
            (rw (strip-set_field fs ev u h, set_field-stripped j v (strip fs) ev u f))
    ]
  ]
