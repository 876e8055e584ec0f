-- ===== src/Json.antt =====
-- serde_json's `Value` and `Map`, as the bridge's programs use them. `N` stands for the crate's
-- numbers. The map is a list of fields; a new key goes last, so that the order by key, which the
-- crate keeps, is not modelled.
pub mod Laws
use cydrust.Prelude.{ℕ, Bool, true, false, Option, none, some, List, [], ◌∷◌, if◌then◌else◌}
use cydrust.Proto.Model.{Bytes}
use cydrust.Proto.Same.{same_bytes}

mutual
  pub data Value (N : Type 0) : Type 0 where
    null : Value N
    bool : Bool → Value N
    number : N → Value N
    string : Bytes → Value N
    array : Items N → Value N
    object : Fields N → Value N

  pub data Items (N : Type 0) : Type 0 where
    nil : Items N
    cons : Value N → Items N → Items N

  pub data Fields (N : Type 0) : Type 0 where
    end : Fields N
    field : Bytes → Value N → Fields N → Fields N

module _ {N : Type 0} where
  unfoldable pub get_field : Fields N → Bytes → Option (Value N)
  get_field end k = none
  get_field (field j v fs) k = if same_bytes j k then some v else get_field fs k

  -- `Map::insert`
  unfoldable pub set_field : Fields N → Bytes → Value N → Fields N
  set_field end k v = field k v end
  set_field (field j w fs) k v =
      let rest = set_field fs k v in if same_bytes j k then field j v fs else field j w rest

  -- `Value::get` with a key
  abbrev pub get : Value N → Bytes → Option (Value N)
  get (object fs) k = get_field fs k
  get _ k = none

  -- `v[k]`, which is null where there is no such field
  abbrev pub index : Value N → Bytes → Value N
  index v k = elim (get v k) [ none ↦ null | some w ↦ w ]

  abbrev pub as_str : Value N → Option Bytes
  as_str (string s) = some s
  as_str _ = none

  abbrev pub as_bool : Value N → Option Bool
  as_bool (bool b) = some b
  as_bool _ = none

  abbrev pub as_array : Value N → Option (Items N)
  as_array (array xs) = some xs
  as_array _ = none

  abbrev pub is_object : Value N → Bool
  is_object (object fs) = true
  is_object _ = false

  -- `Option::and_then` of a lookup
  abbrev pub get_str : Value N → Bytes → Option Bytes
  get_str v k = elim (get v k) [ none ↦ none | some w ↦ as_str w ]

  -- `Option::filter` of a lookup by `is_object`
  abbrev pub get_object : Value N → Bytes → Option (Value N)
  get_object v k = elim (get v k) [ none ↦ none | some w ↦ if is_object w then some w else none ]
