-- ===== src/Hooks/Merge.antt =====
-- bridge/src/bin/install_hooks.rs: what a merge leaves in the settings.
use cydrust.Prelude.{◌≡◌, ◌↔◌, ◌∙◌, refl, sym, true, false, if◌then◌else◌, Bool-cases, inl, inr}
use cydrust.Proto.Model.{Bytes}
use cydrust.Proto.Same.{same_bytes, same_list}
use cydrust.Proto.Reflexive.{same_bytes_refl}
use cydrust.Bridge.Map.{same_bytes→≡}
use cydrust.Json.{
  Value, null, bool, number, string, array, object, Items, nil, cons, Fields, get_field, set_field,
  get,
}
use cydrust.Json.Laws.{get_field-set_field}
use cydrust.Hooks.{
  notification, stop, hooks_key, is_marked, is_event, block_is_ours, hook_is_ours, ours_in,
  own_block, is_users, users, array_at, object_at, object_or_empty, strip, registered, register,
  merge_events, merge_hooks,
}
use cydrust.Hooks.Arrays.{keep_items, keep_items-push, push, any_item}
use cydrust.Hooks.Marked.{NamesUs, block_is_ours_iff}
use cydrust.Hooks.Strip.{
  IsObject, ours, ours-users, users-users, array_of, array_at_lem, users-strip, ours-strip,
}

block_is_ours-own_block :
    (N : Type 0) (c : Bytes) → is_marked c ≡ true → block_is_ours (own_block {N = N} c) ≡ true
unfolding block_is_ours own_block ours_in any_item hook_is_ours get_field same_list
block_is_ours-own_block N c h = rw h

module _ {N : Type 0} where
  cons-nil : (x : Value N) (xs : Items N) → cons x xs ≡ nil → ⊥
  cons-nil x xs h = cc

  -- the hooks of the settings
  abbrev pub hooks_of : Value N → Fields N
  hooks_of settings = object_at (object_or_empty settings) hooks_key

  -- the blocks of an event
  abbrev pub blocks : Value N → Bytes → Items N
  blocks settings ev = array_at (hooks_of settings) ev

  pub object_at-set_field :
      (fs : Fields N) (k : Bytes) (o : Fields N) → object_at (set_field fs k (object o)) k ≡ o
  unfolding object_at
  object_at-set_field fs k o =
      rw (get_field-set_field fs k (object o) k, object_at) (rw (same_bytes_refl k))

  pub hooks_of-merge :
      (v : Value N) (c : Bytes) → hooks_of (merge_hooks v c) ≡ merge_events c (hooks_of v)
  unfolding merge_hooks
  hooks_of-merge v c =
      object_at-set_field (object_or_empty v) hooks_key
        (merge_events c (object_at (object_or_empty v) hooks_key))

  pub array_of-register :
      (c k : Bytes) (fs : Fields N) (j : Bytes)
      → array_of (get_field (register c k fs) j) ≡ (
          if same_bytes k j
          then registered c (array_of (get_field fs j))
          else array_of (get_field fs j))
  unfolding register
  array_of-register c k fs j =
      rw (get_field-set_field fs k (array (registered c (array_at fs k))) j)
        (elim (Bool-cases (same_bytes k j)) [
          | inl e ↦ rw (e, sym (same_bytes→≡ k j e), array_at_lem fs k)
          | inr e ↦ rw e
        ])

  -- an event after the loop over `HOOK_EVENTS`
  array_of-merge :
      (c : Bytes) (fs : Fields N) (ev : Bytes)
      → array_of (get_field (merge_events c fs) ev) ≡ (
          if is_event ev
          then registered c (array_of (get_field (strip fs) ev))
          else array_of (get_field (strip fs) ev))
  unfolding merge_events same_list
  array_of-merge c fs ev = rw (array_of-register c stop (register c notification (strip fs)) ev) (
      rw (array_of-register c notification (strip fs) ev)
        (elim (Bool-cases (same_bytes notification ev)) [
          | inl e ↦ rw (sym (same_bytes→≡ notification ev e))
          | inr e ↦ rw e
        ]))

  pub users-registered :
      (c : Bytes) (xs : Items N) → is_marked c ≡ true → users (registered c xs) ≡ users xs
  unfolding registered users is_users
  users-registered c xs h =
      rw (keep_items-push is_users (users xs) (own_block c), block_is_ours-own_block N c h)
        (users-users xs)

  ours-registered :
      (c : Bytes) (xs : Items N)
      → is_marked c ≡ true
      → ours (registered c xs) ≡ cons (own_block c) nil
  unfolding registered push
  ours-registered c xs h =
      rw (keep_items-push block_is_ours (users xs) (own_block c), block_is_ours-own_block N c h)
        (rw (ours-users xs) refl)

  users-merge :
      (v : Value N) (c ev : Bytes)
      → IsObject (hooks_of v)
      → is_marked c ≡ true
      → users (blocks (merge_hooks v c) ev) ≡ users (blocks v ev)
  users-merge v c ev h m =
      rw
        (
          hooks_of-merge v c,
          array_at_lem (merge_events c (hooks_of v)) ev,
          array_at_lem (hooks_of v) ev,
        )
        (rw (array_of-merge c (hooks_of v) ev) (elim (Bool-cases (is_event ev)) [
          | inl e ↦
              rw (e, users-registered c (array_of (get_field (strip (hooks_of v)) ev)) m)
                (users-strip (hooks_of v) ev h)
          | inr e ↦ rw e (users-strip (hooks_of v) ev h)
        ]))

  -- Where no key of the hooks stands twice, and the command has the marker `vibe_hook`, a merge
  -- leaves the blocks that are not ours as they are, under every event and in their order; and a
  -- block is ours exactly where the text of one of its commands contains `vibe_hook`, whatever else
  -- is in it.
  pub merge_hooks-users :
      (v : Value N) (c ev : Bytes) (block : Value N)
      → IsObject (hooks_of v)
      → is_marked c ≡ true
      → (users (blocks (merge_hooks v c) ev) ≡ users (blocks v ev))
        × ((users (cons block nil) ≡ nil) ↔ NamesUs block)
  unfolding users is_users keep_items
  merge_hooks-users v c ev block h m = (
    users-merge v c ev h m,
    elim (Bool-cases (block_is_ours block)) [
      | inl e ↦ rw e (λ k. (block_is_ours_iff block).0 e, λ k. refl)
      | inr e ↦ rw e (
        λ k. elim (cons-nil block nil k) [ ],
        λ k. let f : false ≡ true = sym e ∙ (block_is_ours_iff block).1 k in cc,
      )
    ],
  )

  -- After a merge with a command that has the marker, exactly one block of ours stands under each
  -- event that is subscribed to, the one with this command, and none under any other.
  pub merge_hooks-ours :
      (v : Value N) (c ev : Bytes)
      → IsObject (hooks_of v)
      → is_marked c ≡ true
      → ours (blocks (merge_hooks v c) ev) ≡ (if is_event ev then cons (own_block c) nil else nil)
  merge_hooks-ours v c ev h m =
      rw (hooks_of-merge v c, array_at_lem (merge_events c (hooks_of v)) ev)
        (rw (array_of-merge c (hooks_of v) ev) (elim (Bool-cases (is_event ev)) [
          | inl e ↦ rw (e, ours-registered c (array_of (get_field (strip (hooks_of v)) ev)) m)
          | inr e ↦ rw e (ours-strip (hooks_of v) ev h e)
        ]))

  get_lem : (v : Value N) (k : Bytes) → get_field (object_or_empty v) k ≡ get v k
  unfolding get_field
  get_lem (object fs) k = refl
  get_lem null k = refl
  get_lem (bool b) k = refl
  get_lem (number n) k = refl
  get_lem (string s) k = refl
  get_lem (array xs) k = refl

  -- A key of the settings other than the hooks is as it was in the object, or absent where the
  -- settings were none.
  pub merge_hooks-other_key :
      (v : Value N) (c k : Bytes)
      → same_bytes hooks_key k ≡ false
      → get (merge_hooks v c) k ≡ get v k
  unfolding merge_hooks
  merge_hooks-other_key v c k h =
      let written =
        get_field-set_field (object_or_empty v) hooks_key
          (object (merge_events c (object_at (object_or_empty v) hooks_key))) k in
      rw (written, h) (get_lem v k)
