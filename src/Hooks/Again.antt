-- ===== src/Hooks/Again.antt =====
-- bridge/src/bin/install_hooks.rs: a merge into settings that were merged before.
use cydrust.Prelude.{◌≡◌, refl, ap, true, false, if◌then◌else◌}
use cydrust.Proto.Model.{Bytes}
use cydrust.Proto.Same.{same_bytes, same_list}
use cydrust.Proto.Reflexive.{same_bytes_refl}
use cydrust.Json.{Value, array, object, Items, Fields, set_field}
use cydrust.Json.Laws.{set_field-set_field, set_field_over}
use cydrust.Hooks.{
  notification, stop, hooks_key, is_marked, is_event, array_at, object_or_empty, strip, registered,
  register, merge_events, merge_hooks,
}
use cydrust.Hooks.Strip.{array_at_lem, strip-strip, strip-set_field}
use cydrust.Hooks.Merge.{array_of-register, users-registered, object_at-set_field, hooks_of}

module _ {N : Type 0} where
  registered-registered :
      (c d : Bytes) (xs : Items N)
      → is_marked c ≡ true
      → registered d (registered c xs) ≡ registered d xs
  unfolding registered
  registered-registered c d xs h = rw (users-registered c xs h)

  array_at-register :
      (c k : Bytes) (fs : Fields N) (j : Bytes)
      → array_at (register c k fs) j
        ≡ (if same_bytes k j then registered c (array_at fs j) else array_at fs j)
  array_at-register c k fs j =
      rw (array_at_lem (register c k fs) j, array_at_lem fs j) (array_of-register c k fs j)

  -- a registration where the blocks that are there are known
  register_eq :
      (c k : Bytes) (fs : Fields N) (xs : Items N)
      → array_at fs k ≡ xs
      → register c k fs ≡ set_field fs k (array (registered c xs))
  unfolding register
  register_eq c k fs xs h = rw h

  register-register :
      (c d k : Bytes) (fs : Fields N)
      → is_marked c ≡ true
      → register d k (register c k fs) ≡ register d k fs
  register-register c d k fs m =
      let there : array_at (register c k fs) k ≡ registered c (array_at fs k) =
        rw (array_at-register c k fs k) (rw (same_bytes_refl k)) in
      rw
        (
          register_eq d k (register c k fs) (registered c (array_at fs k)) there,
          registered-registered c d (array_at fs k) m,
          register_eq c k fs (array_at fs k) refl,
          register_eq d k fs (array_at fs k) refl,
        )
        (set_field-set_field fs k (array (registered c (array_at fs k)))
          (array (registered d (array_at fs k))))

  -- a registration under another event in between
  register_over :
      (c d k j : Bytes) (fs : Fields N)
      → is_marked c ≡ true
      → same_bytes k j ≡ false
      → same_bytes j k ≡ false
      → register d k (register c j (register c k fs)) ≡ register c j (register d k fs)
  register_over c d k j fs m h g =
      let first : array_at (register c k fs) j ≡ array_at fs j =
        rw (array_at-register c k fs j) (rw h) in
      let other : array_at (register d k fs) j ≡ array_at fs j =
        rw (array_at-register d k fs j) (rw h) in
      let there : array_at (register c j (register c k fs)) k ≡ registered c (array_at fs k) =
        rw (array_at-register c j (register c k fs) k)
          (rw (g, array_at-register c k fs k) (rw (same_bytes_refl k))) in
      rw
        (
          register_eq d k (register c j (register c k fs)) (registered c (array_at fs k)) there,
          registered-registered c d (array_at fs k) m,
          register_eq c j (register c k fs) (array_at fs j) first,
          register_eq c j (register d k fs) (array_at fs j) other,
          register_eq c k fs (array_at fs k) refl,
          register_eq d k fs (array_at fs k) refl,
        )
        (set_field_over fs k j (array (registered c (array_at fs k)))
          (array (registered c (array_at fs j))) (array (registered d (array_at fs k))) h)

  strip-register :
      (c k : Bytes) (fs : Fields N)
      → is_event k ≡ true
      → strip fs ≡ fs
      → strip (register c k fs) ≡ register c k fs
  unfolding register
  strip-register c k fs h s = rw (strip-set_field fs k (array (registered c (array_at fs k))) h, s)

  strip-merge : (c : Bytes) (fs : Fields N) → strip (merge_events c fs) ≡ merge_events c fs
  unfolding merge_events same_list
  strip-merge c fs =
      strip-register c stop (register c notification (strip fs)) refl
        (strip-register c notification (strip fs) refl (strip-strip fs))

  register_both :
      (c d : Bytes) (fs : Fields N)
      → is_marked c ≡ true
      → register d stop (register d notification (register c stop (register c notification fs)))
        ≡ register d stop (register d notification fs)
  unfolding same_list
  register_both c d fs m =
      rw (register_over c d notification stop fs m refl refl)
        (register-register c d stop (register d notification fs) m)

  pub merge-merge :
      (c d : Bytes) (fs : Fields N)
      → is_marked c ≡ true
      → merge_events d (merge_events c fs) ≡ merge_events d fs
  unfolding merge_events
  merge-merge c d fs m = rw (strip-merge c fs) (register_both c d (strip fs) m)

  -- Where the first command has the marker `vibe_hook`, merging a second time replaces the first
  -- registration: with the same command it changes nothing.
  pub merge_hooks-merge_hooks :
      (v : Value N) (c d : Bytes)
      → is_marked c ≡ true
      → merge_hooks (merge_hooks v c) d ≡ merge_hooks v d
  unfolding merge_hooks
  merge_hooks-merge_hooks v c d m =
      let root = object_or_empty v in
      let first = merge_events c (hooks_of v) in
      rw (object_at-set_field root hooks_key first, merge-merge c d (hooks_of v) m)
        (ap object (
          set_field-set_field root hooks_key (object first) (object (merge_events d (hooks_of v)))))
