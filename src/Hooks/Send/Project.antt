-- ===== src/Hooks/Send/Project.antt =====
-- bridge/src/bin/vibe_hook.rs: the project of a working directory.
use cydrust.Prelude.{ℕ, ◌≡◌, refl, false, [], ◌∷◌, ◌++◌, replicate, Bool-cases, inl, inr}
use cydrust.Proto.Model.{Bytes}
use cydrust.Strings.{has, last_part, is_nil, trim_end, replace}
use cydrust.Strings.Parts.{
  after_last-append, has-last_part, has-replicate, is_nil-append, trim_end_none, trim_end-replicate,
  trim_end_kept, replace-append, replace_id,
}
use cydrust.Hooks.Send.{project_from_cwd}

-- The project is the last component of the directory: a name without slashes and backslashes that
-- stands after one and before any number of slashes at the end.
pub project_from_cwd-name :
    (dir name : Bytes) (n : ℕ)
    → has b'/' name ≡ false
    → has b'\\' name ≡ false
    → is_nil name ≡ false
    → project_from_cwd ((dir ++ b'/' ∷ name) ++ replicate n b'/') ≡ name
unfolding project_from_cwd has last_part
project_from_cwd-name dir name n h g e =
    let path = replace b'\\' b'/' dir in
    let kept = trim_end_kept b'/' (b'/' ∷ []) name (trim_end_none b'/' name h) e in
    rw
      (
        replace-append b'\\' b'/' (dir ++ b'/' ∷ name) (replicate n b'/'),
        replace-append b'\\' b'/' dir (b'/' ∷ name),
        replace_id b'\\' b'/' (b'/' ∷ name) g,
        replace_id b'\\' b'/' (replicate n b'/') (has-replicate b'\\' b'/' n refl),
        trim_end-replicate b'/' n (path ++ b'/' ∷ name),
        trim_end_kept b'/' path (b'/' ∷ name) kept refl,
      )
      (rw (is_nil-append path (b'/' ∷ name) refl, after_last-append b'/' path name h))

-- A project is never empty and has no slash.
pub project_from_cwd-IsName : (cwd : Bytes) → has b'/' (project_from_cwd cwd) ≡ false
unfolding project_from_cwd has
project_from_cwd-IsName cwd = elim (Bool-cases (is_nil (trim_end b'/' (replace b'\\' b'/' cwd)))) [
  | inl e ↦ rw e
  | inr e ↦ rw e (has-last_part b'/' (trim_end b'/' (replace b'\\' b'/' cwd)))
]
