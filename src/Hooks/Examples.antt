-- ===== src/Hooks/Examples.antt =====
-- bridge/src/bin/install_hooks.rs and vibe_hook.rs: settings with a hook of the user's.
use cydrust.Prelude.{ℕ, ◌↔◌, ◌≡◌, refl, true, [], ◌∷◌, if◌then◌else◌}
use cydrust.Proto.Model.{Bytes}
use cydrust.Proto.Same.{same_list}
use cydrust.Proto.Scan.{find_str}
use cydrust.Json.{Value, string, array, object, nil, cons, end, field, get_field}
use cydrust.Hooks.{
  stop, hooks_key, command_key, is_event, is_marked, own_block, users, object_at, merge_hooks,
}
use cydrust.Hooks.Strip.{IsObject, ours}
use cydrust.Hooks.Marked.{NamesUs}
use cydrust.Hooks.Merge.{hooks_of, blocks, merge_hooks-users, merge_hooks-ours}
use cydrust.Hooks.Again.{merge_hooks-merge_hooks}

-- a command with the marker
abbrev command : Bytes
command =
    b'v' ∷ b'i' ∷ b'b' ∷ b'e' ∷ b'_' ∷ b'h' ∷ b'o' ∷ b'o' ∷ b'k' ∷ b' ' ∷ b'-' ∷ b'-' ∷ b'u' ∷ b'r'
    ∷ b'l' ∷ b' ' ∷ b'x' ∷ []

abbrev beep : Bytes
beep = b'b' ∷ b'e' ∷ b'e' ∷ b'p' ∷ []

abbrev user_block : Value ℕ
user_block =
    object (field hooks_key (array (cons (object (field command_key (string beep) end)) nil)) end)

abbrev settings : Value ℕ
settings = object (field hooks_key (object (field stop (array (cons user_block nil)) end)) end)

command-is_marked : is_marked command ≡ true
unfolding is_marked find_str
command-is_marked = refl

settings-IsObject : IsObject (hooks_of settings)
unfolding object_at get_field same_list
settings-IsObject = (refl, tt)

merge_hooks-users_example :
    (users (blocks (merge_hooks settings command) stop) ≡ users (blocks settings stop))
    × ((users (cons user_block nil) ≡ nil) ↔ NamesUs user_block)
merge_hooks-users_example =
    merge_hooks-users settings command stop user_block settings-IsObject command-is_marked

merge_hooks-ours_example :
    ours (blocks (merge_hooks settings command) stop)
    ≡ (if is_event stop then cons (own_block command) nil else nil)
merge_hooks-ours_example =
    merge_hooks-ours settings command stop settings-IsObject command-is_marked

merge_hooks-merge_hooks_example :
    merge_hooks (merge_hooks settings command) command ≡ merge_hooks settings command
merge_hooks-merge_hooks_example = merge_hooks-merge_hooks settings command command command-is_marked
