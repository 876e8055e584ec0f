-- ===== src/Ota/Examples.antt =====
-- firmware/src/ota.rs: an update of two chunks.
use cydrust.Prelude.{◌≡◌, refl, true, some, [], ◌∷◌}
use cydrust.Proto.Model.{Bytes}
use cydrust.Proto.Same.{same_list}
use cydrust.Ota.{
  World, Info, version, more, begin, write, complete, activated, is_current, valve, checked, peek,
  finish, download, update, check_and_update,
}

-- the version is the first byte
abbrev fetch : Bytes → Info
fetch [] = more
fetch (c ∷ cs) = version (c ∷ [])

abbrev world : World
world = record {
  partition = true;
  running = some (1 ∷ []);
  connects = true;
  requests = true;
  status = some 200;
  slot = true;
  reads = (some (2 ∷ 3 ∷ []), true) ∷ (some (4 ∷ []), true) ∷ (some [], true) ∷ [];
  valid = true;
}

check_and_update_writes :
    check_and_update fetch world
    ≡ (begin ∷ write (2 ∷ 3 ∷ []) ∷ write (4 ∷ []) ∷ complete ∷ [], activated)
unfolding check_and_update update download finish peek checked valve is_current same_list
check_and_update_writes = refl
