-- ===== src/Ota/Written.antt =====
-- firmware/src/ota.rs: what is written and when the boot partition is switched.
use cydrust.Prelude.{
  ℕ, ◌+◌, ◌<◌, ◌≡◌, Bool, true, false, Option, none, some, List, [], ◌∷◌, ◌++◌, length,
}
use cydrust.Proto.Model.{Bytes}
use cydrust.Ota.{
  Failure, Outcome, activated, failed, Flash, begin, abort, complete, write, Info, Read, World,
}
use cydrust.Ota.Fresh.{served, IsNew}

-- the body where a chunk comes first
abbrev pub then_body : Bytes → Option Bytes → Option Bytes
then_body chunk none = none
then_body chunk (some rest) = some (chunk ++ rest)

-- the body that the reads give, up to the first that gives no bytes; none where a read fails, or
-- where the flash does not take what it gives
abbrev pub body : List Read → Option Bytes
body [] = some []
body ((none, taken) ∷ reads) = none
body ((some [], taken) ∷ reads) = some []
body ((some (c ∷ cs), false) ∷ reads) = none
body ((some (c ∷ cs), true) ∷ reads) = then_body (c ∷ cs) (body reads)

-- the bytes that the calls write, in their order
abbrev pub written : List Flash → Bytes
written [] = []
written (write chunk ∷ calls) = chunk ++ written calls
written (_ ∷ calls) = written calls

-- after the begin, writes and then one end of the update: an abort, or the switch
abbrev pub Closes : List Flash → Flash → Type 0
Closes [] end = ⊥
Closes (c ∷ []) end = c ≡ end
Closes (write chunk ∷ c ∷ calls) end = Closes (c ∷ calls) end
Closes (_ ∷ c ∷ calls) end = ⊥

-- what an outcome promises of the calls and of the body, where so many bytes are written before
abbrev pub Keeps : Bool → ℕ → Option Bytes → List Flash → Outcome → Type 0
Keeps valid total whole calls activated =
    (valid ≡ true)
    × (whole ≡ some (written calls))
    × (0 < total + length (written calls))
    × Closes calls complete
Keeps valid total whole calls (failed Failure.invalid) = (valid ≡ false) × Closes calls complete
Keeps valid total whole calls _ = Closes calls abort

-- no call was made, and the outcome is a failure
abbrev pub IsUntouched : List Flash × Outcome → Type 0
IsUntouched (calls, failed f) = calls ≡ []
IsUntouched (calls, _) = ⊥

-- the update was begun, and the rest keeps what the outcome promises
abbrev pub IsClosed : (Bytes → Info) → World → List Flash × Outcome → Type 0
IsClosed fetch w r =
    (calls : List Flash) × (r.0 ≡ begin ∷ calls)
    × Keeps w.valid 0 (body w.reads) calls r.1
    × IsNew (served fetch [] w.reads) w.running r.1
