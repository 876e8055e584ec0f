-- ===== src/Ota/Fresh.antt =====
-- firmware/src/ota.rs: the version that is served, against the one that runs.
use cydrust.Prelude.{
  ◌∙◌, ◌≢◌, ◌&&◌, leb, ltb, if◌then◌else◌, ℕ, ◌+◌, ◌≡◌, refl, ◌⊎◌, inl, inr, Bool, true, false,
  Option, none, some, List, [], ◌∷◌, ◌++◌, arith, length, Bool-cases,
}
use cydrust.Proto.Model.{Bytes}
use cydrust.Proto.Same.{same_bytes}
use cydrust.Proto.Reflexive.{same_bytes_refl}
use cydrust.Ota.{
  is_current, checked, valve, max_header, version, more, unreadable, Failure, Outcome, activated,
  up_to_date, failed, Info, Read, Progress, peek, download,
}

Info-cases : (i : Info) → ((v : Bytes) × (i ≡ version v)) ⊎ (i ≡ more) ⊎ (i ≡ unreadable)
Info-cases (version v) = inl (v, refl)
Info-cases more = inr (inl refl)
Info-cases unreadable = inr (inr refl)

abbrev first_version : Info → Option Bytes → Option Bytes
first_version (version v) rest = some v
first_version more rest = rest
first_version unreadable rest = rest

-- The version that is served: the first that can be read from the chunks so far. Once these are
-- more than 8192 bytes, no further chunk is looked at.
abbrev pub served : (Bytes → Info) → Bytes → List Read → Option Bytes
served fetch header [] = none
served fetch header ((none, taken) ∷ reads) = none
served fetch header ((some [], taken) ∷ reads) = none
served fetch header ((some (c ∷ cs), taken) ∷ reads) =
    let rest = served fetch (header ++ c ∷ cs) reads in
    first_version (fetch (header ++ c ∷ cs))
      (if leb (length (header ++ c ∷ cs)) 8192 then rest else none)

-- an image that serves the version that runs is not activated
abbrev pub IsNew : Option Bytes → Option Bytes → Outcome → Type 0
IsNew none running outcome = Unit
IsNew (some v) none outcome = Unit
IsNew (some v) (some []) outcome = Unit
IsNew (some v) (some (b ∷ bs)) activated = v ≢ b ∷ bs
IsNew (some v) (some (b ∷ bs)) up_to_date = Unit
IsNew (some v) (some (b ∷ bs)) (failed f) = Unit

IsNew-up_to_date : (o running : Option Bytes) → IsNew o running up_to_date
IsNew-up_to_date none running = tt
IsNew-up_to_date (some v) none = tt
IsNew-up_to_date (some v) (some []) = tt
IsNew-up_to_date (some v) (some (b ∷ bs)) = tt

IsNew-failed : (o running : Option Bytes) (f : Failure) → IsNew o running (failed f)
IsNew-failed none running f = tt
IsNew-failed (some v) none f = tt
IsNew-failed (some v) (some []) f = tt
IsNew-failed (some v) (some (b ∷ bs)) f = tt

IsNew-other :
    (v : Bytes) (running : Option Bytes) (outcome : Outcome)
    → is_current running v ≡ false
    → IsNew (some v) running outcome
unfolding is_current
IsNew-other v none outcome h = tt
IsNew-other v (some []) outcome h = tt
IsNew-other v (some (b ∷ bs)) up_to_date h = tt
IsNew-other v (some (b ∷ bs)) (failed f) h = tt
IsNew-other v (some (b ∷ bs)) activated h = λ e.
    let own = same_bytes_refl (b ∷ bs) in
    let k : (same_bytes (b ∷ bs) (b ∷ bs) && true) ≡ false = rw e at h in
    let f : true ≡ false = rw own at k in cc

module _ (fetch : Bytes → Info) (running : Option Bytes) where
  -- what a chunk that is looked at leads to
  peek-first :
      (chunk : Bytes) (p : Progress)
      → p.version_checked ≡ false
      → peek fetch running chunk p
        ≡ checked fetch running
            (fetch (p.header ++ chunk))
            (record p { header = p.header ++ chunk })
  unfolding peek
  peek-first chunk p h = rw h

  valve-kept :
      (p : Progress)
      → ((leb (length p.header) max_header ≡ true) × (valve p ≡ p))
        ⊎ (leb (length p.header) max_header ≡ false)
  unfolding valve
  valve-kept p = elim (Bool-cases (ltb max_header (length p.header))) [
    | inl e ↦ inr (ground arith)
    | inr e ↦ inl (ground arith, rw e)
  ]

  -- what the rest of the download says, where the peek goes on
  abbrev Goes : (Outcome → Type 0) → Bool → List Read → ℕ → Option Progress → Type 0
  Goes P valid reads total none = Unit
  Goes P valid reads total (some q) =
      P (download fetch running valid reads (record q { total = total })).1

  download-then :
      (P : Outcome → Type 0) (valid taken : Bool) (c : ℕ) (cs : Bytes) (reads : List Read)
      (p : Progress) (o : Option Progress)
      → peek fetch running (c ∷ cs) p ≡ o
      → P up_to_date
      → ((f : Failure) → P (failed f))
      → Goes P valid reads (p.total + length (c ∷ cs)) o
      → P (download fetch running valid ((some (c ∷ cs), taken) ∷ reads) p).1
  unfolding download
  download-then P valid taken c cs reads p none e u f g = rw (e, download) u
  download-then P valid false c cs reads p (some q) e u f g =
      rw (e, download) (f (Failure.write_failed p.total))
  download-then P valid true c cs reads p (some q) e u f g = rw (e, download) g

  -- the chunks so far, to be looked at
  abbrev with_chunk : Progress → Bytes → Progress
  with_chunk p chunk = record p { header = p.header ++ chunk }

  -- a chunk in which the version cannot be read yet, or not at all
  unread-Goes :
      (valid taken : Bool) (c : ℕ) (cs : Bytes) (reads : List Read) (p : Progress)
      → ((q : Progress)
          → q.version_checked ≡ false
          → IsNew (served fetch q.header reads) running (download fetch running valid reads q).1)
      → p.version_checked ≡ false
      → ((rest : Option Bytes) → first_version (fetch (p.header ++ c ∷ cs)) rest ≡ rest)
      → Goes
          (IsNew (served fetch p.header ((some (c ∷ cs), taken) ∷ reads)) running)
          valid
          reads
          (p.total + length (c ∷ cs))
          (some (valve (with_chunk p (c ∷ cs))))
  unread-Goes valid taken c cs reads p ih h e = elim (valve-kept (with_chunk p (c ∷ cs))) [
    | inl (k, same) ↦
        rw (same, k, e (served fetch (p.header ++ c ∷ cs) reads))
          (ih (record p { header = p.header ++ c ∷ cs; total = p.total + length (c ∷ cs) }) h)
    | inr k ↦ rw (k, e none) tt
  ]

  pub download-IsNew :
      (valid : Bool) (reads : List Read) (p : Progress)
      → p.version_checked ≡ false
      → IsNew (served fetch p.header reads) running (download fetch running valid reads p).1
  unfolding download checked
  download-IsNew valid [] p h = tt
  download-IsNew valid ((none, taken) ∷ reads) p h = tt
  download-IsNew valid ((some [], taken) ∷ reads) p h = tt
  download-IsNew valid ((some (c ∷ cs), taken) ∷ reads) p h =
      let all = served fetch p.header ((some (c ∷ cs), taken) ∷ reads) in
      let first = peek-first (c ∷ cs) p h in
      elim (Info-cases (fetch (p.header ++ c ∷ cs))) [
        | inl (v, e) ↦ elim (Bool-cases (is_current running v)) [
          | inl k ↦
              download-then (IsNew all running) valid taken c cs reads p none
                (first ∙ rw (e, checked) (rw k)) (IsNew-up_to_date all running)
                (IsNew-failed all running) tt
          | inr k ↦
              download-then (IsNew all running) valid taken c cs reads p
                (some
                  (valve (record (with_chunk p (c ∷ cs)) { version_checked = true; header = [] })))
                (first ∙ rw (e, checked) (rw k)) (IsNew-up_to_date all running)
                (IsNew-failed all running) (rw e (IsNew-other v running _ k))
        ]
        | inr (inl e) ↦
            download-then (IsNew all running) valid taken c cs reads p
              (some (valve (with_chunk p (c ∷ cs)))) (first ∙ rw (e, checked))
              (IsNew-up_to_date all running) (IsNew-failed all running)
              (unread-Goes valid taken c cs reads p (λ q g. download-IsNew valid reads q g) h
                (λ rest. rw e))
        | inr (inr e) ↦
            download-then (IsNew all running) valid taken c cs reads p
              (some (valve (with_chunk p (c ∷ cs)))) (first ∙ rw (e, checked))
              (IsNew-up_to_date all running) (IsNew-failed all running)
              (unread-Goes valid taken c cs reads p (λ q g. download-IsNew valid reads q g) h
                (λ rest. rw e))
      ]
