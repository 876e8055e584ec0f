-- ===== src/Metrics/Codex/Files.antt =====
-- bridge/src/metrics.rs: the tokens and the sessions of Codex, file by file.
use cydrust.Prelude.{
  ℕ, ◌≡◌, refl, sym, ◌∙◌, Bool, ◌&&◌, Option, some, List, [], ◌∷◌, if◌then◌else◌, Bool-cases, inl,
  inr,
}
use cydrust.Proto.Model.{Bytes}
use cydrust.Json.{Value}
use cydrust.Bridge.Map.{Map}
use cydrust.Tree.Sum.{add_assoc, add_zero}
use cydrust.Metrics.Number.{Real, Number, add, is_positive}
use cydrust.Metrics.Build.{Builder, default_builder, accum, finalize, metric_of}
use cydrust.Metrics.Claude.{File, is_today, add_session}
use cydrust.Metrics.Codex.{codex_tokens_by_model, codex_file, codex_files, codex_metrics}

module _ {N F : Type 0} (real : Real F) (num : Number N F)
    (from_line : Bytes → Option (Value N)) where
  -- a file of today with tokens
  abbrev pub counts : F → File F → Bool
  counts midnight f =
      is_today real midnight f
      && is_positive (codex_tokens_by_model real num from_line f.text).total

  -- the totals of those files, added up
  abbrev pub totals_of : F → List (File F) → ℕ
  totals_of midnight [] = 0
  totals_of midnight (f ∷ fs) =
      if counts midnight f
      then add (codex_tokens_by_model real num from_line f.text).total (totals_of midnight fs)
      else totals_of midnight fs

  -- their number
  abbrev pub count_of_files : F → List (File F) → ℕ
  count_of_files midnight [] = 0
  count_of_files midnight (f ∷ fs) =
      if counts midnight f then add 1 (count_of_files midnight fs) else count_of_files midnight fs

  -- the builder after one file
  abbrev after_file : F → Map (F × F) → File F → Builder F → Builder F
  after_file midnight pricing f b =
      if is_today real midnight f
      then codex_file real pricing (codex_tokens_by_model real num from_line f.text) b
      else b

  after_file-tokens :
      (midnight : F) (pricing : Map (F × F)) (f : File F) (b : Builder F)
      → (after_file midnight pricing f b).tokens ≡ (
          if counts midnight f
          then add b.tokens (codex_tokens_by_model real num from_line f.text).total
          else b.tokens)
  unfolding codex_file accum add_session
  after_file-tokens midnight pricing f b = elim (Bool-cases (is_today real midnight f)) [
    | inr e ↦ rw e
    | inl e ↦
        rw e
          (elim (Bool-cases (is_positive (codex_tokens_by_model real num from_line f.text).total)) [
            | inl p ↦ rw p
            | inr p ↦ rw p
          ])
  ]

  after_file-sessions :
      (midnight : F) (pricing : Map (F × F)) (f : File F) (b : Builder F)
      → (after_file midnight pricing f b).sessions
        ≡ (if counts midnight f then add b.sessions 1 else b.sessions)
  unfolding codex_file accum add_session
  after_file-sessions midnight pricing f b = elim (Bool-cases (is_today real midnight f)) [
    | inr e ↦ rw e
    | inl e ↦
        rw e
          (elim (Bool-cases (is_positive (codex_tokens_by_model real num from_line f.text).total)) [
            | inl p ↦ rw p
            | inr p ↦ rw p
          ])
  ]

  codex_files-tokens :
      (midnight : F) (pricing : Map (F × F)) (fs : List (File F)) (b : Builder F) (a c : ℕ)
      → b.tokens ≡ add a c
      → (codex_files real num from_line midnight pricing fs b).tokens
        ≡ add b.tokens (totals_of midnight fs)
  unfolding codex_files
  codex_files-tokens midnight pricing [] b a c h = rw h (sym (add_zero a c))
  codex_files-tokens midnight pricing (f ∷ fs) b a c h =
      let next = after_file midnight pricing f b in
      let step = after_file-tokens midnight pricing f b in
      let total = (codex_tokens_by_model real num from_line f.text).total in
      elim (Bool-cases (counts midnight f)) [
        | inl e ↦
            let t : next.tokens ≡ add b.tokens total = rw e at step in
            rw (codex_files-tokens midnight pricing fs next b.tokens total t, t, e)
              (add_assoc b.tokens total (totals_of midnight fs))
        | inr e ↦
            let t : next.tokens ≡ b.tokens = rw e at step in
            rw (codex_files-tokens midnight pricing fs next a c (t ∙ h), t, e)
      ]

  codex_files-sessions :
      (midnight : F) (pricing : Map (F × F)) (fs : List (File F)) (b : Builder F) (a c : ℕ)
      → b.sessions ≡ add a c
      → (codex_files real num from_line midnight pricing fs b).sessions
        ≡ add b.sessions (count_of_files midnight fs)
  unfolding codex_files
  codex_files-sessions midnight pricing [] b a c h = rw h (sym (add_zero a c))
  codex_files-sessions midnight pricing (f ∷ fs) b a c h =
      let next = after_file midnight pricing f b in
      let step = after_file-sessions midnight pricing f b in
      elim (Bool-cases (counts midnight f)) [
        | inl e ↦
            let t : next.sessions ≡ add b.sessions 1 = rw e at step in
            rw (codex_files-sessions midnight pricing fs next b.sessions 1 t, t, e)
              (add_assoc b.sessions 1 (count_of_files midnight fs))
        | inr e ↦
            let t : next.sessions ≡ b.sessions = rw e at step in
            rw (codex_files-sessions midnight pricing fs next a c (t ∙ h), t, e)
      ]

  -- Codex's tokens are the totals of today's files with tokens, added up, and its sessions the
  -- number of these files.
  pub codex_metrics-files :
      (midnight : F) (pricing : Map (F × F)) (fs : List (File F))
      → ((codex_metrics real num from_line midnight pricing (some fs)).tokens
          ≡ add 0 (totals_of midnight fs))
        × ((codex_metrics real num from_line midnight pricing (some fs)).sessions
            ≡ add 0 (count_of_files midnight fs))
  unfolding codex_metrics finalize metric_of add
  codex_metrics-files midnight pricing fs = (
    codex_files-tokens midnight pricing fs default_builder 0 0 refl,
    codex_files-sessions midnight pricing fs default_builder 0 0 refl,
  )
