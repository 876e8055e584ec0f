-- ===== src/Proto/Provider/Capped.antt =====
-- firmware/src/proto.rs: the usage and the models that are read, against their caps.
use cydrust.Prelude.{
  ℕ, ◌+◌, ◌-◌, ◌≤◌, ◌≡◌, refl, inl, inr, Bool, true, false, ◌&&◌, Option, none, some, [], ◌∷◌,
  arith, All, All-append, if◌then◌else◌, ltb, ◌==◌, length, take, drop, length-append, Option-cases,
  Bool-cases,
}
use cydrust.Prelude.Int.{pos, negsuc, ◌+ℤ◌}
use cydrust.Prelude.Run.{ok}
use cydrust.Proto.Model.{Bytes, Usage, ModelRow, Metrics, max_models}
use cydrust.Proto.Same.{same_int}
use cydrust.Proto.Scan.{find_str, extract_str}
use cydrust.Proto.Text.Cut.{trunc_bytes-IsCut}
use cydrust.Proto.Provider.{
  Float32, contains, object_text, default_usage, cut_to, provider_of, provider_in, parse_provider,
  made_model, model_row, Models, add_model, close_model, on_model_char, scan_models, no_models,
  models_in, default_metrics, metrics_of, metrics_in, parse_metrics,
}

module _ {F : Type 0} where
  -- the caps of a model's strings, in bytes
  abbrev pub IsModelCapped : ModelRow F → Type 0
  IsModelCapped r = (length r.provider ≤ 10) × (length r.model ≤ 16)

  -- the cap of a usage's string
  abbrev pub IsClockCapped : Usage F → Type 0
  IsClockCapped u = length u.eta_clock ≤ 12

  -- at most six models, each within its caps
  abbrev pub IsMetricsCapped : Metrics F → Type 0
  IsMetricsCapped m = All IsModelCapped m.models × (length m.models ≤ 6)

module _ {F : Type 0} (float : Float32 F) where
  cut_to-fits :
      (n : ℕ) (o : Option Bytes) → (r : Bytes) × (cut_to float n o ≡ ok r) × (length r ≤ n)
  cut_to-fits n none = ([], refl, omega arith)
  cut_to-fits n (some s) = let (r, e, c) = trunc_bytes-IsCut s n in (r, e, c.fits)

  provider_in-IsClockCapped :
      (obj : Bytes) → (u : Usage F) × (provider_in float obj ≡ ok u) × IsClockCapped u
  unfolding provider_in provider_of
  provider_in-IsClockCapped obj =
      elim (Bool-cases
        (contains obj (b'"' ∷ b'o' ∷ b'k' ∷ b'"' ∷ b':' ∷ b't' ∷ b'r' ∷ b'u' ∷ b'e' ∷ []))) [
          | inl e ↦
              let (eta, f, c) = cut_to-fits 12 (extract_str obj (b'e' ∷ [])) in
              (provider_of float obj eta, rw (e, f), c)
          | inr e ↦ (default_usage float, rw e, omega arith)
        ]

  pub parse_provider-IsClockCapped :
      (text marker : Bytes)
      → (u : Usage F) × (parse_provider float text marker ≡ ok u) × IsClockCapped u
  unfolding parse_provider
  parse_provider-IsClockCapped text marker = elim (Option-cases (find_str marker text)) [
    | inl e ↦ (default_usage float, rw (e, parse_provider), omega arith)
    | inr (rest, e) ↦
        let (u, f, c) = provider_in-IsClockCapped (object_text 1 rest) in
        (u, rw (e, parse_provider) f, c)
  ]

  model_row-IsModelCapped :
      (o : Bytes) → (r : ModelRow F) × (model_row float o ≡ ok r) × IsModelCapped r
  unfolding model_row made_model
  model_row-IsModelCapped o =
      let (p, e, c) = cut_to-fits 10 (extract_str o (b'p' ∷ [])) in
      let (n, f, d) = cut_to-fits 16 (extract_str o (b'n' ∷ [])) in
      (made_model float o p n, rw (e, f), (c, d))

  -- what the loop keeps
  abbrev IsKept : Models float → Type 0
  IsKept st = All IsModelCapped st.rows × (length st.rows ≤ 6)

  add_model-IsKept :
      (st : Models float) (r : ModelRow F)
      → IsKept st
      → IsModelCapped r
      → IsKept (add_model float st r)
  unfolding add_model
  add_model-IsKept st r b c =
      let grown = length-append st.rows (r ∷ []) in
      let all = All-append IsModelCapped st.rows r b.0 c in
      elim (Bool-cases (ltb (length st.rows) max_models)) [
        | inl e ↦ rw e (all, ground arith)
        | inr e ↦ rw e b
      ]

  close_model-IsKept :
      (arr : Bytes) (st : Models float)
      → IsKept st
      → (t : Models float) × (close_model float arr st ≡ ok t) × IsKept t
  unfolding close_model
  close_model-IsKept arr st b = elim (Option-cases st.from) [
    | inl e ↦ (st, rw e, b)
    | inr (s, e) ↦
        let (r, f, c) = model_row-IsModelCapped (take (st.index + 1 - s) (drop s arr)) in
        (add_model float st r, rw (e, f), add_model-IsKept st r b c)
  ]

  on_model_char-IsKept :
      (arr : Bytes) (c : ℕ) (st : Models float)
      → IsKept st
      → (t : Models float × Bool) × (on_model_char float arr c st ≡ ok t) × IsKept t.0
  unfolding on_model_char
  on_model_char-IsKept arr c st b = elim (Bool-cases (c == b'{')) [
    | inl e ↦ (
      (
        record st {
          depth = st.depth +ℤ pos 1;
          from = if same_int st.depth (pos 0) then some st.index else st.from;
        },
        true,
      ),
      rw e,
      b,
    )
    | inr e ↦ elim (Bool-cases (c == b'}')) [
      | inl f ↦ elim (Bool-cases (same_int (st.depth +ℤ negsuc 0) (pos 0))) [
        | inl g ↦
            let (t, h, k) = close_model-IsKept arr (record st { depth = st.depth +ℤ negsuc 0 }) b in
            ((t, true), rw (e, f, g, h), k)
        | inr g ↦ ((record st { depth = st.depth +ℤ negsuc 0 }, true), rw (e, f, g), b)
      ]
      | inr f ↦ ((st, if c == b']' && same_int st.depth (pos 0) then false else true), rw (e, f), b)
    ]
  ]

  scan_on :
      (arr : Bytes) (c : ℕ) (cs : Bytes) (st t : Models float) (flag : Bool)
      → on_model_char float arr c st ≡ ok (t, flag)
      → IsKept t
      → ((u : Models float)
          → IsKept u
          → (v : Models float) × (scan_models float arr cs u ≡ ok v) × IsKept v)
      → (v : Models float) × (scan_models float arr (c ∷ cs) st ≡ ok v) × IsKept v
  unfolding scan_models
  scan_on arr c cs st t true e b later =
      let (v, f, g) = later (record t { index = t.index + 1 }) b in (v, rw (e, scan_models) f, g)
  scan_on arr c cs st t false e b later = (t, rw (e, scan_models), b)

  scan_models-IsKept :
      (arr cs : Bytes) (st : Models float)
      → IsKept st
      → (v : Models float) × (scan_models float arr cs st ≡ ok v) × IsKept v
  unfolding scan_models
  scan_models-IsKept arr [] st b = (st, refl, b)
  scan_models-IsKept arr (c ∷ cs) st b =
      let (t, e, g) = on_model_char-IsKept arr c st b in
      scan_on arr c cs st t.0 t.1 e g (λ u h. scan_models-IsKept arr cs u h)

  models_in-IsKept : (o : Option Bytes) → (v : Models float) × (models_in float o ≡ ok v) × IsKept v
  unfolding models_in
  models_in-IsKept none = (no_models float, refl, (tt, omega arith))
  models_in-IsKept (some arr) = scan_models-IsKept arr arr (no_models float) (tt, omega arith)

  pub parse_metrics-IsMetricsCapped :
      (text : Bytes) → (m : Metrics F) × (parse_metrics float text ≡ ok m) × IsMetricsCapped m
  unfolding parse_metrics metrics_in metrics_of
  parse_metrics-IsMetricsCapped text =
      elim (Option-cases (
        find_str (b'"' ∷ b'm' ∷ b'e' ∷ b't' ∷ b'r' ∷ b'i' ∷ b'c' ∷ b's' ∷ b'"' ∷ b':' ∷ b'{' ∷ [])
          text)) [
            | inl e ↦ (default_metrics float, rw (e, parse_metrics), (tt, omega arith))
            | inr (rest, e) ↦
                let (v, f, b) =
                  models_in-IsKept
                    (find_str (b'"' ∷ b'm' ∷ b'"' ∷ b':' ∷ b'[' ∷ []) (object_text 1 rest)) in
                (metrics_of float (object_text 1 rest) v, rw (e, parse_metrics) (rw f), b)
          ]
