-- ===== src/Proto/Scan/Capped.antt =====
-- firmware/src/proto.rs: the sessions that are read, against the caps of the model.
use cydrust.Prelude.{
  ℕ, ◌+◌, ◌≤◌, ◌≡◌, refl, ◌⊎◌, inl, inr, Bool, true, false, Option, none, some, [], ◌∷◌, arith, All,
  All-append, if◌then◌else◌, ◌==◌, length, take, drop, length-append, Option-cases, Bool-cases, ◌-◌,
}
use cydrust.Prelude.Int.{ℤ}
use cydrust.Prelude.Run.{Run, ok}
use cydrust.Proto.Model.{Bytes, SessionRow}
use cydrust.Proto.Text.Cut.{trunc_bytes-IsCut}
use cydrust.Proto.Scan.{
  Scan, start, find_str, sessions_marker, row_of, add_row, add_object, on_char, scan,
  parse_sessions, not_last, stays, extract_str, or_str, name_of, tool_of, made,
}

-- the caps of a row's strings, in bytes
pub record IsCapped (r : SessionRow) : Type 0 where
  pub project : length r.project ≤ 32
  pub tool : length r.tool ≤ 8
  pub id : length r.id ≤ 16
  pub summary : length r.summary ≤ 80

-- At most eight rows, each within its caps, and no object dropped before there are eight.
pub record IsBounded (st : Scan) : Type 0 where
  pub capped : All IsCapped st.rows
  pub few : length st.rows ≤ 8
  pub full : (st.dropped ≡ 0) ⊎ (length st.rows ≡ 8)

module _ {F : Type 0} (parse_f32 : Bytes → Option F) (to_i32 : F → ℤ) where
  row_of-IsCapped :
      (obj : Bytes) → (r : SessionRow) × (row_of parse_f32 to_i32 obj ≡ ok r) × IsCapped r
  unfolding row_of made
  row_of-IsCapped obj =
      let (id, e1, c1) = trunc_bytes-IsCut (or_str (extract_str obj (b'i' ∷ [])) []) 16 in
      let (sm, e2, c2) = trunc_bytes-IsCut (or_str (extract_str obj (b's' ∷ [])) []) 80 in
      let (pr, e3, c3) = trunc_bytes-IsCut (name_of obj) 32 in
      let (tl, e4, c4) = trunc_bytes-IsCut (tool_of obj) 8 in
      (
        made parse_f32 to_i32 obj pr tl id sm,
        rw (e1, e2, e3, e4),
        record { project = c3.fits; tool = c4.fits; id = c1.fits; summary = c2.fits },
      )

  add_row-IsBounded :
      (st : Scan) (r : SessionRow)
      → IsBounded st
      → IsCapped r
      → IsBounded (add_row parse_f32 to_i32 st r)
  unfolding add_row
  add_row-IsBounded st r b c =
      let grown = length-append st.rows (r ∷ []) in
      let all = All-append IsCapped st.rows r b.capped c in ground arith

  abbrev Adds : Run Scan → Type 0
  Adds m = (t : Scan) × (m ≡ ok t) × IsBounded t

  add_object-IsBounded :
      (rest : Bytes) (st : Scan) → IsBounded st → Adds (add_object parse_f32 to_i32 rest st)
  unfolding add_object
  add_object-IsBounded rest st b = elim (Option-cases st.obj_start) [
    | inl e ↦ (st, rw e, b)
    | inr (s, e) ↦
        let (r, f, c) = row_of-IsCapped (take (st.index + 1 - s) (drop s rest)) in
        (add_row parse_f32 to_i32 st r, rw (e, f), add_row-IsBounded st r b c)
  ]

  on_char-IsBounded :
      (rest : Bytes) (c : ℕ) (st : Scan)
      → IsBounded st
      → (t : Scan × Bool) × (on_char parse_f32 to_i32 rest c st ≡ ok t) × IsBounded t.0
  unfolding on_char
  on_char-IsBounded rest c st b = elim (Bool-cases (c == b'{')) [
    | inl e ↦ (
      (
        record st {
          depth = st.depth + 1;
          obj_start = if st.depth == 1 then some st.index else st.obj_start;
        },
        true,
      ),
      rw e,
      record { capped = b.capped; few = b.few; full = b.full },
    )
    | inr e ↦ elim (Bool-cases (c == b'}')) [
      | inl e2 ↦ elim (Bool-cases (st.depth == 2)) [
        | inl e3 ↦
            let (t, f, g) =
              add_object-IsBounded rest (record st { depth = 1 })
                (record { capped = b.capped; few = b.few; full = b.full }) in
            (
              (record t { obj_start = none }, true),
              rw (e, e2, e3, f),
              record { capped = g.capped; few = g.few; full = g.full },
            )
        | inr e3 ↦ (
          (record st { depth = st.depth - 1 }, not_last st.depth),
          rw (e, e2, e3),
          record { capped = b.capped; few = b.few; full = b.full },
        )
      ]
      | inr e2 ↦ ((st, stays c st.depth), rw (e, e2), b)
    ]
  ]

  scan_on :
      (rest : Bytes) (c : ℕ) (cs : Bytes) (st t : Scan) (flag : Bool)
      → on_char parse_f32 to_i32 rest c st ≡ ok (t, flag)
      → IsBounded t
      → ((u : Scan) → IsBounded u → Adds (scan parse_f32 to_i32 rest cs u))
      → Adds (scan parse_f32 to_i32 rest (c ∷ cs) st)
  unfolding scan
  scan_on rest c cs st t true e b later =
      let (u, f, g) =
        later (record t { index = t.index + 1 })
          (record { capped = b.capped; few = b.few; full = b.full }) in
      (u, rw (e, scan) f, g)
  scan_on rest c cs st t false e b later = (t, rw (e, scan), b)

  scan-IsBounded :
      (rest cs : Bytes) (st : Scan) → IsBounded st → Adds (scan parse_f32 to_i32 rest cs st)
  unfolding scan
  scan-IsBounded rest [] st b = (st, refl, b)
  scan-IsBounded rest (c ∷ cs) st b =
      let (t, e, g) = on_char-IsBounded rest c st b in
      scan_on rest c cs st t.0 t.1 e g (λ u h. scan-IsBounded rest cs u h)

  start-IsBounded : IsBounded start
  start-IsBounded = record { capped = tt; few = omega arith; full = inl refl }

  -- Whatever the text, reading its sessions does not panic; it gives at most eight, each string of
  -- them within its cap in bytes, and drops one only where it has eight.
  pub parse_sessions-IsBounded :
      (text : Bytes) → (st : Scan) × (parse_sessions parse_f32 to_i32 text ≡ ok st) × IsBounded st
  unfolding parse_sessions
  parse_sessions-IsBounded text = elim (Option-cases (find_str sessions_marker text)) [
    | inl e ↦ (start, rw (e, parse_sessions), start-IsBounded)
    | inr (rest, e) ↦
        let (t, f, b) = scan-IsBounded rest rest start start-IsBounded in
        (t, rw (e, parse_sessions) f, b)
  ]
