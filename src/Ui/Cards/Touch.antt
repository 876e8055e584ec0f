-- ===== src/Ui/Cards/Touch.antt =====
-- firmware/src/main.rs: what is drawn on the sessions tab and what a touch on it hits.
use native.Mathlib.Decide.{dec_lt}
use cydrust.Prelude.{
  ℕ, zero, suc, ◌+◌, ◌≤◌, ◌<◌, ◌≡◌, refl, false, Option, none, some, List, [], ◌∷◌, arith,
  get_elem?, get_elem?-lt, length, ◌&&◌, not, inl, inr, Bool-cases, ap, ltb, ◌==◌, if◌then◌else◌,
}
use cydrust.Prelude.Int.{ℤ, pos, ◌-ℤ◌, ◌/ℤ◌}
use cydrust.Prelude.Run.{ok, read, read-lt}
use cydrust.Proto.Model.{SessionRow, DisplayState}
use cydrust.Ui.{list, detail}
use cydrust.Ui.Cards.{
  Slot, card, more, blank, slot_y, slot, slots, session_overflow, render_sessions, sessions_touch,
  touch_list, shown, caps,
}

abbrev pub SixSlots : Option (List Slot) → Type 0
SixSlots none = Unit
SixSlots (some l) = length l ≡ 6

module _ {F : Type 0} (ds : DisplayState F) where
  hit_facts :
      (sy i : ℕ)
      → touch_list ds (pos sy) ≡ detail i
      → (ds.offline ≡ false)
        × (i < (session_overflow ds).0)
        × (i < length ds.sessions)
        × (slot_y i ≤ sy + 1)
        × (sy ≤ slot_y i + 25)
  unfolding touch_list ◌-ℤ◌ ◌/ℤ◌
  hit_facts sy i e = ground arith

  slot_card :
      (i : ℕ)
      → ds.offline ≡ false
      → i < (session_overflow ds).0
      → i < length ds.sessions
      → (row : SessionRow) × (get_elem? ds.sessions i ≡ some row) × (slot ds i ≡ ok (card row))
  unfolding slot read
  slot_card i on c l = let (row, e) = get_elem?-lt ds.sessions i l in (row, e, ground arith)

  -- A touch that opens card `i` meets a screen that is not offline and on which slot `i` shows
  -- session `i`; it lies on the slot, or one row off it.
  pub touch_opens :
      (sx : ℤ) (sy i : ℕ)
      → (sessions_touch ds sx (pos sy) list).0 ≡ detail i
      → (row : SessionRow) × (get_elem? ds.sessions i ≡ some row)
        × (slot ds i ≡ ok (card row))
        × (slot_y i ≤ sy + 1)
        × (sy ≤ slot_y i + 25)
  unfolding sessions_touch
  touch_opens sx sy i e =
      let (on, c, l, lo, hi) = hit_facts sy i e in
      let (row, r, s) = slot_card i on c l in (row, r, s, lo, hi)

  card_facts :
      (i : ℕ) (row : SessionRow)
      → slot ds i ≡ ok (card row)
      → (ds.offline ≡ false) × (i < (session_overflow ds).0) × (i < length ds.sessions) × (i < 6)
  unfolding slot session_overflow read
  card_facts i row e = ground arith

  card_hit :
      (sy i : ℕ)
      → ds.offline ≡ false
      → i < (session_overflow ds).0
      → i < length ds.sessions
      → i < 6
      → slot_y i ≤ sy
      → sy < slot_y i + 25
      → touch_list ds (pos sy) ≡ detail i
  unfolding touch_list ◌-ℤ◌ ◌/ℤ◌
  card_hit sy i on c l b lo hi = ground arith

  -- A touch on a drawn card, at any of its rows, opens the session of that card.
  pub card-touch :
      (sx : ℤ) (sy i : ℕ) (row : SessionRow)
      → slot ds i ≡ ok (card row)
      → slot_y i ≤ sy
      → sy < slot_y i + 25
      → sessions_touch ds sx (pos sy) list ≡ (detail i, none)
  unfolding sessions_touch
  card-touch sx sy i row e lo hi =
      let (on, c, l, b) = card_facts i row e in rw (card_hit sy i on c l b lo hi)

  shown-le : shown ds ≤ length ds.sessions
  unfolding shown
  shown-le = ground arith

  slot_total : (i : ℕ) → (s : Slot) × (slot ds i ≡ ok s)
  slot_total i = elim (dec_lt i (shown ds)) [
    | yes l ↦
        let (row, e) = read-lt ds.sessions i (omega (arith, shown-le)) in
        (card row, unfold slot in ground (arith, e))
    | no l ↦ (
      if i == (caps ds).0 && ltb 0 (caps ds).1 then more (caps ds).1 else blank,
      unfold slot in ground arith,
    )
  ]

  slots_total : (k i : ℕ) → (l : List Slot) × (slots ds k i ≡ ok l) × (length l ≡ k)
  unfolding slots
  slots_total zero i = ([], refl, refl)
  slots_total (suc k) i =
      let (s, e) = slot_total i in
      let (l, f, n) = slots_total k (i + 1) in (s ∷ l, rw (e, f), ap suc n)

  -- Drawing the tab indexes no session that is not there, and where it does not say "no sessions"
  -- it draws six slots.
  pub render_total : (o : Option (List Slot)) × (render_sessions ds ≡ ok o) × SixSlots o
  unfolding render_sessions
  render_total =
      let (l, e, n) = slots_total 6 0 in
      elim (Bool-cases (not ds.offline && length ds.sessions == 0)) [
        | inl c ↦ (none, rw c, tt)
        | inr c ↦ (some l, rw (c, e), n)
      ]

  -- Where the last slot is a summary line, five cards are drawn, and the sessions without a card
  -- are one more than the number that the line shows.
  pub more_understates :
      (n : ℕ)
      → slot ds 5 ≡ ok (more n)
      → 6 ≤ length ds.sessions
      → (shown ds ≡ 5) × (shown ds + (n + 1) ≡ length ds.sessions + ds.dropped_sessions)
  unfolding slot session_overflow read
  more_understates n e l = ground arith
