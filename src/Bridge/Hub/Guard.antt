-- ===== src/Bridge/Hub/Guard.antt =====
-- bridge/src/hub.rs: who may change the hub.
use cydrust.Prelude.{
  ◌≡◌, refl, ◌≢◌, ◌↔◌, ◌∙◌, sym, ap, Bool, true, false, Option, none, some, List, [], ◌∷◌, All, inl,
  inr, Bool-cases,
}
use mathlib.Core.Bool.{false≢true}
use cydrust.Proto.Model.{Bytes}
use cydrust.Bridge.Model.{Float}
use cydrust.Bridge.Hub.{App, Request, ok_200, unauthorized, check_token, serve, Call, serve_all}

module _ {F : Type 0} (f : Float F) (ct_eq : Bytes → Bytes → Bool) (trim : Bytes → Bytes)
    (ct_eq_iff : (a b : Bytes) → (ct_eq a b ≡ true) ↔ (a ≡ b)) where
  check_token-some : (token : Bytes) → check_token ct_eq (some token) token ≡ true
  unfolding check_token
  check_token-some token = (ct_eq_iff token token).1 refl

  check_token-true :
      (header : Option Bytes) (token : Bytes)
      → check_token ct_eq header token ≡ true
      → header ≡ some token
  unfolding check_token
  check_token-true none token e = cc
  check_token-true (some t) token e = ap some ((ct_eq_iff t token).0 e)

  differs :
      (header : Option Bytes) (token : Bytes)
      → check_token ct_eq header token ≡ false
      → header ≢ some token
  differs header token e h =
      false≢true (sym e ∙ (ap (λ x. check_token ct_eq x token) h ∙ check_token-some token))

  refuses : unauthorized ≢ ok_200
  refuses h = cc

  check_token-false :
      (header : Option Bytes) (token : Bytes)
      → header ≢ some token
      → check_token ct_eq header token ≡ false
  unfolding check_token
  check_token-false none token h = refl
  check_token-false (some t) token h = elim (Bool-cases (ct_eq t token)) [
    | inl e ↦ elim (h (ap some ((ct_eq_iff t token).0 e))) [ ]
    | inr e ↦ e
  ]

  -- A request is served exactly when its header is the hub's token; this asks of the crate that
  -- its comparison answers whether two texts are equal.
  pub serve_iff :
      (now : F) (header : Option Bytes) (req : Request) (app : App F)
      → ((serve f ct_eq trim now header req app).0 ≡ ok_200) ↔ (header ≡ some app.token)
  unfolding serve
  serve_iff now header req app = elim (Bool-cases (check_token ct_eq header app.token)) [
    | inl e ↦ rw e (λ _. check_token-true header app.token e, λ _. refl)
    | inr e ↦ rw e (λ h. elim (refuses h) [ ], λ h. elim (differs header app.token e h) [ ])
  ]

  refused :
      (now : F) (header : Option Bytes) (req : Request) (app : App F)
      → header ≢ some app.token
      → serve f ct_eq trim now header req app ≡ (unauthorized, app)
  unfolding serve
  refused now header req app h = rw (check_token-false header app.token h)

  -- Whatever requests come without the token, and however many, the hub stays as it was. This asks
  -- of the crate that its comparison answers whether two texts are equal.
  pub strangers_change_nothing :
      (calls : List (Call F)) (app : App F)
      → All (λ c. c.header ≢ some app.token) calls
      → serve_all f ct_eq trim calls app ≡ app
  strangers_change_nothing [] app h = refl
  strangers_change_nothing (c ∷ calls) app h =
      ap (λ r. serve_all f ct_eq trim calls r.1) (refused c.now c.header c.req app h.0)
      ∙ strangers_change_nothing calls app h.1
