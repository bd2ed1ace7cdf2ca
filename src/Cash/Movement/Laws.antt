-- ===== src/Cash/Movement/Laws.antt =====
-- What the movement materializer refuses.
use tatuzin.Prelude.{
  ℕ, String, ◌≡◌, refl, true, not, Option, none, some, [], ◌∷◌, inl, inr, find?, Bool-cases,
  includes,
}
use tatuzin.Prelude.Int.{ℤ, is_zero}
use tatuzin.Payload.Json.{Fields, Runtime}
use tatuzin.Payload.Read.{first_int}
use tatuzin.Payload.Identity.{PushEvent, domain_identity_for}
use tatuzin.Exec.{◌>>=◌}
use tatuzin.Sync.Types.{Context, Outcome}
use tatuzin.Cash.Types.{Movement, CashTables, is_movement}
use tatuzin.Cash.Movement.{
  materialize, with_identity, with_existing, with_amount, authorized, is_closed, find_cash_session,
  identity_keys,
}

module _ (js : Runtime) (text_of_id : ℕ → String) (ctx : Context) (event : PushEvent)
    (payload : Fields) where
  module _ (s : CashTables)
      (closed : is_closed js text_of_id (find_cash_session js text_of_id ctx payload s.sessions)
        ≡ true) where
    authorized_closed :
        (uuid : String) (amount : ℤ) (refusal : Option Outcome)
        → (authorized js text_of_id ctx payload uuid amount
            (find_cash_session js text_of_id ctx payload s.sessions)
            refusal
            s).1
          ≡ s
    unfolding authorized
    authorized_closed uuid amount (some o) = refl
    authorized_closed uuid amount none = rw closed refl

    with_amount_closed :
        (uuid : String) (amount : ℤ) → (with_amount js text_of_id ctx payload uuid amount s).1 ≡ s
    unfolding with_amount ◌>>=◌
    with_amount_closed uuid amount = authorized_closed uuid amount _

    with_existing_closed :
        (uuid : String) (amount : Option ℤ) (row : Option Movement)
        → (with_existing js text_of_id ctx payload uuid amount row s).1 ≡ s
    unfolding with_existing
    with_existing_closed uuid amount (some row) = refl
    with_existing_closed uuid none none = refl
    with_existing_closed uuid (some amount) none = elim (Bool-cases (is_zero amount)) [
      | inl p ↦ rw p refl
      | inr p ↦ rw p (with_amount_closed uuid amount)
    ]

    with_identity_closed :
        (uuid : Option String) → (with_identity js text_of_id ctx payload uuid s).1 ≡ s
    unfolding with_identity ◌>>=◌
    with_identity_closed none = refl
    with_identity_closed (some uuid) =
        with_existing_closed uuid (first_int js payload ("amountCents" ∷ "amount" ∷ []))
          (find? (is_movement ctx.company_id uuid) s.movements)

    -- Where the cash session that a movement event names is closed, the materializer writes
    -- nothing, whatever else the event says and whoever sends it.
    pub movement_in_closed : (materialize js text_of_id ctx event payload s).1 ≡ s
    unfolding materialize
    movement_in_closed =
        elim (Bool-cases (not (includes ("create" ∷ "append" ∷ "upsert" ∷ []) event.operation))) [
          | inl p ↦ rw p refl
          | inr p ↦
              rw p (with_identity_closed (domain_identity_for js event payload identity_keys true))
        ]
