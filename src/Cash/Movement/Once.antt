-- ===== src/Cash/Movement/Once.antt =====
-- What a movement event stores.
use tatuzin.Prelude.{
  ℕ, suc, String, ◌≡◌, refl, true, false, not, ◌⊎◌, Option, none, some, [], ◌∷◌, ◌++◌, inl, inr,
  find?, Bool-cases, Option-cases, includes,
}
use tatuzin.Prelude.Int.{ℤ, is_zero}
use tatuzin.Payload.Json.{Fields, Runtime}
use tatuzin.Payload.Read.{first_int}
use tatuzin.Payload.Identity.{PushEvent, domain_identity_for}
use tatuzin.Exec.{◌>>=◌}
use tatuzin.Sync.Types.{Context, Outcome}
use tatuzin.Cash.Types.{Session, Movement, CashTables, is_movement}
use tatuzin.Cash.Movement.{
  materialize, with_identity, with_existing, with_amount, authorized, create_movement, is_closed,
  identity_keys,
}

-- One new movement of the tenant, of an amount other than zero, under a key that had no row.
abbrev pub IsAdded : Context → CashTables → CashTables → Movement → Type 0
IsAdded ctx s t row =
    (t ≡ record s { movements = s.movements ++ row ∷ []; next_id = suc s.next_id })
    × (row.company_id ≡ ctx.company_id)
    × (is_zero row.amount_cents ≡ false)
    × (find? (is_movement row.company_id row.local_uuid) s.movements ≡ none)

module _ (js : Runtime) (text_of_id : ℕ → String) (ctx : Context) (event : PushEvent)
    (payload : Fields) (s : CashTables) where
  abbrev pub Once : CashTables → Type 0
  Once t = (t ≡ s) ⊎ ((row : Movement) × IsAdded ctx s t row)

  module _ (uuid : String)
      (absent : find? (is_movement ctx.company_id uuid) s.movements ≡ none) where
    created-Once :
        (amount : ℤ) (session : Option Session)
        → is_zero amount ≡ false
        → Once (create_movement js text_of_id ctx payload uuid amount session s).1
    unfolding create_movement
    created-Once amount session nonzero = inr (_, (refl, refl, nonzero, absent))

    authorized-Once :
        (amount : ℤ) (session : Option Session) (refusal : Option Outcome)
        → is_zero amount ≡ false
        → Once (authorized js text_of_id ctx payload uuid amount session refusal s).1
    unfolding authorized
    authorized-Once amount session (some o) nonzero = inl refl
    authorized-Once amount session none nonzero =
        elim (Bool-cases (is_closed js text_of_id session)) [
          | inl p ↦ rw p (inl refl)
          | inr p ↦ rw p (created-Once amount session nonzero)
        ]

    with_amount-Once :
        (amount : ℤ)
        → is_zero amount ≡ false
        → Once (with_amount js text_of_id ctx payload uuid amount s).1
    unfolding with_amount ◌>>=◌
    with_amount-Once amount nonzero = authorized-Once amount _ _ nonzero

    with_existing-Once :
        (amount : Option ℤ) → Once (with_existing js text_of_id ctx payload uuid amount none s).1
    unfolding with_existing
    with_existing-Once none = inl refl
    with_existing-Once (some amount) = elim (Bool-cases (is_zero amount)) [
      | inl p ↦ rw p (inl refl)
      | inr p ↦ rw p (with_amount-Once amount p)
    ]

  known-Once :
      (uuid : String) (amount : Option ℤ) (row : Movement)
      → Once (with_existing js text_of_id ctx payload uuid amount (some row) s).1
  unfolding with_existing
  known-Once uuid amount row = inl refl

  with_identity-Once :
      (uuid : Option String) → Once (with_identity js text_of_id ctx payload uuid s).1
  unfolding with_identity ◌>>=◌
  with_identity-Once none = inl refl
  with_identity-Once (some uuid) =
      let amount = first_int js payload ("amountCents" ∷ "amount" ∷ []) in
      elim (Option-cases (find? (is_movement ctx.company_id uuid) s.movements)) [
        | inl absent ↦ rw absent (with_existing-Once uuid absent amount)
        | inr known ↦ rw known.1 (known-Once uuid amount known.0)
      ]

  -- A movement event writes nothing, or it adds one movement of its tenant, of an amount other than
  -- zero and under a key that had no movement: no movement is stored twice or changed, and no
  -- cash session is.
  pub materialize-Once : Once (materialize js text_of_id ctx event payload s).1
  unfolding materialize
  materialize-Once =
      elim (Bool-cases (not (includes ("create" ∷ "append" ∷ "upsert" ∷ []) event.operation))) [
        | inl p ↦ rw p (inl refl)
        | inr p ↦
            rw p (with_identity-Once (domain_identity_for js event payload identity_keys true))
      ]
