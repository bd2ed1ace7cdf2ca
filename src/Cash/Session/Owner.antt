-- ===== src/Cash/Session/Owner.antt =====
-- Who may change a cash session of another user.
use tatuzin.Prelude.{
  ℕ, String, ◌≡◌, refl, false, not, ◌&&◌, ◌||◌, Option, none, some, [], ◌∷◌, inl, inr, find?,
  Bool-cases, ◌==◌, includes,
}
use tatuzin.Payload.Json.{Fields, Runtime}
use tatuzin.Payload.Read.{is_open_status, normalize_cash_session_status}
use tatuzin.Payload.Identity.{PushEvent, local_identity_for, same}
use tatuzin.Exec.{◌>>=◌}
use tatuzin.Sync.Types.{Context, Outcome}
use tatuzin.Cash.Types.{Session, CashTables, is_session}
use tatuzin.Cash.Permissions.{can_manage_other_cash_sessions}
use tatuzin.Cash.Session.{
  materialize, with_identity, with_existing, requested, with_status, guarded, authorized, is_stale,
}
use tatuzin.Cash.Session.Data.{has_invalid_payload, authorize_cash_session_change}

module _ (js : Runtime) (text_of_id : ℕ → String) (ctx : Context) (event : PushEvent)
    (payload : Fields) (uuid : String) (c : Session)
    (foreign : same c.user_id (some ctx.user_id) ≡ false)
    (unmanaged : can_manage_other_cash_sessions js ctx ≡ false)
    (no_create : (event.operation == "create") ≡ false) where
  refused :
      (status : String)
      → (o : Outcome) × (authorize_cash_session_change js text_of_id ctx (some c) status ≡ some o)
  unfolding authorize_cash_session_change
  refused status = elim (Bool-cases (status == "open")) [
    | inl p ↦
        (Outcome.rejected "CASH_SESSION_OWNERSHIP_REQUIRED", rw (p, foreign) (rw unmanaged refl))
    | inr p ↦ (Outcome.rejected "CASH_CLOSE_OTHER_FORBIDDEN", rw (p, foreign) (rw unmanaged refl))
  ]

  guarded_foreign :
      (status : String) (s : CashTables)
      → (guarded js text_of_id ctx event payload uuid status (some c) s).1 ≡ s
  unfolding guarded authorized
  guarded_foreign status s =
      elim (Bool-cases (has_invalid_payload js text_of_id (some c) payload)) [
        | inl p ↦ rw p refl
        | inr p ↦ rw p (rw (refused status).1 refl)
      ]

  with_status_foreign :
      (status : String) (s : CashTables)
      → (with_status js text_of_id ctx event payload uuid status (some c) s).1 ≡ s
  unfolding with_status
  with_status_foreign status s =
      elim (Bool-cases (c.status == "closed" && is_open_status js (some status))) [
        | inl p ↦ rw (no_create, p) refl
        | inr p ↦ rw (no_create, p) (guarded_foreign status s)
      ]

  requested_foreign :
      (raw : Option String) (s : CashTables)
      → (requested js text_of_id ctx event payload uuid (some c) raw s).1 ≡ s
  unfolding requested
  requested_foreign none s = refl
  requested_foreign (some raw) s =
      let status = normalize_cash_session_status js (some raw) in
      elim (Bool-cases (status == "open" || status == "closed")) [
        | inl p ↦ rw p (with_status_foreign status s)
        | inr p ↦ rw p refl
      ]

  with_existing_foreign :
      (s : CashTables) → (with_existing js text_of_id ctx event payload uuid (some c) s).1 ≡ s
  unfolding with_existing
  with_existing_foreign s = elim (Bool-cases (is_stale js text_of_id event payload (some c))) [
    | inl p ↦ rw p refl
    | inr p ↦ rw p (requested_foreign _ s)
  ]

  -- An update or upsert of the cash session of another user, by a user whose role may not manage
  -- the sessions of others, writes nothing, whatever the payload asks for and whichever permissions
  -- the user has.
  pub materialize_foreign :
      (s : CashTables)
      → local_identity_for js event payload ≡ some uuid
      → find? (is_session ctx.company_id uuid) s.sessions ≡ some c
      → (materialize js text_of_id ctx event payload s).1 ≡ s
  unfolding materialize with_identity ◌>>=◌
  materialize_foreign s named found =
      elim (Bool-cases (not (includes ("create" ∷ "update" ∷ "upsert" ∷ []) event.operation))) [
        | inl p ↦ rw p refl
        | inr p ↦ rw p (rw named (rw found (with_existing_foreign s)))
      ]
