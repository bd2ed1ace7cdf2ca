-- ===== src/Cash/Session/Stays.antt =====
-- A closed cash session stays closed, whatever events are materialized.
use tatuzin.Prelude.{eq_iff}
use tatuzin.Prelude.Text.{trim}
use tatuzin.Cash.Session.Closed.{IsKeyed, IsClosed, KeepsKeys, Inv, Inv-append, Inv-change}
use tatuzin.Prelude.{
  ℕ, String, ◌≡◌, ◌≢◌, refl, ap, ◌∙◌, true, false, not, ◌&&◌, ◌||◌, Option, none, some, [], ◌∷◌,
  inl, inr, find?, Bool-cases, Option-cases, ◌==◌, includes,
}
use tatuzin.Payload.Json.{Fields, Runtime}
use tatuzin.Payload.Read.{is_open_status, normalize_cash_session_status}
use tatuzin.Payload.Identity.{PushEvent, local_identity_for}
use tatuzin.Exec.{◌>>=◌}
use tatuzin.Sync.Types.{Context}
use tatuzin.Cash.Types.{Session, CashTables, is_session}
use tatuzin.Cash.Session.{
  materialize, with_identity, with_existing, requested, with_status, guarded, authorized,
  write_session, create_session, is_stale,
}
use tatuzin.Cash.Session.Data.{
  updated, backfill, has_invalid_payload, authorize_cash_session_change,
}

false-true : true ≢ false
false-true h = cc

module _ (js : Runtime) (text_of_id : ℕ → String) (ctx : Context) (event : PushEvent)
    (payload : Fields) (company uuid own_uuid : String) where
  abbrev Stays : CashTables → Type 0
  Stays = Inv company uuid

  -- From the state in which the row was looked up.
  abbrev From : Option Session → CashTables → Type 0
  From existing s = (find? (is_session ctx.company_id own_uuid) s.sessions ≡ existing) × Stays s

  updated-KeepsKeys : (status : String) → KeepsKeys (updated js text_of_id ctx event payload status)
  unfolding updated
  updated-KeepsKeys status = record {
    id = λ c. refl;
    company_id = λ c. refl;
    local_uuid = λ c. refl;
  }

  backfill-KeepsKeys : KeepsKeys (backfill js text_of_id ctx payload)
  unfolding backfill
  backfill-KeepsKeys = record { id = λ c. refl; company_id = λ c. refl; local_uuid = λ c. refl }

  create_session-Stays :
      (status : String) (s : CashTables)
      → Stays s
      → Stays (create_session js text_of_id ctx event payload own_uuid status s).1
  unfolding create_session updated
  create_session-Stays status s inv = Inv-append company uuid _ s refl inv

  updated_status :
      (status : String) (c : Session)
      → (c.status ≡ "closed" → status ≡ "closed")
      → c.status ≡ "closed"
      → (updated js text_of_id ctx event payload status c).status ≡ "closed"
  unfolding updated
  updated_status status c h = h

  backfill_status :
      (c : Session) → c.status ≡ "closed" → (backfill js text_of_id ctx payload c).status ≡ "closed"
  unfolding backfill
  backfill_status c h = h

  write_session-Stays :
      (existing : Option Session) (status : String) (s : CashTables)
      → From existing s
      → ((e : Session) → existing ≡ some e → e.status ≡ "closed" → status ≡ "closed")
      → Stays (write_session js text_of_id ctx event payload own_uuid status existing s).1
  unfolding write_session
  write_session-Stays none status s h k = create_session-Stays status s h.1
  write_session-Stays (some e) status s h k =
      Inv-change company uuid ctx.company_id own_uuid e _ s h.0 (updated-KeepsKeys status)
        (updated_status status e (k e refl)) h.1

  guarded-Stays :
      (existing : Option Session) (status : String) (s : CashTables)
      → From existing s
      → ((e : Session) → existing ≡ some e → e.status ≡ "closed" → status ≡ "closed")
      → Stays (guarded js text_of_id ctx event payload own_uuid status existing s).1
  unfolding guarded authorized
  guarded-Stays existing status s h k =
      elim (Bool-cases (has_invalid_payload js text_of_id existing payload)) [
        | inl p ↦ rw p h.1
        | inr p ↦
            elim (Option-cases (authorize_cash_session_change js text_of_id ctx existing status)) [
              | inl free ↦ rw p (rw free (write_session-Stays existing status s h k))
              | inr refusal ↦ rw p (rw refusal.1 h.1)
            ]
      ]

  opens : js.to_lower_case "open" ≡ "open" → is_open_status js (some "open") ≡ true
  unfolding is_open_status normalize_cash_session_status trim
  opens lower = rw lower refl

  -- A request that a closed session does not refuse is to close it.
  closes :
      (status : String) (e : Session)
      → js.to_lower_case "open" ≡ "open"
      → (status == "open" || status == "closed") ≡ true
      → (e.status == "closed" && is_open_status js (some status)) ≡ false
      → e.status ≡ "closed"
      → status ≡ "closed"
  closes status e lower known passes closed = elim (Bool-cases (status == "open")) [
    | inl o ↦
        let is_open : status ≡ "open" = (eq_iff status "open").0 o in
        let open_again : is_open_status js (some status) ≡ true = rw is_open (opens lower) in
        absurd (false-true (rw (closed, open_again) at passes))
    | inr n ↦ (eq_iff status "closed").0 (rw n at known)
  ]

  with_status-Stays :
      (existing : Option Session) (status : String) (s : CashTables)
      → js.to_lower_case "open" ≡ "open"
      → (status == "open" || status == "closed") ≡ true
      → From existing s
      → Stays (with_status js text_of_id ctx event payload own_uuid status existing s).1
  unfolding with_status
  with_status-Stays none status s lower known h = guarded-Stays none status s h (λ e bad. absurd cc)
  with_status-Stays (some e) status s lower known h =
      elim (Bool-cases (event.operation == "create")) [
        | inl p ↦ rw p (
            Inv-change company uuid ctx.company_id own_uuid e _ s h.0 backfill-KeepsKeys
              (backfill_status e) h.1)
        | inr p ↦ elim (Bool-cases (e.status == "closed" && is_open_status js (some status))) [
          | inl refused ↦ rw (p, refused) h.1
          | inr passes ↦
              rw (p, passes)
                (guarded-Stays (some e) status s h (λ f eq closed.
                  let same : e ≡ f = cc in
                  closes status e lower known passes
                    (ap (λ (x : Session). x.status) same ∙ closed)))
        ]
      ]

  requested-Stays :
      (existing : Option Session) (raw : Option String) (s : CashTables)
      → js.to_lower_case "open" ≡ "open"
      → From existing s
      → Stays (requested js text_of_id ctx event payload own_uuid existing raw s).1
  unfolding requested
  requested-Stays existing none s lower h = h.1
  requested-Stays existing (some raw) s lower h =
      let status = normalize_cash_session_status js (some raw) in
      elim (Bool-cases (status == "open" || status == "closed")) [
        | inl p ↦ rw p (with_status-Stays existing status s lower p h)
        | inr p ↦ rw p h.1
      ]

  with_existing-Stays :
      (existing : Option Session) (s : CashTables)
      → js.to_lower_case "open" ≡ "open"
      → From existing s
      → Stays (with_existing js text_of_id ctx event payload own_uuid existing s).1
  unfolding with_existing
  with_existing-Stays existing s lower h =
      elim (Bool-cases (is_stale js text_of_id event payload existing)) [
        | inl p ↦ rw p h.1
        | inr p ↦ rw p (requested-Stays existing _ s lower h)
      ]

module _ (js : Runtime) (text_of_id : ℕ → String) (ctx : Context) (event : PushEvent)
    (payload : Fields) (company uuid : String) (lower : js.to_lower_case "open" ≡ "open") where
  with_identity-stays :
      (own : Option String) (s : CashTables)
      → Inv company uuid s
      → Inv company uuid (with_identity js text_of_id ctx event payload own s).1
  unfolding with_identity ◌>>=◌
  with_identity-stays none s h = h
  with_identity-stays (some own) s h =
      with_existing-Stays js text_of_id ctx event payload company uuid own _ s lower (refl, h)

  -- Where lower-casing leaves `open` as it is, and the row ids are distinct and below the next one,
  -- a closed cash session of any tenant is still there and closed after any cash session event of
  -- any tenant, whatever its payload and its answer, and the row ids are still distinct.
  pub materialize-IsClosed :
      (s : CashTables)
      → IsKeyed s
      → IsClosed company uuid s
      → IsKeyed (materialize js text_of_id ctx event payload s).1
        × IsClosed company uuid (materialize js text_of_id ctx event payload s).1
  unfolding materialize
  materialize-IsClosed s keyed closed =
      let inv : Inv company uuid s = record { keyed = keyed; closed = closed } in
      elim (Bool-cases (not (includes ("create" ∷ "update" ∷ "upsert" ∷ []) event.operation))) [
        | inl p ↦ rw p (keyed, closed)
        | inr p ↦
            let after = with_identity-stays (local_identity_for js event payload) s inv in
            rw p (after.keyed, after.closed)
      ]
