-- ===== src/Shop/Orders/Step.antt =====
-- The step of an event of an order.
use tatuzin.Prelude.{
  arith, ℕ, String, ◌≡◌, refl, true, false, not, ◌&&◌, inl, inr, Option, none, some, List, [], ◌∷◌,
  ◌==◌, is_some, includes, find?, Bool-cases, Bool, ◌||◌, or_else, eq_iff, or-left, or-right,
  is_some-none,
}
use tatuzin.Prelude.Int.{ℤ, pos, negsuc}
use tatuzin.Payload.Json.{Runtime}
use tatuzin.Payload.Identity.{domain_identity_for}
use tatuzin.Exec.{◌>>=◌}
use tatuzin.Sync.Types.{Outcome}
use tatuzin.Shop.Types.{Order, Customer, ShopTables}
use tatuzin.Shop.Lookup.{Input, order_by_uuid}
use tatuzin.Shop.Orders.{
  materialize_order, with_identity, with_existing, save_order, write_order, written, cancelled_at,
  is_frozen, is_stale, is_later, sequence, order_status, is_canceled, order_keys,
}
use tatuzin.Shop.Steps.{
  Steps, Steps-choice, IsOpenFor, KeepsOrder, is_order, nothing, order_created, order_changed,
}

-- A sequence that is not given leaves the one that is there.
is_later-or_else :
    (last sequence : Option ℤ)
    → is_later last sequence ≡ false
    → is_later last (or_else sequence last) ≡ false
is_later-or_else last (some n) h = h
is_later-or_else none none h = refl
is_later-or_else (some (pos n)) none h = ground arith
is_later-or_else (some (negsuc n)) none h = ground arith

updating :
    (operation : String)
    → includes ("create" ∷ "update" ∷ "upsert" ∷ []) operation ≡ true
    → (operation == "create") ≡ false
    → includes ("update" ∷ "upsert" ∷ []) operation ≡ true
updating operation writes p = ground (arith, eq_iff operation "create", eq_iff "create" operation)

not-false : (b : Bool) → not b ≡ false → b ≡ true
not-false true h = refl
not-false false h = cc

module _ (js : Runtime) (text_of_id : ℕ → String) (i : Input) where
  cancelled_at_stays :
      (before : Option ℤ) (status : String)
      → is_some before ≡ true
      → is_some (cancelled_at js text_of_id i before status) ≡ true
  unfolding cancelled_at
  cancelled_at_stays before status h = elim (Bool-cases (status == "canceled")) [
    | inl p ↦ rw p refl
    | inr p ↦ rw p h
  ]

  written-KeepsOrder :
      (customers : List Customer) (status : String)
      → KeepsOrder (written js text_of_id i customers status)
  unfolding written
  written-KeepsOrder customers status = record {
    id = λ o. refl;
    company_id = λ o. refl;
    local_uuid = λ o. refl;
    converted_sale_id = λ o. refl;
    cancelled_at = λ o h. cancelled_at_stays o.cancelled_at status h;
  }

  module _ (s : ShopTables) (uuid : String) where
    abbrev Found : Option Order → Type 0
    Found existing = find? (is_order i.ctx.company_id uuid) s.orders ≡ existing

    -- The row that is there may become the one that is written.
    abbrev IsLive : String → Option Order → Type 0
    IsLive status none = Unit
    IsLive status (some o) = IsOpenFor o (written js text_of_id i s.customers status o)

    write_order-Step :
        (status : String) (existing : Option Order)
        → Found existing
        → IsLive status existing
        → Steps i.ctx s (write_order js text_of_id i uuid status existing s)
    unfolding write_order written
    write_order-Step status none found live =
        order_created _
          (record { id = refl; company_id = refl; converted_sale_id = refl; absent = found })
    write_order-Step status (some o) found live =
        order_changed o (written js text_of_id i s.customers status) (_, found) live
          (written-KeepsOrder s.customers status)

    save_order-Step :
        (status : String) (existing : Option Order) (refusal : Option Outcome)
        → Found existing
        → IsLive status existing
        → Steps i.ctx s (save_order js text_of_id i uuid status existing refusal s)
    unfolding save_order
    save_order-Step status existing (some o) found live = nothing
    save_order-Step status existing none found live = write_order-Step status existing found live

    -- What the guards of an update have made sure of.
    open_of :
        (o : Order)
        → includes ("update" ∷ "upsert" ∷ []) i.event.operation ≡ true
        → is_stale js text_of_id i o ≡ false
        → is_frozen js text_of_id i o ≡ false
        → IsLive (order_status js text_of_id i (some o)) (some o)
    unfolding is_frozen is_stale written
    open_of o updates fresh h =
        let reopened = is_canceled o && order_status js text_of_id i (some o) == "open" in
        let first = or-left (is_some o.converted_sale_id || o.status == "converted") reopened h in
        record {
          converted_sale_id =
              is_some-none o.converted_sale_id
                (or-left (is_some o.converted_sale_id) (o.status == "converted") first);
          status = or-right (is_some o.converted_sale_id) (o.status == "converted") first;
          not_opened = or-right (is_some o.converted_sale_id || o.status == "converted") reopened h;
          in_order =
              is_later-or_else o.last_local_sequence (sequence js text_of_id i)
                (rw updates at fresh);
        }

    with_existing-Step :
        (existing : Option Order)
        → includes ("create" ∷ "update" ∷ "upsert" ∷ []) i.event.operation ≡ true
        → Found existing
        → Steps i.ctx s (with_existing js text_of_id i uuid existing s)
    unfolding with_existing
    with_existing-Step none writes found =
        Steps-choice i.ctx s (i.event.operation == "update") _ _ nothing
          λ p. save_order-Step _ none _ found tt
    with_existing-Step (some o) writes found =
        Steps-choice i.ctx s (i.event.operation == "create") _ _ nothing λ p.
          Steps-choice i.ctx s (is_stale js text_of_id i o) _ _ nothing λ q.
            Steps-choice i.ctx s (is_frozen js text_of_id i o) _ _ nothing λ r.
              save_order-Step _ (some o) _ found
                (open_of o (updating i.event.operation writes p) q r)

  with_identity-Step :
      (uuid : Option String) (s : ShopTables)
      → includes ("create" ∷ "update" ∷ "upsert" ∷ []) i.event.operation ≡ true
      → Steps i.ctx s (with_identity js text_of_id i uuid s)
  unfolding with_identity order_by_uuid ◌>>=◌
  with_identity-Step none s writes = nothing
  with_identity-Step (some uuid) s writes = with_existing-Step s uuid _ writes refl

  -- An event of an order makes one step.
  pub materialize_order-Step :
      (s : ShopTables) → Steps i.ctx s (materialize_order js text_of_id i s)
  unfolding materialize_order
  materialize_order-Step s =
      Steps-choice i.ctx s (not (includes ("create" ∷ "update" ∷ "upsert" ∷ []) i.event.operation))
        _
        (with_identity js text_of_id i (domain_identity_for js i.event i.payload order_keys false))
        nothing (λ p. with_identity-Step _ s (not-false _ p))
