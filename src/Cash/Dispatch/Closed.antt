-- ===== src/Cash/Dispatch/Closed.antt =====
-- No push reopens a closed cash session.
use mathlib.Core.Path.{subst}
use tatuzin.Prelude.{ℕ, String, ◌≡◌, sym, Bool, ◌⊎◌, inl, inr, arith, All-map}
use tatuzin.Payload.Json.{Json, Runtime}
use tatuzin.Sync.Types.{Context, Store}
use tatuzin.Sync.Push.{push}
use tatuzin.Cash.Types.{CashTables}
use tatuzin.Cash.Types
use tatuzin.Cash.Session
use tatuzin.Cash.Movement
use tatuzin.Cash.Session.Closed.{Inv, IsKeyed, IsClosed}
use tatuzin.Cash.Session.Stays.{materialize-IsClosed}
use tatuzin.Cash.Movement.Once.{IsAdded, materialize-Once}
use tatuzin.Cash.Dispatch.Keeps.{HandlerKeeps, AllKeep, push-Keeps}
use tatuzin.Cash.Dispatch.{Tables, Handlers, on_cash, materializer}

added-Inv :
    (company uuid : String) (ctx : Context) (s t : CashTables)
    → Inv company uuid s
    → ((t ≡ s) ⊎ ((row : Types.Movement) × IsAdded ctx s t row))
    → Inv company uuid t
added-Inv company uuid ctx s t inv (inl same) = subst (Inv company uuid) (sym same) inv
added-Inv company uuid ctx s t inv (inr (row, added)) =
    subst (Inv company uuid) (sym added.0) (record {
      keyed = record {
        apart = inv.keyed.apart;
        below = All-map s.sessions (λ c below. omega (arith, below)) inv.keyed.below;
      };
      closed = inv.closed;
    })

module _ {E : Type 0} (company uuid : String) where
  -- the session is closed, in the tables of all materializers
  abbrev pub StaysClosed : Tables E → Type 0
  StaysClosed s = Inv company uuid s.cash

module _ (js : Runtime) (text_of_id : ℕ → String) {E : Type 0} (company uuid : String)
    (lower : js.to_lower_case "open" ≡ "open") where
  pub sessions-Keeps :
      HandlerKeeps {E = E} (StaysClosed company uuid) (λ ctx source event payload events.
        on_cash (Session.materialize js text_of_id ctx event payload))
  sessions-Keeps ctx source event payload events = record {
    at = λ s inv.
        let after =
          materialize-IsClosed js text_of_id ctx event payload company uuid lower s.cash inv.keyed
            inv.closed in
        record { keyed = after.0; closed = after.1 };
  }

  pub movements-Keeps :
      HandlerKeeps {E = E} (StaysClosed company uuid) (λ ctx source event payload events.
        on_cash (Movement.materialize js text_of_id ctx event payload))
  movements-Keeps ctx source event payload events = record {
    at = λ s inv.
        added-Inv company uuid ctx s.cash _ inv
          (materialize-Once js text_of_id ctx event payload s.cash);
  }

  -- With materializers of sales, payments, receipts, stock and orders that keep a closed cash
  -- session closed and row ids distinct, and a lower-casing that leaves `open` as it is: no push,
  -- of whichever tenant and whatever its body is, reopens or removes a closed cash session, whether
  -- it answers or throws.
  pub push-IsClosed :
      (h : Handlers E)
      → AllKeep (StaysClosed company uuid) h
      → (is_datetime : String → Bool) (ctx : Context) (body : Json) (s : Store (Tables E))
      → IsKeyed s.domain.cash
      → IsClosed company uuid s.domain.cash
      → IsClosed company uuid
          (push js is_datetime (materializer js text_of_id h) ctx body s).1.domain.cash
  push-IsClosed h others is_datetime ctx body s keyed closed =
      (push-Keeps js text_of_id h (StaysClosed company uuid) sessions-Keeps movements-Keeps others
        is_datetime ctx body s (record { keyed = keyed; closed = closed })).closed
