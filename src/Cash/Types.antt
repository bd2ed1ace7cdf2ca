-- ===== src/Cash/Types.antt =====
-- The rows of the models CashSession and CashEvent. A row id is a number, for the generated uuid.
use tatuzin.Prelude.{ℕ, String, Option, List, ◌==◌, ◌&&◌, Bool}
use tatuzin.Prelude.Int.{ℤ}
use tatuzin.Payload.Json.{Fields}

pub record Session : Type 0 where
  pub id : ℕ
  pub company_id : String
  pub local_uuid : String
  pub device_id : Option String
  pub user_id : Option String
  pub local_id : Option String
  pub status : String
  pub opened_at : Option ℤ
  pub closed_at : Option ℤ
  pub opening_balance_cents : ℤ
  pub closing_balance_cents : Option ℤ
  pub expected_balance_cents : Option ℤ
  pub notes : Option String
  pub payload : Option Fields
  pub last_local_sequence : Option ℤ

pub record Movement : Type 0 where
  pub id : ℕ
  pub company_id : String
  pub cash_session_id : Option ℕ
  pub local_uuid : String
  pub event_type : String
  pub amount_cents : ℤ
  pub payment_method : Option String
  pub reference_type : Option String
  pub reference_id : Option ℕ
  pub notes : Option String
  pub created_at : ℤ

pub record CashTables : Type 0 where
  pub sessions : List Session
  pub movements : List Movement
  pub next_id : ℕ

-- the unique key (companyId, localUuid)
abbrev pub is_session : String → String → Session → Bool
is_session company uuid c = c.company_id == company && c.local_uuid == uuid

abbrev pub is_movement : String → String → Movement → Bool
is_movement company uuid c = c.company_id == company && c.local_uuid == uuid
