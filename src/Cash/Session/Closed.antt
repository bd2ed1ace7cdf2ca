-- ===== src/Cash/Session/Closed.antt =====
-- One change of the cash sessions, and a session that is closed.
use mathlib.Core.Path.{subst}
use tatuzin.Prelude.{
  ℕ, suc, ◌<◌, String, ◌≡◌, ◌≢◌, refl, sym, ◌∙◌, some, List, [], ◌∷◌, ◌++◌, inl, inr, arith, find?,
  All, All-map, All-concat, nat_eq, nat_eq_iff,
}
use tatuzin.Sync.Numbering.{Pairwise}
use tatuzin.Sync.Tables.{update_first}
use tatuzin.Sync.Tables.Lists.{Pairwise-concat, Pairwise-update_first, All-update_first}
use tatuzin.Cash.Types.{Session, CashTables, is_session}
use tatuzin.Cash.Session.Lists.{find-append, find-change, found-same}
use tatuzin.Cash.Session.Data.{change}

-- Row ids are distinct and below the next one.
pub record IsKeyed (s : CashTables) : Type 0 where
  pub apart : Pairwise (λ x y. x.id ≢ y.id) s.sessions
  pub below : All (λ c. c.id < s.next_id) s.sessions

-- The session of a key is there, and is closed.
abbrev pub IsClosed : String → String → CashTables → Type 0
IsClosed company uuid s =
    (c : Session) × (find? (is_session company uuid) s.sessions ≡ some c) × (c.status ≡ "closed")

-- What a change of a row leaves as it was.
pub record KeepsKeys (f : Session → Session) : Type 0 where
  pub id : (c : Session) → (f c).id ≡ c.id
  pub company_id : (c : Session) → (f c).company_id ≡ c.company_id
  pub local_uuid : (c : Session) → (f c).local_uuid ≡ c.local_uuid

module _ (company uuid : String) where
  pub record Inv (s : CashTables) : Type 0 where
    pub keyed : IsKeyed s
    pub closed : IsClosed company uuid s

  apart-change :
      (n : ℕ) (f : Session → Session) (cs : List Session)
      → KeepsKeys f
      → Pairwise (λ x y. x.id ≢ y.id) cs
      → Pairwise (λ x y. x.id ≢ y.id) (update_first (λ c. nat_eq c.id n) f cs)
  apart-change n f cs key apart =
      Pairwise-update_first (λ x y. x.id ≢ y.id) (λ c. Unit) (λ c. nat_eq c.id n) f cs
        (λ x y r e. r (sym e)) (λ x y p g r e. r (sym (key.id x) ∙ e)) (all_any cs) apart
    where
      all_any : (xs : List Session) → All (λ c. Unit {0}) xs
      all_any [] = tt
      all_any (x ∷ xs) = (tt, all_any xs)

  keyed-change :
      (n : ℕ) (f : Session → Session) (s : CashTables)
      → KeepsKeys f
      → IsKeyed s
      → IsKeyed (change n f s)
  keyed-change n f s key keyed = record {
    apart = apart-change n f s.sessions key keyed.apart;
    below =
        All-update_first (λ c. c.id < s.next_id) (λ c. nat_eq c.id n) f s.sessions
          (λ c p h. rw (key.id c) h) keyed.below;
  }

  -- A change of the row of a session, which closes it or leaves it open if it was.
  pub Inv-change :
      (own own_uuid : String) (e : Session) (f : Session → Session) (s : CashTables)
      → find? (is_session own own_uuid) s.sessions ≡ some e
      → KeepsKeys f
      → (e.status ≡ "closed" → (f e).status ≡ "closed")
      → Inv s
      → Inv (change e.id f s)
  Inv-change own own_uuid e f s found key stays inv =
      let (c, closed_found, closed) = inv.closed in
      record {
        keyed = keyed-change e.id f s key inv.keyed;
        closed =
            elim (find-change (is_session company uuid) (λ x. nat_eq x.id e.id) f s.sessions c
              (λ x. rw (key.company_id x, key.local_uuid x) refl) closed_found) [
                | inl same ↦ (c, same, closed)
                | inr changed ↦
                    let ids = (nat_eq_iff c.id e.id).0 changed.0 in
                    let eq : c ≡ e =
                      found-same (λ x. x.id) (is_session company uuid) (is_session own own_uuid)
                        s.sessions c e inv.keyed.apart closed_found found ids in
                    (
                      f c,
                      changed.1,
                      subst (λ x. x.status ≡ "closed" → (f x).status ≡ "closed") (sym eq) stays
                          closed,
                    )
              ];
      }

  -- A new session under a key that no row has.
  pub Inv-append :
      (new : Session) (s : CashTables)
      → new.id ≡ s.next_id
      → Inv s
      → Inv (record s { sessions = s.sessions ++ new ∷ []; next_id = suc s.next_id })
  Inv-append new s fresh inv =
      let (c, found, closed) = inv.closed in
      record {
        keyed = record {
          apart =
              Pairwise-concat (λ x y. x.id ≢ y.id) s.sessions new inv.keyed.apart
                (All-map s.sessions (λ c below e. omega (arith, below, e, fresh)) inv.keyed.below);
          below =
              All-concat _ s.sessions
                (All-map s.sessions (λ c below. omega (arith, below)) inv.keyed.below)
                (omega (arith, fresh));
        };
        closed = (c, find-append _ s.sessions new c found, closed);
      }
