-- ===== src/Exec/Keeps.antt =====
-- What an action keeps, whether it returns or throws: a rule for each way to build one.
use tatuzin.Prelude.{Bool, true, false, if◌then◌else◌}
use tatuzin.Exec.{
  Exec, Result, ok, err, Error, pure, throw, gets, modify, transaction, catch, rollback, handle,
  continue, ◌>>=◌,
}

-- The action keeps `P`, whether it returns or throws.
pub record Keeps {ℓ} {S A : Type ℓ} (P : S → Type ℓ) (action : Exec S A) : Type ℓ where
  pub at : (before : S) → P before → P (action before).1

module _ {ℓ} {S A : Type ℓ} (P : S → Type ℓ) where
  keeps_rollback : (s : S) (r : Result A × S) → P s → P r.1 → P (rollback s r).1
  keeps_rollback s (ok a, t) h k = k
  keeps_rollback s (err e, t) h k = h

  keeps_handle :
      (h : Error → Exec S A) (r : Result A × S)
      → ((e : Error) → Keeps P (h e))
      → P r.1
      → P (handle h r).1
  keeps_handle h (ok a, t) kh k = k
  keeps_handle h (err e, t) kh k = (kh e).at t k

module _ {ℓ} {S A B : Type ℓ} (P : S → Type ℓ) where
  keeps_continue :
      (f : A → Exec S B) (r : Result A × S) → ((a : A) → Keeps P (f a)) → P r.1 → P (continue r f).1
  keeps_continue f (ok a, t) kf k = (kf a).at t k
  keeps_continue f (err e, t) kf k = k

module _ {ℓ} {S A : Type ℓ} {P : S → Type ℓ} where
  pub Keeps-pure : (a : A) → Keeps P (pure a)
  Keeps-pure a = record { at = λ s h. h }

  pub Keeps-throw : (e : Error) → Keeps P (throw {A = A} e)
  Keeps-throw e = record { at = λ s h. h }

  pub Keeps-gets : (f : S → A) → Keeps P (gets f)
  Keeps-gets f = record { at = λ s h. h }

  pub Keeps-modify : (f : S → S) (a : A) → ((s : S) → P s → P (f s)) → Keeps P (modify f a)
  Keeps-modify f a k = record { at = k }

  pub Keeps-if : (b : Bool) (m n : Exec S A) → Keeps P m → Keeps P n → Keeps P (if b then m else n)
  Keeps-if true m n km kn = km
  Keeps-if false m n km kn = kn

  pub Keeps-transaction : (m : Exec S A) → Keeps P m → Keeps P (transaction m)
  unfolding transaction
  Keeps-transaction m km = record { at = λ s h. keeps_rollback P s (m s) h (km.at s h) }

  pub Keeps-catch :
      (m : Exec S A) (h : Error → Exec S A)
      → Keeps P m
      → ((e : Error) → Keeps P (h e))
      → Keeps P (catch m h)
  unfolding catch
  Keeps-catch m h km kh = record { at = λ s p. keeps_handle P h (m s) kh (km.at s p) }

module _ {ℓ} {S A B : Type ℓ} {P : S → Type ℓ} where
  pub Keeps-bind :
      (first : Exec S A) (next : A → Exec S B)
      → Keeps P first
      → ((answer : A) → Keeps P (next answer))
      → Keeps P (first >>= next)
  unfolding ◌>>=◌
  Keeps-bind first next start rest = record {
    at = λ s h. keeps_continue P next (first s) rest (start.at s h);
  }
