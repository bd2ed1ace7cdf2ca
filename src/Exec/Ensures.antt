-- ===== src/Exec/Ensures.antt =====
-- What holds where an action returns, from what holds before it.
use tatuzin.Prelude.{Bool, true, false, if◌then◌else◌}
use tatuzin.Exec.{
  Exec, Result, ok, err, Error, pure, transaction, catch, rollback, handle, continue, ◌>>=◌,
}
use tatuzin.Exec.Keeps.{Keeps}

module _ {ℓ} {S A : Type ℓ} where
  abbrev pub Returns : (A → S → Type ℓ) → Result A × S → Type ℓ
  Returns Q (ok a, s) = Q a s
  Returns Q (err e, s) = Unit

-- From `P`, where `m` returns `a` the state meets `Q a`.
pub record Ensures {ℓ} {S A : Type ℓ} (P : S → Type ℓ) (m : Exec S A) (Q : A → S → Type ℓ)
    : Type ℓ where
  pub at : (s : S) → P s → Returns Q (m s)

pub Returns-weaken {ℓ} :
    {S A : Type ℓ} (P Q : A → S → Type ℓ) (r : Result A × S)
    → ((a : A) (s : S) → P a s → Q a s)
    → Returns P r
    → Returns Q r
Returns-weaken P Q (ok a, s) f h = f a s h
Returns-weaken P Q (err e, s) f h = tt

module _ {ℓ} {S A : Type ℓ} (P : S → Type ℓ) where
  Returns-of_keeps : (r : Result A × S) → P r.1 → Returns (λ a. P) r
  Returns-of_keeps (ok a, s) h = h
  Returns-of_keeps (err e, s) h = tt

  pub Ensures_of_keeps : (m : Exec S A) → Keeps P m → Ensures P m (λ a. P)
  Ensures_of_keeps m k = record { at = λ s h. Returns-of_keeps (m s) (k.at s h) }

  keeps_of_returns : (s : S) (r : Result A × S) → P s → Returns (λ a. P) r → P (rollback s r).1
  keeps_of_returns s (ok a, t) h k = k
  keeps_of_returns s (err e, t) h k = h

  -- A transaction keeps what it starts from, if it holds again where the body returns.
  pub Keeps-of_ensures : (m : Exec S A) → Ensures P m (λ a. P) → Keeps P (transaction m)
  unfolding transaction
  Keeps-of_ensures m k = record { at = λ s h. keeps_of_returns s (m s) h (k.at s h) }

module _ {ℓ} {S A : Type ℓ} (P : S → Type ℓ) (Q : A → S → Type ℓ) where
  pub Ensures-pure : (a : A) → ((s : S) → P s → Q a s) → Ensures P (pure a) Q
  Ensures-pure a k = record { at = k }

  pub Ensures-if :
      (b : Bool) (m n : Exec S A) → Ensures P m Q → Ensures P n Q → Ensures P (if b then m else n) Q
  Ensures-if true m n km kn = km
  Ensures-if false m n km kn = kn

  Returns-catch :
      (h : Error → Exec S A) (s : S) (r : Result A × S)
      → P s
      → ((e : Error) → Ensures P (h e) Q)
      → Returns Q r
      → Returns Q (handle h (rollback s r))
  Returns-catch h s (ok a, t) p kh k = k
  Returns-catch h s (err e, t) p kh k = (kh e).at s p

  -- A handler of a transaction starts from the state before it.
  pub Ensures-catch :
      (m : Exec S A) (h : Error → Exec S A)
      → Ensures P m Q
      → ((e : Error) → Ensures P (h e) Q)
      → Ensures P (catch (transaction m) h) Q
  unfolding catch transaction
  Ensures-catch m h km kh = record { at = λ s p. Returns-catch h s (m s) p kh (km.at s p) }

module _ {ℓ} {S A B : Type ℓ} (P : S → Type ℓ) (R : A → S → Type ℓ) (Q : B → S → Type ℓ) where
  Returns-continue :
      (f : A → Exec S B) (r : Result A × S)
      → ((a : A) → Ensures (R a) (f a) Q)
      → Returns R r
      → Returns Q (continue r f)
  Returns-continue f (ok a, t) kf k = (kf a).at t k
  Returns-continue f (err e, t) kf k = tt

  pub Ensures-bind :
      (m : Exec S A) (f : A → Exec S B)
      → Ensures P m R
      → ((a : A) → Ensures (R a) (f a) Q)
      → Ensures P (m >>= f) Q
  unfolding ◌>>=◌
  Ensures-bind m f km kf = record { at = λ s h. Returns-continue f (m s) kf (km.at s h) }

module _ {ℓ} {S A : Type ℓ} (P P' : S → Type ℓ) (Q R T : A → S → Type ℓ) where
  Returns-both :
      (r : Result A × S)
      → ((a : A) (s : S) → Q a s → R a s → T a s)
      → Returns Q r
      → Returns R r
      → Returns T r
  Returns-both (ok a, s) f h k = f a s h k
  Returns-both (err e, s) f h k = tt

  -- Two facts about one action, the second from a weaker start.
  pub Ensures-both :
      (m : Exec S A)
      → ((s : S) → P s → P' s)
      → ((a : A) (s : S) → Q a s → R a s → T a s)
      → Ensures P m Q
      → Ensures P' m R
      → Ensures P m T
  Ensures-both m w f h k = record { at = λ s p. Returns-both (m s) f (h.at s p) (k.at s (w s p)) }
