-- ===== src/Exec.antt =====
-- Asynchronous methods that change the database and may throw, as actions on a state. What was
-- written before an exception stays written, unless a transaction is rolled back.
pub mod Keeps
pub mod Ensures
use tatuzin.Prelude.{ℕ, String, ◌≡◌, refl}

-- What the code throws: the database's refusal of a second row under a unique key, an `AppError`
-- with its status and code, or any other exception.
pub data Error : Type 0 where
  unique_violation : Error
  app_error : ℕ → String → Error
  failure : Error

pub data Result {ℓ} (A : Type ℓ) : Type ℓ where
  ok : A → Result A
  err : Error → Result A

abbrev pub Exec {ℓ} : Type ℓ → Type ℓ → Type ℓ
Exec S A = S → Result A × S

module _ {ℓ} {S A : Type ℓ} where
  abbrev pub pure : A → Exec S A
  pure a s = (ok a, s)

  abbrev pub throw : Error → Exec S A
  throw e s = (err e, s)

  abbrev pub gets : (S → A) → Exec S A
  gets f s = (ok (f s), s)

  abbrev pub modify : (S → S) → A → Exec S A
  modify f a s = (ok a, f s)

  abbrev pub rollback : S → Result A × S → Result A × S
  rollback before (ok a, s) = (ok a, s)
  rollback before (err e, s) = (err e, before)

  -- `prisma.$transaction`: an exception undoes the writes and is thrown on.
  unfoldable pub transaction : Exec S A → Exec S A
  transaction m s = rollback s (m s)

  abbrev pub handle : (Error → Exec S A) → Result A × S → Result A × S
  handle h (ok a, s) = (ok a, s)
  handle h (err e, s) = h e s

  -- `try { m } catch (error) { h(error) }`
  unfoldable pub catch : Exec S A → (Error → Exec S A) → Exec S A
  catch m h s = handle h (m s)

module _ {ℓ} {S A B : Type ℓ} where
  abbrev pub continue : Result A × S → (A → Exec S B) → Result B × S
  continue (ok a, s) f = f a s
  continue (err e, s) f = (err e, s)

  infixl 10 ◌>>=◌ ◌>>◌
  unfoldable pub ◌>>=◌ : Exec S A → (A → Exec S B) → Exec S B
  ◌>>=◌ m f s = continue (m s) f

  abbrev pub ◌>>◌ : Exec S A → Exec S B → Exec S B
  m >> n = m >>= λ _. n

  -- Inversion of a chain that returned.
  pub >>=-eq-ok :
      (m : Exec S A) (f : A → Exec S B) (s : S) {b : B} {t : S}
      → (m >>= f) s ≡ (ok b, t)
      → (a : A) × (u : S) × (m s ≡ (ok a, u)) × (f a u ≡ (ok b, t))
  unfolding ◌>>=◌
  >>=-eq-ok m f s {b} {t} h = go (m s) refl h
    where
      go :
          (r : Result A × S)
          → m s ≡ r
          → continue r f ≡ (ok b, t)
          → (a : A) × (u : S) × (m s ≡ (ok a, u)) × (f a u ≡ (ok b, t))
      go (ok a, u) e k = (a, u, e, k)
      go (err x, u) e k = cc
