-- ===== src/Sync/Tables/Lists.antt =====
-- Laws of the writes to one row.
use tatuzin.Prelude.{
  suc, String, ◌≡◌, Bool, true, List, [], ◌∷◌, ◌++◌, arith, inl, inr, All, Bool-cases,
  if◌then◌else◌, ◌==◌, eq_iff,
}
use tatuzin.Sync.Types.{SyncState}
use tatuzin.Sync.Numbering.{Pairwise}
use tatuzin.Sync.Tables.{update_first, version_of, bump}

pub version_of-bump :
    (c d : String) (ss : List SyncState)
    → version_of d (bump c ss) ≡ (if c == d then suc (version_of d ss) else version_of d ss)
version_of-bump c d [] = ground (arith, eq_iff c d)
version_of-bump c d (s ∷ ss) =
    ground (arith, version_of-bump c d ss, eq_iff c d, eq_iff s.company_id c, eq_iff s.company_id d)

module _ {A : Type 0} where
  pub Pairwise-concat :
      (R : A → A → Type 0) (xs : List A) (y : A)
      → Pairwise R xs
      → All (λ x. R x y) xs
      → Pairwise R (xs ++ y ∷ [])
  Pairwise-concat R [] y h k = (tt, tt)
  Pairwise-concat R (x ∷ xs) y (q, h) (r, k) = (All-snoc xs q r, Pairwise-concat R xs y h k)
    where
      All-snoc : (ys : List A) → All (R x) ys → R x y → All (R x) (ys ++ y ∷ [])
      All-snoc [] q' r' = (r', tt)
      All-snoc (z ∷ ys) (p, q') r' = (p, All-snoc ys q' r')

  pub All-update_first :
      (P : A → Type 0) (p : A → Bool) (f : A → A) (xs : List A)
      → ((x : A) → p x ≡ true → P x → P (f x))
      → All P xs
      → All P (update_first p f xs)
  All-update_first P p f [] k h = tt
  All-update_first P p f (x ∷ xs) k (q, h) = elim (Bool-cases (p x)) [
    | inl e ↦ rw e (k x e q, h)
    | inr e ↦ rw e (q, All-update_first P p f xs k h)
  ]

  All-zip :
      (G P Q : A → Type 0) (xs : List A)
      → ((y : A) → G y → P y → Q y)
      → All G xs
      → All P xs
      → All Q xs
  All-zip G P Q [] k g h = tt
  All-zip G P Q (x ∷ xs) k (g, gs) (p, h) = (k x g p, All-zip G P Q xs k gs h)

  All-update_known :
      (P G : A → Type 0) (p : A → Bool) (f : A → A) (xs : List A)
      → ((x : A) → p x ≡ true → G x → P x → P (f x))
      → All G xs
      → All P xs
      → All P (update_first p f xs)
  All-update_known P G p f [] k g h = tt
  All-update_known P G p f (x ∷ xs) k (g, gs) (q, h) = elim (Bool-cases (p x)) [
    | inl e ↦ rw e (k x e g q, h)
    | inr e ↦ rw e (q, All-update_known P G p f xs k gs h)
  ]

  -- The changed row stays apart from every other row, where `G` is known of them.
  pub Pairwise-change :
      (R : A → A → Type 0) (G : A → Type 0) (p : A → Bool) (f : A → A) (xs : List A)
      → ((x y : A) → R x y → R y x)
      → ((x y : A) → p x ≡ true → G x → G y → R x y → R (f x) y)
      → All G xs
      → Pairwise R xs
      → Pairwise R (update_first p f xs)
  Pairwise-change R G p f [] symm k g h = tt
  Pairwise-change R G p f (x ∷ xs) symm k (g, gs) (q, h) = elim (Bool-cases (p x)) [
    | inl e ↦ rw e (All-zip G (R x) (R (f x)) xs (λ y. k x y e g) gs q, h)
    | inr e ↦ rw e (
      All-update_known (R x) G p f xs (λ y py gy r. symm _ _ (k y x py gy g (symm _ _ r))) gs q,
      Pairwise-change R G p f xs symm k gs h,
    )
  ]

  pub Pairwise-update_first :
      (R : A → A → Type 0) (G : A → Type 0) (p : A → Bool) (f : A → A) (xs : List A)
      → ((x y : A) → R x y → R y x)
      → ((x y : A) → p x ≡ true → G y → R x y → R (f x) y)
      → All G xs
      → Pairwise R xs
      → Pairwise R (update_first p f xs)
  Pairwise-update_first R G p f xs symm k = Pairwise-change R G p f xs symm (λ x y e gx. k x y e)
