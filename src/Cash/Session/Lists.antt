-- ===== src/Cash/Session/Lists.antt =====
-- A row under its key, when one row is changed or a row is added.
use mathlib.Core.Path.{subst}
use tatuzin.Prelude.{
  ℕ, ◌≡◌, ◌≢◌, sym, ap, ◌∙◌, Bool, true, some, List, [], ◌∷◌, ◌++◌, ◌⊎◌, inl, inr, find?,
  Bool-cases, All,
}
use tatuzin.Sync.Numbering.{Pairwise}
use tatuzin.Sync.Tables.{update_first}

module _ {A : Type 0} (p : A → Bool) where
  pub find-append : (xs : List A) (y a : A) → find? p xs ≡ some a → find? p (xs ++ y ∷ []) ≡ some a
  find-append [] y a h = cc
  find-append (x ∷ xs) y a h = elim (Bool-cases (p x)) [
    | inl t ↦ rw t (rw t at h)
    | inr t ↦ rw t (find-append xs y a (rw t at h))
  ]

  -- The row found after a change that keeps the test is the same, or it is the changed one.
  pub find-change :
      (q : A → Bool) (f : A → A) (xs : List A) (a : A)
      → ((x : A) → p (f x) ≡ p x)
      → find? p xs ≡ some a
      → (find? p (update_first q f xs) ≡ some a)
        ⊎ ((q a ≡ true) × (find? p (update_first q f xs) ≡ some (f a)))
  find-change q f [] a k h = cc
  find-change q f (x ∷ xs) a k h = elim (Bool-cases (q x)) [
    | inl s ↦ elim (Bool-cases (p x)) [
      | inl t ↦
          let here : some x ≡ some a = rw t at h in
          let eq : x ≡ a = cc in
          inr (ap q (sym eq) ∙ s, rw s (rw (k x) (rw t (ap (λ y. some (f y)) eq))))
      | inr t ↦ inl (rw s (rw (k x) (rw t (rw t at h))))
    ]
    | inr s ↦ elim (Bool-cases (p x)) [
      | inl t ↦ inl (rw s (rw t (rw t at h)))
      | inr t ↦ elim (find-change q f xs a k (rw t at h)) [
        | inl e ↦ inl (rw s (rw t e))
        | inr g ↦ inr (g.0, rw s (rw t g.1))
      ]
    ]
  ]

  pub All-found : (P : A → Type 0) (xs : List A) (a : A) → All P xs → find? p xs ≡ some a → P a
  All-found P [] a all h = cc
  All-found P (x ∷ xs) a (q, all) h = elim (Bool-cases (p x)) [
    | inl t ↦ let here : some x ≡ some a = rw t at h in let eq : x ≡ a = cc in subst P eq q
    | inr t ↦ All-found P xs a all (rw t at h)
  ]

module _ {A : Type 0} (id : A → ℕ) (p q : A → Bool) where
  -- Two found rows with the same id are the same row, where ids are distinct.
  pub found-same :
      (xs : List A) (a b : A)
      → Pairwise (λ x y. id x ≢ id y) xs
      → find? p xs ≡ some a
      → find? q xs ≡ some b
      → id a ≡ id b
      → a ≡ b
  found-same [] a b apart f g e = cc
  found-same (x ∷ xs) a b (far, apart) f g e = elim (Bool-cases (p x)) [
    | inl s ↦
        let here : some x ≡ some a = rw s at f in
        let x_a : x ≡ a = cc in
        elim (Bool-cases (q x)) [
          | inl t ↦ let there : some x ≡ some b = rw t at g in let x_b : x ≡ b = cc in sym x_a ∙ x_b
          | inr t ↦ absurd (All-found q _ xs b far (rw t at g) (ap id x_a ∙ e))
        ]
    | inr s ↦ elim (Bool-cases (q x)) [
      | inl t ↦
          let there : some x ≡ some b = rw t at g in
          let x_b : x ≡ b = cc in absurd (All-found p _ xs a far (rw s at f) (ap id x_b ∙ sym e))
      | inr t ↦ found-same xs a b apart (rw s at f) (rw t at g) e
    ]
  ]
