-- ===== src/Shop/Keyed.antt =====
-- Tables whose rows have distinct ids, below the next one, when a row is added or changed.
use mathlib.Core.Path.{subst}
use tatuzin.Prelude.{
  ℕ, suc, ◌<◌, ◌≡◌, ◌≢◌, refl, sym, ap, ◌∙◌, Bool, true, false, some, List, [], ◌∷◌, ◌++◌, inl, inr,
  arith, find?, filter, All, All-map, All-concat, All-any, Bool-cases, nat_eq, nat_eq_iff,
}
use tatuzin.Sync.Numbering.{Pairwise}
use tatuzin.Sync.Tables.{update_first}
use tatuzin.Sync.Tables.Lists.{Pairwise-concat, Pairwise-update_first, All-update_first}
use tatuzin.Cash.Session.Lists.{find-change, found-same, All-found}

module _ {A : Type 0} (id : A → ℕ) where
  -- Row ids are distinct and below the next one.
  pub record Keyed (xs : List A) (next : ℕ) : Type 0 where
    pub apart : Pairwise (λ x y. id x ≢ id y) xs
    pub below : All (λ x. id x < next) xs

  -- a row of another table is added
  pub Keyed-suc : (xs : List A) (next : ℕ) → Keyed xs next → Keyed xs (suc next)
  Keyed-suc xs next k = record {
    apart = k.apart;
    below = All-map xs (λ x h. omega (arith, h)) k.below;
  }

  pub Keyed-append :
      (xs : List A) (next : ℕ) (x : A)
      → id x ≡ next
      → Keyed xs next
      → Keyed (xs ++ x ∷ []) (suc next)
  Keyed-append xs next x e k = record {
    apart =
        Pairwise-concat (λ x y. id x ≢ id y) xs x k.apart
          (All-map xs (λ y h same. omega (arith, h, same, e)) k.below);
    below = All-concat (λ x. id x < suc next) xs (Keyed-suc xs next k).below (omega (arith, e));
  }

  pub apart-change :
      (q : A → Bool) (f : A → A) (xs : List A)
      → ((x : A) → id (f x) ≡ id x)
      → Pairwise (λ x y. id x ≢ id y) xs
      → Pairwise (λ x y. id x ≢ id y) (update_first q f xs)
  apart-change q f xs same =
      Pairwise-update_first (λ x y. id x ≢ id y) (λ x. Unit) q f xs (λ x y r e. r (sym e))
        (λ x y p g r e. r (sym (same x) ∙ e)) (All-any xs (λ x. tt))

  pub Keyed-change :
      (q : A → Bool) (f : A → A) (xs : List A) (next : ℕ)
      → ((x : A) → id (f x) ≡ id x)
      → Keyed xs next
      → Keyed (update_first q f xs) next
  Keyed-change q f xs next same k = record {
    apart = apart-change q f xs same k.apart;
    below = All-update_first (λ x. id x < next) q f xs (λ x p h. omega (arith, same x, h)) k.below;
  }

  -- the row with an id
  abbrev pub has_id : ℕ → A → Bool
  has_id n x = nat_eq (id x) n

  module _ (xs : List A) (apart : Pairwise (λ x y. id x ≢ id y) xs) (q : A → Bool) (o : A)
      (known : find? q xs ≡ some o) where
    -- The change of one row does not reach a row that is found and is not that one.
    pub found-other :
        (p : A → Bool) (f : A → A) (row : A)
        → ((x : A) → p (f x) ≡ p x)
        → find? p xs ≡ some row
        → row ≢ o
        → find? p (update_first (has_id (id o)) f xs) ≡ some row
    found-other p f row key found differs =
        elim (find-change p (has_id (id o)) f xs row key found) [
          | inl e ↦ e
          | inr e ↦ absurd (
              differs
                (found-same id p q xs row o apart found known ((nat_eq_iff (id row) (id o)).0 e.0)))
        ]

  -- The first row with an id is the row that any other test finds with that id.
  pub found-by_id :
      (xs : List A) (q : A → Bool) (o : A)
      → Pairwise (λ x y. id x ≢ id y) xs
      → find? q xs ≡ some o
      → find? (has_id (id o)) xs ≡ some o
  found-by_id [] q o apart h = cc
  found-by_id (x ∷ xs) q o (far, apart) h = elim (Bool-cases (q x)) [
    | inl t ↦
        let here : some x ≡ some o = rw t at h in
        let same : x ≡ o = cc in
        let hit : has_id (id o) x ≡ true = (nat_eq_iff (id x) (id o)).1 (ap id same) in rw hit here
    | inr t ↦ elim (Bool-cases (has_id (id o) x)) [
      | inl s ↦ absurd (All-found q _ xs o far (rw t at h) ((nat_eq_iff (id x) (id o)).0 s))
      | inr s ↦ rw s (found-by_id xs q o apart (rw t at h))
    ]
  ]

  -- Only one row has the id of a row.
  pub All-same_id :
      (xs : List A) (q : A → Bool) (o : A)
      → Pairwise (λ x y. id x ≢ id y) xs
      → find? q xs ≡ some o
      → All (λ x. id x ≡ id o → x ≡ o) xs
  All-same_id [] q o apart h = tt
  All-same_id (x ∷ xs) q o (far, apart) h = elim (Bool-cases (q x)) [
    | inl t ↦
        let here : some x ≡ some o = rw t at h in
        let same : x ≡ o = cc in
        ((λ e. same), All-map xs (λ y differs e. absurd (differs (ap id same ∙ sym e))) far)
    | inr t ↦
        ((λ e. absurd (All-found q _ xs o far (rw t at h) e)), All-same_id xs q o apart (rw t at h))
  ]

module _ {A : Type 0} (id : A → ℕ) (p : A → Bool) where
  pub filter-append : (xs : List A) (x : A) → p x ≡ false → filter p (xs ++ x ∷ []) ≡ filter p xs
  filter-append [] x h = rw h refl
  filter-append (y ∷ xs) x h = elim (Bool-cases (p y)) [
    | inl t ↦ rw t (ap (λ ys. y ∷ ys) (filter-append xs x h))
    | inr t ↦ rw t (filter-append xs x h)
  ]

  -- The change of one row, which fails the test before and after, keeps the rows that pass.
  pub filter-change :
      (q : A → Bool) (f : A → A) (xs : List A) (o : A)
      → Pairwise (λ x y. id x ≢ id y) xs
      → find? q xs ≡ some o
      → p o ≡ false
      → p (f o) ≡ false
      → filter p (update_first (has_id id (id o)) f xs) ≡ filter p xs
  filter-change q f [] o apart known before after = refl
  filter-change q f (x ∷ xs) o (far, apart) known before after =
      elim (Bool-cases (has_id id (id o) x)) [
        | inl s ↦ elim (Bool-cases (q x)) [
          | inl t ↦
              let here : some x ≡ some o = rw t at known in
              let same : o ≡ x = cc in
              let x_before : p x ≡ false = subst (λ y. p y ≡ false) same before in
              let x_after : p (f x) ≡ false = subst (λ y. p (f y) ≡ false) same after in
              rw (s, x_before, x_after) refl
          | inr t ↦ absurd (All-found q _ xs o far (rw t at known) ((nat_eq_iff (id x) (id o)).0 s))
        ]
        | inr s ↦ elim (Bool-cases (q x)) [
          | inl t ↦
              let here : some x ≡ some o = rw t at known in
              let same : x ≡ o = cc in
              let hit : has_id id (id o) x ≡ true = (nat_eq_iff (id x) (id o)).1 (ap id same) in
              let bad : true ≡ false = sym hit ∙ s in cc
          | inr t ↦ elim (Bool-cases (p x)) [
            | inl u ↦
                rw (s, u)
                  (ap (λ ys. x ∷ ys) (filter-change q f xs o apart (rw t at known) before after))
            | inr u ↦ rw (s, u) (filter-change q f xs o apart (rw t at known) before after)
          ]
        ]
      ]
