-- ===== src/Shop/Stock/Balance.antt =====
-- Taking a quantity out of the stock of one row.
use mathlib.Core.Path.{subst}
use tatuzin.Prelude.{
  ℕ, ◌+◌, ◌-◌, ◌≤◌, ◌≡◌, ◌≢◌, sym, ap, ◌∙◌, Bool, true, false, some, List, [], ◌∷◌, ◌++◌, inl, inr,
  arith, find?, nat_eq, nat_eq_iff, leb, if◌then◌else◌, Bool-cases,
}
use tatuzin.Prelude.Int.{ℤ, pos, ltb_ℤ, ◌-ℤ◌}
use tatuzin.Sync.Numbering.{Pairwise}
use tatuzin.Sync.Tables.{update_first}
use tatuzin.Cash.Session.Lists.{found-same}
use tatuzin.Shop.Types.{Deduction}
use tatuzin.Shop.Lookup.Found.{found-test}
use tatuzin.Shop.Keyed.{has_id, apart-change, found-other}

-- the quantities of the deductions that pass a test, added up
abbrev pub taken : (Deduction → Bool) → List Deduction → ℕ
taken p [] = 0
taken p (d ∷ ds) = (if p d then d.quantity_mil else 0) + taken p ds

pub taken-append :
    (p : Deduction → Bool) (ds : List Deduction) (d : Deduction)
    → taken p (ds ++ d ∷ []) ≡ taken p ds + (if p d then d.quantity_mil else 0)
taken-append p [] d = omega arith
taken-append p (e ∷ ds) d = omega (arith, taken-append p ds d)

pub pos-take : (a n : ℕ) → ltb_ℤ (pos a) (pos n) ≡ false → (n ≤ a) × (pos a -ℤ pos n ≡ pos (a - n))
unfolding ◌-ℤ◌
pos-take a n h =
    let below : n ≤ a = ground (arith, h) in
    let test : leb (0 + n) (a + 0) ≡ true = ground (arith, below) in
    (below, rw test (ap pos (omega arith)))

-- The row that a change looks for is the one that it changes.
pub find-update :
    {A : Type 0} (p : A → Bool) (f : A → A) (xs : List A) (a : A)
    → ((x : A) → p (f x) ≡ p x)
    → find? p xs ≡ some a
    → find? p (update_first p f xs) ≡ some (f a)
find-update p f [] a keys h = cc
find-update p f (x ∷ xs) a keys h = elim (Bool-cases (p x)) [
  | inl t ↦
      let here : some x ≡ some a = rw t at h in
      let same : x ≡ a = cc in rw t (rw (keys x) (rw t (ap (λ y. some (f y)) same)))
  | inr t ↦ rw t (rw t (find-update p f xs a keys (rw t at h)))
]

module _ {A : Type 0} (id : A → ℕ) (stock_of : A → ℤ) where
  -- Ids are distinct, and the row `k` has a stock that is not negative and, with what was taken,
  -- makes the total.
  pub record Balanced (k : ℕ) (xs : List A) (out total : ℕ) : Type 0 where
    pub apart : Pairwise (λ x y. id x ≢ id y) xs
    pub row : A
    pub found : find? (has_id id k) xs ≡ some row
    pub remaining : ℕ
    pub stock : stock_of row ≡ pos remaining
    pub sum : remaining + out ≡ total

  module _ (k out total n : ℕ) (xs : List A) (q : A → Bool) (o : A) (f : A → A)
      (known : find? q xs ≡ some o) (ids : (x : A) → id (f x) ≡ id x)
      (h : Balanced k xs out total) where
    keys : (x : A) → has_id id k (f x) ≡ has_id id k x
    keys x = ap (λ m. nat_eq m k) (ids x)

    row_id : id h.row ≡ k
    row_id = (nat_eq_iff (id h.row) k).0 (found-test (has_id id k) xs h.row h.found)

    -- of another row
    pub take-other : id o ≢ k → Balanced k (update_first (has_id id (id o)) f xs) out total
    take-other differs = record {
      apart = apart-change id (has_id id (id o)) f xs ids h.apart;
      row = h.row;
      found =
          found-other id xs h.apart q o known (has_id id k) f h.row keys h.found
            (λ same. differs (sym (ap id same) ∙ row_id));
      remaining = h.remaining;
      stock = h.stock;
      sum = h.sum;
    }

    -- of this row, which has enough
    pub take-own :
        id o ≡ k
        → ((x : A) → stock_of (f x) ≡ stock_of x -ℤ pos n)
        → ltb_ℤ (stock_of o) (pos n) ≡ false
        → Balanced k (update_first (has_id id (id o)) f xs) (out + n) total
    take-own own less enough =
        let same : h.row ≡ o =
          found-same id (has_id id k) q xs h.row o h.apart h.found known (row_id ∙ sym own) in
        let held : ltb_ℤ (pos h.remaining) (pos n) ≡ false =
          subst (λ z. ltb_ℤ z (pos n) ≡ false) (ap stock_of (sym same) ∙ h.stock) enough in
        let rest = pos-take h.remaining n held in
        record {
          apart = apart-change id (has_id id (id o)) f xs ids h.apart;
          row = f h.row;
          found =
              subst (λ m. find? (has_id id k) (update_first (has_id id m) f xs) ≡ some (f h.row))
                (sym own) (find-update (has_id id k) f xs h.row keys h.found);
          remaining = h.remaining - n;
          stock = less h.row ∙ ap (λ z. z -ℤ pos n) h.stock ∙ rest.1;
          sum = omega (arith, rest.0, h.sum);
        }
