-- ===== src/Sync/Order/Laws.antt =====
-- Sorting by version keeps the rows and puts them in order; a cut leaves only later rows out.
use tatuzin.Prelude.{
  ℕ, zero, suc, ◌≤◌, ◌≡◌, refl, Bool, true, ◌⊎◌, ◌↔◌, inl, inr, List, [], ◌∷◌, arith, All, filter,
  ap, take, length, Bool-cases, All-map, leb,
}
use tatuzin.Sync.Types.{SyncEvent}
use tatuzin.Sync.Order.{version_key, insert_asc, by_version_asc}

abbrev pub Elem : SyncEvent → List SyncEvent → Type 0
Elem a [] = ⊥
Elem a (x ∷ xs) = (a ≡ x) ⊎ Elem a xs

abbrev pub IsSorted : List SyncEvent → Type 0
IsSorted [] = Unit
IsSorted (x ∷ xs) = All (λ y. version_key x ≤ version_key y) xs × IsSorted xs

pub All-elem :
    (P : SyncEvent → Type 0) (a : SyncEvent) (xs : List SyncEvent) → All P xs → Elem a xs → P a
All-elem P a [] h e = absurd e
All-elem P a (x ∷ xs) (p, h) (inl e) = rw e p
All-elem P a (x ∷ xs) (p, h) (inr e) = All-elem P a xs h e

pub All-of_Elem :
    (P : SyncEvent → Type 0) (xs : List SyncEvent) → ((a : SyncEvent) → Elem a xs → P a) → All P xs
All-of_Elem P [] h = tt
All-of_Elem P (x ∷ xs) h = (h x (inl refl), All-of_Elem P xs (λ a k. h a (inr k)))

pub Elem-insert_asc :
    (a x : SyncEvent) (ys : List SyncEvent) → Elem a (insert_asc x ys) ↔ ((a ≡ x) ⊎ Elem a ys)
unfolding insert_asc
Elem-insert_asc a x [] = (λ h. h, λ h. h)
Elem-insert_asc a x (y ∷ ys) = grind (arith, Elem-insert_asc a x ys)

pub Elem-by_version_asc :
    (a : SyncEvent) (xs : List SyncEvent) → Elem a (by_version_asc xs) ↔ Elem a xs
unfolding by_version_asc
Elem-by_version_asc a [] = (λ h. h, λ h. h)
Elem-by_version_asc a (x ∷ xs) =
    grind (arith, Elem-insert_asc a x (by_version_asc xs), Elem-by_version_asc a xs)

pub Elem-filter :
    (p : SyncEvent → Bool) (a : SyncEvent) (xs : List SyncEvent)
    → Elem a (filter p xs) ↔ (Elem a xs × (p a ≡ true))
Elem-filter p a [] = (λ h. absurd h, λ h. h.0)
Elem-filter p a (x ∷ xs) = grind (arith, Elem-filter p a xs)

All-insert_asc :
    (P : SyncEvent → Type 0) (x : SyncEvent) (ys : List SyncEvent)
    → P x
    → All P ys
    → All P (insert_asc x ys)
unfolding insert_asc
All-insert_asc P x [] p h = (p, tt)
All-insert_asc P x (y ∷ ys) p (q, h) = elim (Bool-cases (leb (version_key x) (version_key y))) [
  | inl e ↦ rw e (p, (q, h))
  | inr e ↦ rw e (q, All-insert_asc P x ys p h)
]

insert_asc-IsSorted :
    (x : SyncEvent) (ys : List SyncEvent) → IsSorted ys → IsSorted (insert_asc x ys)
unfolding insert_asc
insert_asc-IsSorted x [] h = (tt, tt)
insert_asc-IsSorted x (y ∷ ys) (q, h) = elim (Bool-cases (leb (version_key x) (version_key y))) [
  | inl e ↦
      let le : version_key x ≤ version_key y = ground arith in
      rw e ((le, All-map ys (λ z k. omega arith) q), (q, h))
  | inr e ↦
      let le : version_key y ≤ version_key x = ground arith in
      rw e
        (All-insert_asc (λ z. version_key y ≤ version_key z) x ys le q, insert_asc-IsSorted x ys h)
]

pub by_version_asc-IsSorted : (xs : List SyncEvent) → IsSorted (by_version_asc xs)
unfolding by_version_asc
by_version_asc-IsSorted [] = tt
by_version_asc-IsSorted (x ∷ xs) =
    insert_asc-IsSorted x (by_version_asc xs) (by_version_asc-IsSorted xs)

pub All-take : (P : SyncEvent → Type 0) (n : ℕ) (xs : List SyncEvent) → All P xs → All P (take n xs)
All-take P zero xs h = tt
All-take P (suc n) [] h = tt
All-take P (suc n) (x ∷ xs) (p, h) = (p, All-take P n xs h)

pub Elem-of_take : (n : ℕ) (a : SyncEvent) (xs : List SyncEvent) → Elem a (take n xs) → Elem a xs
Elem-of_take zero a xs h = absurd h
Elem-of_take (suc n) a [] h = h
Elem-of_take (suc n) a (x ∷ xs) (inl e) = inl e
Elem-of_take (suc n) a (x ∷ xs) (inr e) = inr (Elem-of_take n a xs e)

-- What a cut of a sorted list leaves out is not before what it keeps, and the cut is full.
pub take_cut :
    (n : ℕ) (a : SyncEvent) (xs : List SyncEvent)
    → IsSorted xs
    → Elem a xs
    → Elem a (take n xs)
      ⊎ ((length (take n xs) ≡ n) × All (λ y. version_key y ≤ version_key a) (take n xs))
take_cut zero a xs s h = inr (refl, tt)
take_cut (suc n) a [] s h = elim h [ ]
take_cut (suc n) a (x ∷ xs) (q, s) (inl e) = inl (inl e)
take_cut (suc n) a (x ∷ xs) (q, s) (inr h) = elim (take_cut n a xs s h) [
  | inl k ↦ inl (inr k)
  | inr k ↦ inr (ap suc k.0, (All-elem _ a xs q h, k.1))
]

pub take-IsSorted : (n : ℕ) (xs : List SyncEvent) → IsSorted xs → IsSorted (take n xs)
take-IsSorted zero xs h = tt
take-IsSorted (suc n) [] h = tt
take-IsSorted (suc n) (x ∷ xs) (q, h) = (All-take _ n xs q, take-IsSorted n xs h)

pub length-take_le : (n : ℕ) (xs : List SyncEvent) → length (take n xs) ≤ n
length-take_le zero xs = omega arith
length-take_le (suc n) [] = omega arith
length-take_le (suc n) (x ∷ xs) = omega (arith, length-take_le n xs)
