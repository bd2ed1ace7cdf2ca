-- ===== src/Sync/Conflicts/Laws.antt =====
-- A conflict is resolved once, and only by its own tenant.
use mathlib.Core.Path.{subst}
use tatuzin.Prelude.{
  ℕ, ◌==◌, ◌&&◌, false, none, Option, All, nat_eq_iff, ◌≡◌, refl, sym, ◌∙◌, Bool, true, some, List,
  [], ◌∷◌, inl, inr, arith, find?, nat_eq, Bool-cases,
}
use tatuzin.Payload.Json.{Fields}
use tatuzin.Exec.{Result, ok, ◌>>=◌}
use tatuzin.Sync.Types.{Context, Store, Conflict}
use tatuzin.Sync.Types.{opened}
use tatuzin.Sync.Tables.{update_first}
use tatuzin.Sync.Conflicts.{resolve, resolve_found, resolve_row, is_mine, is_conflict_status}

find-change :
    (p : Conflict → Bool) (id : ℕ) (f : Conflict → Conflict) (cs : List Conflict) (c : Conflict)
    → find? p cs ≡ some c
    → ((x : Conflict) → p x ≡ true → x.id ≡ id)
    → c.id ≡ id
    → p (f c) ≡ true
    → find? (λ x. nat_eq x.id id) cs ≡ some c
    → find? p (update_first (λ x. nat_eq x.id id) f cs) ≡ some (f c)
find-change p id f [] c found named mine passes first = cc
find-change p id f (x ∷ xs) c found named mine passes first = elim (Bool-cases (nat_eq x.id id)) [
  | inl t ↦
      let here : some x ≡ some c = rw t at first in
      let same : x ≡ c = cc in rw t (rw same (rw passes refl))
  | inr t ↦ elim (Bool-cases (p x)) [
    | inl q ↦ absurd (ground (arith, named x q))
    | inr q ↦ rw (t, q) (find-change p id f xs c (rw q at found) named mine passes (rw t at first))
  ]
]

find-passes :
    (p : Conflict → Bool) (cs : List Conflict) (c : Conflict) → find? p cs ≡ some c → p c ≡ true
find-passes p [] c h = cc
find-passes p (x ∷ xs) c h = elim (Bool-cases (p x)) [
  | inl t ↦ let here : some x ≡ some c = rw t at h in let same : x ≡ c = cc in rw (sym same) t
  | inr t ↦ find-passes p xs c (rw t at h)
]

id_of_mine : (ctx : Context) (id : ℕ) (c : Conflict) → is_mine ctx id c ≡ true → c.id ≡ id
id_of_mine ctx id c h = ground arith

resolve_row-is_mine :
    (ctx : Context) (id : ℕ) (resolution : Fields) (c : Conflict)
    → is_mine ctx id c ≡ true
    → is_mine ctx id (resolve_row ctx resolution c) ≡ true
resolve_row-is_mine ctx id resolution c h = h

-- A change of the row of another id.
find-other :
    (ctx : Context) (id n : ℕ) (f : Conflict → Conflict) (cs : List Conflict) (row : Conflict)
    → ((x : Conflict) → is_mine ctx id (f x) ≡ is_mine ctx id x)
    → nat_eq n id ≡ false
    → find? (is_mine ctx id) cs ≡ some row
    → find? (is_mine ctx id) (update_first (λ x. nat_eq x.id n) f cs) ≡ some row
find-other ctx id n f [] row same differs h = h
find-other ctx id n f (x ∷ xs) row same differs h = elim (Bool-cases (nat_eq x.id n)) [
  | inl t ↦
      let not_mine : is_mine ctx id x ≡ false = ground arith in
      rw t (rw (same x) (rw not_mine (rw not_mine at h)))
  | inr t ↦ elim (Bool-cases (is_mine ctx id x)) [
    | inl q ↦ rw (t, q) (rw q at h)
    | inr q ↦ rw (t, q) (find-other ctx id n f xs row same differs (rw q at h))
  ]
]

find_of_company :
    (ctx later : Context) (id : ℕ) (cs : List Conflict) (row : Conflict)
    → later.company_id ≡ ctx.company_id
    → find? (is_mine ctx id) cs ≡ some row
    → find? (is_mine later id) cs ≡ some row
find_of_company ctx later id cs row same h =
    subst (λ k. find? (λ c. nat_eq c.id id && c.company_id == k) cs ≡ some row) (sym same) h

-- Requests of several users to resolve conflicts, one after the other.
abbrev pub resolve_all : {D : Type 0} → List (Context × ℕ × Fields) → Store D → Store D
resolve_all [] s = s
resolve_all ((ctx, id, resolution) ∷ rest) s = resolve_all rest (resolve ctx id resolution s).1

module _ {D : Type 0} (ctx : Context) (id : ℕ) (row : Conflict)
    (closed : is_conflict_status row.status opened ≡ false) where
  abbrev Held : Store D → Type 0
  Held u = find? (is_mine ctx id) u.conflicts ≡ some row

  -- a request of the tenant finds the closed row as it is
  found-Held :
      (later : Context) (other : Fields) (u : Store D)
      → later.company_id ≡ ctx.company_id
      → Held u
      → resolve later id other u ≡ (ok row, u)
  unfolding resolve resolve_found ◌>>=◌
  found-Held later other u same h =
      rw (find_of_company ctx later id u.conflicts row same h) (rw closed refl)

  resolve_found-Held :
      (later : Context) (n : ℕ) (other : Fields) (u : Store D) (found : Option Conflict)
      → find? (is_mine later n) u.conflicts ≡ found
      → nat_eq n id ≡ false
      → Held u
      → Held (resolve_found later other found u).1
  unfolding resolve_found
  resolve_found-Held later n other u none e differs h = h
  resolve_found-Held later n other u (some c) e differs h =
      elim (Bool-cases (is_conflict_status c.status opened)) [
        | inr p ↦ rw p h
        | inl p ↦
            let named = id_of_mine later n c (find-passes (is_mine later n) u.conflicts c e) in
            rw p (
              find-other ctx id c.id (resolve_row later other) u.conflicts row (λ x. refl)
                (rw named differs) h)
      ]

  of_other-Held :
      (later : Context) (n : ℕ) (other : Fields) (u : Store D)
      → nat_eq n id ≡ false
      → Held u
      → Held (resolve later n other u).1
  unfolding resolve ◌>>=◌
  of_other-Held later n other u e h = resolve_found-Held later n other u _ refl e h

  resolve-Held :
      (later : Context) (n : ℕ) (other : Fields) (u : Store D)
      → later.company_id ≡ ctx.company_id
      → Held u
      → Held (resolve later n other u).1
  resolve-Held later n other u same h = elim (Bool-cases (nat_eq n id)) [
    | inl e ↦
        let this : n ≡ id = (nat_eq_iff n id).0 e in
        subst (λ k. Held (resolve later k other u).1) (sym this)
          (subst (λ (r : Result Conflict × Store D). Held r.1)
            (sym (found-Held later other u same h)) h)
    | inr e ↦ of_other-Held later n other u e h
  ]

  resolve_all-Held :
      (between : List (Context × ℕ × Fields)) (u : Store D)
      → All (λ r. r.0.company_id ≡ ctx.company_id) between
      → Held u
      → Held (resolve_all between u)
  resolve_all-Held [] u same h = h
  resolve_all-Held ((later, n, other) ∷ rest) u (same, all_same) h =
      resolve_all-Held rest _ all_same (resolve-Held later n other u same h)

module _ {D : Type 0} (ctx : Context) (id : ℕ) (resolution : Fields) where
  -- An open conflict of the tenant, which is also the first row of its id, becomes resolved by this
  -- user; and whatever requests of the tenant's users to resolve this or another conflict come
  -- next, a later request for it, of whichever user of the tenant, at whatever time and with
  -- whatever resolution, answers the row as the first request left it and writes nothing.
  pub resolve_once :
      (s : Store D) (c : Conflict) (between : List (Context × ℕ × Fields)) (later : Context)
      (other : Fields)
      → find? (is_mine ctx id) s.conflicts ≡ some c
      → find? (λ x. nat_eq x.id id) s.conflicts ≡ some c
      → is_conflict_status c.status opened ≡ true
      → All (λ r. r.0.company_id ≡ ctx.company_id) between
      → later.company_id ≡ ctx.company_id
      → (t : Store D) × (resolve ctx id resolution s ≡ (ok (resolve_row ctx resolution c), t))
        × (resolve later id other (resolve_all between t)
            ≡ (ok (resolve_row ctx resolution c), resolve_all between t))
  unfolding resolve resolve_found ◌>>=◌
  resolve_once s c between later other mine first open_now same_tenant same =
      let row = resolve_row ctx resolution c in
      let passes = find-passes (is_mine ctx id) s.conflicts c mine in
      let named = id_of_mine ctx id c passes in
      let again =
        find-change (is_mine ctx id) c.id (resolve_row ctx resolution) s.conflicts c mine
          (λ x h. id_of_mine ctx id x h ∙ sym named) refl passes
          (subst (λ k. find? (λ x. nat_eq x.id k) s.conflicts ≡ some c) (sym named) first) in
      rw (mine, open_now)
        (
          _,
          refl,
          found-Held ctx id row refl later other _ same
              (resolve_all-Held ctx id row refl between _ same_tenant again),
        )
