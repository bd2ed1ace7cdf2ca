-- ===== src/Payload/Laws.antt =====
-- Bounds of what the readers answer.
use tatuzin.Prelude.{
  ◌∙◌, eq_refl, leb, String, ◌≡◌, ◌≢◌, refl, sym, ap, Bool, true, false, ◌||◌, Option, none, some,
  arith, inl, inr, ◌⊎◌, if◌then◌else◌, Bool-cases,
}
use tatuzin.Prelude.Int.{ℤ, pos, negsuc, ◌≤ℤ◌}
use tatuzin.Payload.Json.{Fields, Runtime, is_safe_integer}
use tatuzin.Payload.Read.{
  clean, persistable_local_sequence, min_persistable_int, max_persistable_int,
}
use tatuzin.Payload.Identity.{PushEvent, same, explicit_idempotency_key_for, sync_metadata_for}

-- A local sequence is kept exactly when it is a 32-bit signed integer, and then as it is: every
-- such number is a safe integer, so the first test drops nothing that the second would keep.
pub persistable_local_sequence_lem :
    (v : ℤ)
    → (min_persistable_int ≤ℤ v
        × v ≤ℤ max_persistable_int
        × (persistable_local_sequence (some v) ≡ some v))
      ⊎ ((v ≤ℤ negsuc 2147483648 ⊎ pos 2147483648 ≤ℤ v)
          × (persistable_local_sequence (some v) ≡ none))
unfolding persistable_local_sequence is_safe_integer
persistable_local_sequence_lem (pos n) = elim (Bool-cases (leb n 2147483647)) [
  | inl h ↦ inl (ground arith, ground arith, ground arith)
  | inr h ↦ inr (inr (ground arith), ground arith)
]
persistable_local_sequence_lem (negsuc n) = elim (Bool-cases (leb n 2147483647)) [
  | inl h ↦ inl (ground arith, ground arith, ground arith)
  | inr h ↦ inr (inl (ground arith), ground arith)
]

same_refl : (k : String) → same (some k) (some k) ≡ true
same_refl k = eq_refl k

true-false : true ≢ false
true-false h = cc

or_both : (a b : Bool) → (a || b) ≡ false → (a ≡ false) × (b ≡ false)
or_both false b h = (refl, h)
or_both true b h = absurd (true-false h)

differs : (o : Option String) (l k : String) → l ≡ k → same (some l) o ≡ false → o ≢ some k
differs o l k e h f =
    let bad : same (some l) (some l) ≡ false = rw (f ∙ ap some (sym e)) at h in
    true-false (sym (same_refl l) ∙ bad)

-- The key that a client gives for deduplication is only taken where it says more than the event's
-- id: it is never the event id, trimmed, nor the event id of the payload's `_sync`.
pub explicit_idempotency_key_for_lem :
    (js : Runtime) (event : PushEvent) (payload : Fields) (key : String)
    → explicit_idempotency_key_for js event payload ≡ some key
    → (clean (some event.event_id) ≢ some key)
      × ((sync_metadata_for js event payload).event_id ≢ some key)
      × ((sync_metadata_for js event payload).idempotency_key ≡ some key)
unfolding explicit_idempotency_key_for
explicit_idempotency_key_for_lem js event payload key h =
    given ((sync_metadata_for js event payload).idempotency_key) (clean (some event.event_id))
      (sync_metadata_for js event payload).event_id key h
  where
    given :
        (found trimmed other : Option String) (k : String)
        → elim found as (λ o. Option String) [
          | none ↦ none
          | some l ↦ if same (some l) trimmed || same (some l) other then none else some l
        ]
          ≡ some k
        → (trimmed ≢ some k) × (other ≢ some k) × (found ≡ some k)
    given none trimmed other k e = absurd cc
    given (some l) trimmed other k e =
        elim (Bool-cases (same (some l) trimmed || same (some l) other)) [
          | inl p ↦ let bad : none ≡ some k = rw p at e in absurd cc
          | inr p ↦
              let kept : some l ≡ some k = rw p at e in
              let eq : l ≡ k = cc in
              let (p, q) = or_both _ _ p in (differs trimmed l k eq p, differs other l k eq q, kept)
        ]
