-- ===== src/Payload/Read.antt =====
-- The field readers of payload-utils.ts: each tries its keys in order.
use Prim.Native.Char.{code}
use tatuzin.Prelude.{
  ℕ, String, Bool, true, false, not, ◌&&◌, ◌||◌, Option, none, some, List, [], ◌∷◌, ◌++◌, ◌==◌, leb,
  nat_eq, includes, if◌then◌else◌,
}
use tatuzin.Prelude.Int.{ℤ, pos, negsuc, abs, is_zero, leb_ℤ, ltb_ℤ}
use tatuzin.Prelude.Text.{trim, is_empty}
use tatuzin.Payload.Json.{
  Json, num, str, obj, Fields, end, Runtime, get, trunc, integer, is_safe_integer,
}

-- `asRecord`
unfoldable pub as_record : Option Json → Fields
as_record (some (obj fs)) = fs
as_record _ = end

-- the body of a reader's loop, at the value of one key; `none` goes on to the next key
abbrev Reader : Type 0 → Type 0
Reader A = Option Json → Option A

first {ℓ} : {A : Type ℓ} → (Option Json → Option A) → Fields → List String → Option A
first read payload [] = none
first read payload (k ∷ ks) = elim (read (get payload k)) [
  | some a ↦ some a
  | none ↦ first read payload ks
]

abbrev trimmed : String → Option String
trimmed s = if is_empty (trim s) then none else some (trim s)

unfoldable pub string_field : Option Json → Option String
unfolding trim
string_field (some (str s)) = trimmed s
string_field _ = none

-- `firstString`
unfoldable pub first_string : Fields → List String → Option String
unfolding first string_field get
first_string payload keys = first string_field payload keys

unfoldable pub clean : Option String → Option String
unfolding trim
clean none = none
clean (some s) = trimmed s

-- The regular expression of `uuidPattern`, as one test for each character.
abbrev is_hex : ℕ → Bool
is_hex c = leb b'0' c && leb c b'9' || leb b'a' c && leb c b'f' || leb b'A' c && leb c b'F'

abbrev is_dash : ℕ → Bool
is_dash c = nat_eq c b'-'

abbrev is_version : ℕ → Bool
is_version c = leb b'1' c && leb c b'5'

abbrev is_variant : ℕ → Bool
is_variant c =
    nat_eq c b'8'
    || nat_eq c b'9'
    || nat_eq c b'a'
    || nat_eq c b'b'
    || nat_eq c b'A'
    || nat_eq c b'B'

abbrev hex4 : List (ℕ → Bool)
hex4 = is_hex ∷ is_hex ∷ is_hex ∷ is_hex ∷ []

abbrev hex3 : List (ℕ → Bool)
hex3 = is_hex ∷ is_hex ∷ is_hex ∷ []

uuid_pattern : List (ℕ → Bool)
uuid_pattern =
    hex4
    ++ hex4
    ++ is_dash ∷ hex4
    ++ is_dash ∷ is_version ∷ hex3
    ++ is_dash ∷ is_variant ∷ hex3
    ++ is_dash ∷ hex4
    ++ hex4
    ++ hex4

matches : List (ℕ → Bool) → String → Bool
matches [] String.[] = true
matches [] (String.◌∷◌ c s) = false
matches (p ∷ ps) String.[] = false
matches (p ∷ ps) (String.◌∷◌ c s) = p (code c) && matches ps s

-- `isUuid`
unfoldable pub is_uuid : Option String → Bool
unfolding matches uuid_pattern
is_uuid none = false
is_uuid (some s) = matches uuid_pattern s

abbrev only_uuid : Option String → Option String
only_uuid v = if is_uuid v then v else none

-- `firstUuid`
unfoldable pub first_uuid : Fields → List String → Option String
unfolding first_string is_uuid
first_uuid payload keys = only_uuid (first_string payload keys)

module _ (js : Runtime) where
  unfoldable pub identity_field : Option Json → Option String
  unfolding trim integer
  identity_field (some (str s)) = trimmed s
  identity_field (some (num n)) = elim (integer n) [ some i ↦ some (js.text_of i) | none ↦ none ]
  identity_field _ = none

  -- `firstIdentity`
  unfoldable pub first_identity : Fields → List String → Option String
  unfolding first identity_field get
  first_identity payload keys = first identity_field payload keys

  -- `typeof value === "string" && value.trim().length > 0`, then `Number(value)`
  unfoldable pub int_field : Option Json → Option ℤ
  unfolding trim trunc
  int_field (some (num n)) = trunc n
  int_field (some (str s)) = if is_empty (trim s) then none else trunc (js.number_of s)
  int_field _ = none

  -- `firstInt`
  unfoldable pub first_int : Fields → List String → Option ℤ
  unfolding first int_field get
  first_int payload keys = first int_field payload keys

  -- `positiveInt`
  unfoldable pub positive_int : Fields → List String → Option ℤ
  unfolding first_int
  positive_int payload keys = elim (first_int payload keys) [
    | some v ↦ if ltb_ℤ (pos 0) v then some v else none
    | none ↦ none
  ]

  -- `nonNegativeInt`
  unfoldable pub non_negative_int : Fields → List String → Option ℤ
  unfolding first_int
  non_negative_int payload keys = elim (first_int payload keys) [
    | some v ↦ if leb_ℤ (pos 0) v then some v else none
    | none ↦ none
  ]

  -- `absPositiveInt`
  unfoldable pub abs_positive_int : Fields → List String → Option ℕ
  unfolding first_int
  abs_positive_int payload keys = elim (first_int payload keys) [
    | some v ↦ if is_zero v then none else some (abs v)
    | none ↦ none
  ]

  -- `firstDate`
  unfoldable pub first_date : Fields → List String → ℤ → ℤ
  unfolding first_string
  first_date payload keys fallback = elim (first_string payload keys) [
    | none ↦ fallback
    | some s ↦ elim (js.date_of s) [ none ↦ fallback | some d ↦ d ]
  ]

  abbrev invalid_identity : Option Json → Option String
  invalid_identity (some (str s)) =
      if is_empty (trim s) then none else if is_uuid (some (trim s)) then none else some (trim s)
  invalid_identity (some (num n)) = elim (integer n) [ some i ↦ some (js.text_of i) | none ↦ none ]
  invalid_identity _ = none

  -- `invalidRemoteIdentity`: the first offending key, with its value
  unfoldable pub invalid_remote_identity : Fields → List String → Option (String × String)
  unfolding trim is_uuid integer get
  invalid_remote_identity payload [] = none
  invalid_remote_identity payload (k ∷ ks) = elim (invalid_identity (get payload k)) [
    | some v ↦ some (k, v)
    | none ↦ invalid_remote_identity payload ks
  ]

  -- `normalizeCashSessionStatus`
  unfoldable pub normalize_cash_session_status : Option String → String
  unfolding trim
  normalize_cash_session_status none = "open"
  normalize_cash_session_status (some raw) =
      let status = js.to_lower_case (trim raw) in
      if is_empty status
      then "open"
      else if includes ("closed" ∷ "finished" ∷ "finalized" ∷ "fechado" ∷ "fechada" ∷ []) status
      then "closed"
      else if includes ("open" ∷ "opened" ∷ "active" ∷ "aberto" ∷ "aberta" ∷ []) status
      then "open"
      else status

  -- `isClosedStatus`
  unfoldable pub is_closed_status : Option String → Bool
  unfolding normalize_cash_session_status
  is_closed_status raw = normalize_cash_session_status raw == "closed"

  -- `isOpenStatus`
  unfoldable pub is_open_status : Option String → Bool
  unfolding normalize_cash_session_status
  is_open_status raw = normalize_cash_session_status raw == "open"

abbrev pub min_persistable_int : ℤ
min_persistable_int = negsuc 2147483647

abbrev pub max_persistable_int : ℤ
max_persistable_int = pos 2147483647

-- `persistableLocalSequence`
unfoldable pub persistable_local_sequence : Option ℤ → Option ℤ
unfolding is_safe_integer
persistable_local_sequence none = none
persistable_local_sequence (some v) =
    if not (is_safe_integer v)
    then none
    else if leb_ℤ min_persistable_int v && leb_ℤ v max_persistable_int
    then some v
    else none
