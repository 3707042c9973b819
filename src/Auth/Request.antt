-- ===== src/Auth/Request.antt =====
-- `verify_payout_request` and the table of nonces (app/payout_auth.py). SHA-256 and HMAC are parameters;
-- texts are ASCII, and times are seconds.
use Prim.Native.Nat.{◌/◌, ◌%◌}
use Prim.Native.Char.{Char, code}
use Prim.Native.String.{◌++◌ as ◌<>◌, char_at}
use tron_shkeeper.Base.{
  ℕ, zero, suc, ◌+◌, ◌-◌, ◌*◌, max, String, Bool, true, false, Option, none, some, List, [], ◌∷◌,
  ◌++◌, ◌⊎◌, inl, inr, ◌&&◌, ◌||◌, not, ltb, leb, ◌==◌, ◌=s◌, contains, upper, lower, strip,
  if◌then◌else◌,
}

-- An integer: a number, or one below zero.
pub data Stamp : Type 0 where
  at_least_zero : ℕ → Stamp
  below_zero : ℕ → Stamp

-- A row of `payout_auth_nonces`
pub record NonceRow : Type 0 where
  pub consumer : String
  pub key_id : String
  pub nonce : String
  pub timestamp : Stamp

-- A request: the headers, empty where they are missing, and what is signed.
pub record Request : Type 0 where
  pub consumer : String
  pub key_id : String
  pub timestamp : String
  pub nonce : String
  pub signature : String
  pub method : String
  pub path : String
  pub query : String
  pub body : String

-- The entry of a key: a secret, or a dictionary.
pub data KeyConfig : Type 0 where
  plain : String → KeyConfig
  full : (secret : Option String) (rails allowed_rails : List String) → KeyConfig

-- The entry of a consumer: one secret, or keys by their id.
pub data ConsumerKeys : Type 0 where
  single : String → ConsumerKeys
  by_id : List (String × KeyConfig) → ConsumerKeys

pub record Env : Type 0 where
  -- PAYOUT_CONSUMER_KEYS
  pub configured_keys : List (String × ConsumerKeys)
  -- PAYOUT_AUTH_MAX_AGE_SECONDS
  pub tolerance : ℕ
  pub sha256_hex : String → String
  -- `sign_request`: the secret, and the text that is signed
  pub sign_request : String → String → String

-- The code of an error response and its status.
abbrev pub Refusal : Type 0
Refusal = String × ℕ

is_digit : Char → Bool
is_digit c = leb b'0' (code c) && leb (code c) b'9'

-- `int(s)` on what follows the sign: digits, with single underscores between them.
parse_digits : ℕ → Bool → String → Option ℕ
unfolding is_digit
parse_digits n after_digit String.[] = if after_digit then some n else none
parse_digits n after_digit (String.◌∷◌ c s) =
    let next = parse_digits (n * 10 + (code c - b'0')) true s in
    let skipped = parse_digits n false s in
    if is_digit c then next else if code c == b'_' && after_digit then skipped else none

negative : Option ℕ → Option Stamp
negative none = none
negative (some zero) = some (at_least_zero zero)
negative (some (suc n)) = some (below_zero (suc n))

positive : Option ℕ → Option Stamp
positive none = none
positive (some n) = some (at_least_zero n)

-- `int(timestamp)`; `none` is ValueError.
unfoldable pub parse_int : String → Option Stamp
unfolding parse_digits negative positive
parse_int String.[] = none
parse_int (String.◌∷◌ c s) =
    if code c == b'-'
    then negative (parse_digits 0 false s)
    else if code c == b'+'
    then positive (parse_digits 0 false s)
    else positive (parse_digits 0 false (String.◌∷◌ c s))

digit : ℕ → String
digit n = String.◌∷◌ (char_at "0123456789" n) String.[]

-- The fuel is more than the number, which is more than its digits.
show_digits : ℕ → ℕ → String
unfolding digit
show_digits zero n = ""
show_digits (suc fuel) n =
    let more = show_digits fuel (n / 10) in if ltb n 10 then digit n else more <> digit (n % 10)

-- `str(timestamp_int)`
unfoldable pub show_int : Stamp → String
unfolding show_digits
show_int (at_least_zero n) = show_digits (suc n) n
show_int (below_zero n) = "-" <> show_digits (suc n) n

-- `signature_base`
unfoldable pub signature_base :
    (String → String) → Stamp → String → String → String → String → String → String
unfolding show_int
signature_base sha256_hex timestamp nonce method path query body =
    show_int timestamp
    <> ("\n"
        <> (nonce
            <> ("\n"
                <> (upper method
                    <> ("\n" <> (path <> ("\n" <> (query <> ("\n" <> sha256_hex body)))))))))

unfoldable pub lookup : {A : Type 0} → String → List (String × A) → Option A
lookup key [] = none
lookup key ((k, a) ∷ rest) = if k =s key then some a else lookup key rest

-- `get_consumer_key_config`
unfoldable pub get_consumer_key_config : Env → String → String → Option KeyConfig
unfolding lookup
get_consumer_key_config env consumer key_id = elim (lookup consumer env.configured_keys) [
  | none ↦ none
  | some (single secret) ↦ if key_id =s "default" then some (plain secret) else none
  | some (by_id keys) ↦ lookup key_id keys
]

-- `get_consumer_secret`
unfoldable pub get_consumer_secret : Option KeyConfig → Option String
get_consumer_secret none = none
get_consumer_secret (some (plain secret)) = some secret
get_consumer_secret (some (full secret rails allowed_rails)) = secret

-- `key_allows_rail`
unfoldable pub key_allows_rail : Option KeyConfig → String → Bool
key_allows_rail none rail = false
key_allows_rail (some (plain secret)) rail = false
key_allows_rail (some (full secret [] allowed_rails)) rail = contains rail allowed_rails
key_allows_rail (some (full secret (r ∷ rails) allowed_rails)) rail = contains rail (r ∷ rails)

text_length : String → ℕ
text_length String.[] = 0
text_length (String.◌∷◌ c s) = suc (text_length s)

abbrev missing_headers : Request → Bool
missing_headers r =
    strip r.consumer =s ""
    || strip r.key_id =s ""
    || strip r.timestamp =s ""
    || strip r.nonce =s ""
    || lower (strip r.signature) =s ""

-- What the headers say, before the time and the key are looked at.
unfoldable pub read_request : Request → Refusal ⊎ NonceRow
unfolding text_length parse_int
read_request r =
    if missing_headers r
    then inl ("PAYOUT_AUTH_MISSING", 401)
    else if not (text_length (lower (strip r.signature)) == 64)
    then inl ("PAYOUT_AUTH_INVALID", 401)
    else elim (parse_int (strip r.timestamp)) [
      | none ↦ inl ("PAYOUT_AUTH_INVALID", 401)
      | some stamp ↦ inr (record {
        consumer = strip r.consumer;
        key_id = strip r.key_id;
        nonce = strip r.nonce;
        timestamp = stamp;
      })
    ]

-- `abs(int(time.time()) - timestamp_int) > tolerance`
unfoldable pub is_expired : ℕ → ℕ → Stamp → Bool
is_expired now tolerance (at_least_zero n) = ltb tolerance (max (now - n) (n - now))
is_expired now tolerance (below_zero n) = ltb tolerance (now + n)

-- The signature and the rail, for a key's entry.
unfoldable pub judge_key : Env → String → Request → NonceRow → Option KeyConfig → Option Refusal
unfolding signature_base get_consumer_secret key_allows_rail
judge_key env rail r row key = elim (get_consumer_secret key) [
  | none ↦ some ("PAYOUT_AUTH_UNKNOWN_KEY", 401)
  | some secret ↦
      if secret =s ""
      then some ("PAYOUT_AUTH_UNKNOWN_KEY", 401)
      else if not (
          env.sign_request secret
            (signature_base env.sha256_hex row.timestamp row.nonce r.method r.path r.query r.body)
          =s lower (strip r.signature))
      then some ("PAYOUT_AUTH_INVALID", 401)
      else if not (key_allows_rail key rail)
      then some ("PAYOUT_AUTH_FORBIDDEN_RAIL", 403)
      else none
]

-- `DELETE FROM payout_auth_nonces WHERE timestamp < now - tolerance`
unfoldable pub is_old : ℕ → ℕ → Stamp → Bool
is_old now tolerance (at_least_zero n) = ltb (n + tolerance) now
is_old now tolerance (below_zero n) = ltb tolerance (now + n)

unfoldable pub delete_old : ℕ → ℕ → List NonceRow → List NonceRow
unfolding is_old
delete_old now tolerance [] = []
delete_old now tolerance (row ∷ rows) =
    let rest = delete_old now tolerance rows in
    if is_old now tolerance row.timestamp then rest else row ∷ rest

-- The row breaks `UNIQUE(consumer, key_id, nonce)`.
unfoldable pub has_nonce : NonceRow → List NonceRow → Bool
has_nonce row [] = false
has_nonce row (r ∷ rs) =
    (r.consumer =s row.consumer && r.key_id =s row.key_id && r.nonce =s row.nonce)
    || has_nonce row rs

-- What the clock shows when a request is checked, and when it deletes the old nonces.
pub record Times : Type 0 where
  pub checked : ℕ
  pub deleting : ℕ

-- `_remember_nonce`, with its own reading of the clock: whether the nonce is new, and the table; an
-- IntegrityError takes the deletion back.
unfoldable pub remember_nonce : ℕ → ℕ → NonceRow → List NonceRow → Bool × List NonceRow
unfolding delete_old has_nonce
remember_nonce deleting tolerance row rows =
    let kept = delete_old deleting tolerance rows in
    if has_nonce row kept then (false, rows) else (true, kept ++ row ∷ [])

abbrev pub answer_nonce : Bool × List NonceRow → Option Refusal × List NonceRow
answer_nonce (true, rows) = (none, rows)
answer_nonce (false, rows) = (some ("PAYOUT_AUTH_REPLAY", 401), rows)

-- A request whose signature was looked at.
unfoldable pub admit_request :
    ℕ → ℕ → NonceRow → Option Refusal → List NonceRow → Option Refusal × List NonceRow
unfolding remember_nonce
admit_request deleting tolerance row (some refusal) rows = (some refusal, rows)
admit_request deleting tolerance row none rows =
    answer_nonce (remember_nonce deleting tolerance row rows)

-- What is left to do where the headers could be read.
unfoldable pub judge_request :
    Env
    → Times
    → String
    → Request
    → Refusal ⊎ NonceRow
    → List NonceRow
    → Option Refusal × List NonceRow
unfolding is_expired judge_key get_consumer_key_config admit_request
judge_request env now rail r (inl refusal) rows = (some refusal, rows)
judge_request env now rail r (inr row) rows =
    if is_expired now.checked env.tolerance row.timestamp
    then (some ("PAYOUT_AUTH_EXPIRED", 401), rows)
    else admit_request now.deleting env.tolerance row
        (judge_key env rail r row (get_consumer_key_config env row.consumer row.key_id)) rows

-- `verify_payout_request`: the refusal, or none, and the table.
unfoldable pub verify_payout_request :
    Env → Times → String → Request → List NonceRow → Option Refusal × List NonceRow
unfolding read_request judge_request
verify_payout_request env now rail r rows = judge_request env now rail r (read_request r) rows

-- Requests one after another, each with its times.
unfoldable pub verify_all : Env → String → List (Times × Request) → List NonceRow → List NonceRow
unfolding verify_payout_request
verify_all env rail [] rows = rows
verify_all env rail ((now, r) ∷ rest) rows =
    verify_all env rail rest (verify_payout_request env now rail r rows).1
