-- ===== src/Auth/Tests.antt =====
-- A signed request, and the theorem on it (app/payout_auth.py). The functions of the signature are
-- simple ones.
use tron_shkeeper.Base.{
  ℕ, ◌≡◌, ◌≢◌, refl, String, none, some, List, [], ◌∷◌, strip, lower, upper, arith,
}
use tron_shkeeper.Auth.Request.{
  at_least_zero, Request, Times, full, by_id, Env, parse_int, show_int, verify_payout_request,
  verify_all,
}
use tron_shkeeper.Auth.Replay.{verify_payout_request-once}

abbrev signature : String
signature = "0123456789abcdef0123456789abcdef0123456789abcdef0123456789abcdef"

abbrev env : Env
env = record {
  configured_keys = ("shop", by_id (("k1", full (some "secret") ("TRON-USDT" ∷ []) []) ∷ [])) ∷ [];
  tolerance = 300;
  sha256_hex = λ s. s;
  sign_request = λ secret base. signature;
}

abbrev payout : Request
payout = record {
  consumer = " shop";
  key_id = "k1";
  timestamp = "1000";
  nonce = "n1";
  signature = signature;
  method = "post";
  path = "/payout";
  query = "";
  body = "{}";
}

parse-underscore : parse_int "1_000" ≡ some (at_least_zero 1000)
unfolding parse_int
parse-underscore = refl

show-number : show_int (at_least_zero 1204) ≡ "1204"
unfolding show_int
show-number = refl

-- A request that is checked and deletes nonces in the same second.
abbrev at : ℕ → Times
at second = record { checked = second; deleting = second }

first-admitted : (verify_payout_request env (at 1100) "TRON-USDT" payout []).0 ≡ none
unfolding verify_payout_request strip lower upper
first-admitted = refl

-- Another nonce, in between.
abbrev between : List (Times × Request)
between = (at 1200, record payout { nonce = "n2" }) ∷ []

verify_payout_request-once_example :
    (verify_payout_request env (at 1290) "TRON-USDT" payout (
      verify_all env "TRON-USDT" between
        (verify_payout_request env (at 1100) "TRON-USDT" payout []).1)).0
    ≢ none
verify_payout_request-once_example =
    verify_payout_request-once env "TRON-USDT" payout [] (at 1100) (at 1290) between first-admitted
      (omega arith, tt) (λ row read current. current)

-- Where the clock goes on between the check and the deletion, in the last second of the request, it
-- is let in again.
second-admitted :
    (verify_payout_request env
      (record { checked = 1300; deleting = 1301 })
      "TRON-USDT"
      payout
      (verify_payout_request env (at 1100) "TRON-USDT" payout []).1).0
    ≡ none
unfolding verify_payout_request strip lower upper
second-admitted = refl
