-- ===== src/Tests/SignIns.antt =====
-- Phone codes and sessions at concrete inputs. The functions that stand for SHA-256 and HMAC here keep
-- their text, and tokens are written in unary.
use Prim.Native.Char.{code}
use Prim.Native.String.{String}
use frendly.Common.{
  ℕ, zero, suc, ◌+◌, ◌==◌, ◌<◌, true, false, none, some, List, [], ◌∷◌, find, ◌≡◌, refl, ap, ◌∙◌,
  arith, if◌then◌else◌, All,
}
use frendly.Common.Action.{ApiError, ok, err, Transaction, settling}
use frendly.Auth.Tables.{write_audit_event, AuthRequestMeta, PhoneOtpChallenge, Auth, take_back}
use frendly.Common.Text.{trim, text_length}
use frendly.Auth.Codes.{
  OtpContext, phone_otp_max_attempts, zeros, create_payload, verify_code, hash_code,
  derive_code_from_salt, write_digits, deliver_code, hash_request_key,
}
use frendly.Auth.Numbers.{normalize_phone, mask_phone_number}
use frendly.Auth.Phone.{latest, issue_within_limit, issue_challenge, request_phone_code}
use frendly.Auth.Sessions.{
  Claims, Jwt, TokenPair, refresh_session, rotate, create_session_record, record_legal_acceptance,
}
use frendly.Auth.Verify.{
  verify_phone_code, verify_in_transaction, claim, sign_in, ensure_user, find_or_create_user,
}
use frendly.Auth.Fresh.{Held}
use frendly.Auth.Histories.{AuthCall, perform, perform_all, perform_all-Held}
use frendly.Auth.Replay.{refresh_session_once}
use frendly.Auth.Accepted.{Accepted, IsRight, verify_phone_code-Accepted}
use frendly.Auth.Attempts.{Guess, guess_all, guess_all-Accepted}
use frendly.Auth.Derived.{verify_code-create_payload}

abbrev codes_of : String → List ℕ
codes_of String.[] = []
codes_of (String.◌∷◌ c s) = code c ∷ codes_of s

abbrev context : OtpContext
context = record {
  secret = "secret";
  dev_otp_enabled = true;
  webhook_url = none;
  posts = λ url phone code. false;
  sha256 = λ t. t;
  hmac = λ key t. t;
  hmac_word = λ key t. 70042;
  from_hex = codes_of;
}

abbrev bump : ℕ → List ℕ → List ℕ
bump n [] = []
bump n (m ∷ ms) = (n + m) ∷ ms

-- The lengths of the runs of zeros.
abbrev runs : String → List ℕ
runs String.[] = 0 ∷ []
runs (String.◌∷◌ c s) = if code c == 48 then bump 1 (runs s) else 0 ∷ runs s

abbrev written : Claims → String
written (Claims.of_access user session) = zeros user (String.◌∷◌ "-" (zeros session ""))
written (Claims.of_refresh user session token) =
    zeros user (String.◌∷◌ "-" (zeros session (String.◌∷◌ "-" (zeros token ""))))
written Claims.of_other = ""

abbrev read : List ℕ → Claims
read (user ∷ session ∷ []) = Claims.of_access user session
read (user ∷ session ∷ token ∷ []) = Claims.of_refresh user session token
read _ = Claims.of_other

bump-bump : (n : ℕ) (ms : List ℕ) → bump 1 (bump n ms) ≡ bump (suc n) ms
bump-bump n [] = refl
bump-bump n (m ∷ ms) = ap (λ k. k ∷ ms) (omega arith)

runs-zeros : (n : ℕ) (s : String) → runs (zeros n s) ≡ bump n (runs s)
runs-zeros zero s = none_more (runs s)
  where
    none_more : (ms : List ℕ) → ms ≡ bump 0 ms
    none_more [] = refl
    none_more (m ∷ ms) = ap (λ k. k ∷ ms) (omega arith)
runs-zeros (suc n) s = ap (bump 1) (runs-zeros n s) ∙ bump-bump n (runs s)

plus_zero : (n : ℕ) → n + 0 ≡ n
plus_zero n = omega arith

read-written : (c : Claims) → read (runs (written c)) ≡ c
read-written (Claims.of_access user session) = rw (
  runs-zeros user (String.◌∷◌ "-" (zeros session "")),
  runs-zeros session "",
  plus_zero user,
  plus_zero session,
)
read-written (Claims.of_refresh user session token) = rw (
  runs-zeros user (String.◌∷◌ "-" (zeros session (String.◌∷◌ "-" (zeros token "")))),
  runs-zeros session (String.◌∷◌ "-" (zeros token "")),
  runs-zeros token "",
  plus_zero user,
  plus_zero session,
  plus_zero token,
)
read-written Claims.of_other = refl

one_reading : (r c c' : Claims) → some r ≡ some c → some r ≡ some c' → c ≡ c'
one_reading r c c' h k = cc

abbrev jwt : Jwt
jwt = record {
  access_secret = "access";
  refresh_secret = "refresh";
  access_ttl = 900_000;
  refresh_ttl = 2_592_000_000;
  sign = λ secret ttl now claims. written claims;
  verify = λ secret now token. some (read (runs token));
  verify_signed = λ secret ttl now later claims h. ap some (read-written claims);
  verify_stable = λ secret token now later c c' h k. one_reading (read (runs token)) c c' h k;
}

abbrev tx : Transaction Auth take_back
tx = settling Auth take_back

abbrev meta : AuthRequestMeta
meta = record { request_id = none; ip = some "10.0.0.1"; user_agent = none }

abbrev empty : Auth
empty = record {
  challenges = [];
  users = [];
  sessions = [];
  audit_events = [];
  cached = [];
  next_id = 1;
}

empty-Held : Held (λ _. 1) 0 empty
empty-Held = record {
  since = omega arith;
  small = λ t. omega arith;
  allowed = λ t le. refl;
  within = λ t. omega arith;
  fresh = λ t le. refl;
  users = λ id le. refl;
}

verify_code-create_payload_example :
    let p = create_payload context "salt" 1000 in
    (text_length p.code ≡ 4) × (verify_code context p.code p.code_salt p.code_hash ≡ true)
verify_code-create_payload_example = verify_code-create_payload context "salt" 1000

-- One code was asked for.
abbrev ask : List AuthCall
ask = AuthCall.request "salt" meta "8 (900) 111-22-33" 1000 ∷ []

abbrev asked : Auth
asked = perform_all context jwt tx ask empty

asked-Held : Held (λ _. 1) 0 asked
asked-Held = perform_all-Held (λ _. 1) 0 context jwt tx ask empty empty-Held

abbrev challenge : PhoneOtpChallenge
challenge = record {
  id = 1;
  user_id = none;
  phone_number = "+79001112233";
  code_hash = "salt:0042:secret";
  code_salt = "salt";
  request_key_hash = some "10.0.0.1:";
  attempt_count = 0;
  last_attempt_at = none;
  last_issued_at = some 1000;
  expires_at = 601_000;
  consumed_at = none;
  created_at = 1000;
}

challenge_asked : find (λ c. c.id == 1) asked.challenges ≡ some challenge
unfolding perform_all perform request_phone_code normalize_phone latest issue_within_limit
    hash_request_key trim issue_challenge deliver_code write_audit_event create_payload hash_code
    derive_code_from_salt write_digits verify_code
challenge_asked = refl

right_code : verify_code context "0042" challenge.code_salt challenge.code_hash ≡ true
unfolding verify_code hash_code
right_code = refl

early : 9000 < 601_000
early = omega arith

attempts : 0 < phone_otp_max_attempts
attempts = omega arith

abbrev right : IsRight context jwt 1 "0042" 9000 asked
right = record {
  challenge = challenge;
  found = challenge_asked;
  unconsumed = refl;
  early = early;
  attempts = attempts;
  right = right_code;
}

verify_phone_code-Accepted_example :
    let r = verify_phone_code context jwt tx 1 "0042" meta 9000 asked in
    Accepted context jwt 1 9000 r
    × ((code' : String) (meta' : AuthRequestMeta) (later : ℕ)
        → (verify_phone_code context jwt tx 1 code' meta' later r.1).0
          ≡ err ApiError.invalid_otp_challenge)
verify_phone_code-Accepted_example =
    verify_phone_code-Accepted context jwt tx (λ _. 1) 0 1 "0042" meta 9000 asked asked-Held right

-- Six wrong codes, one more than the limit.
abbrev six : List Guess
six =
    record { code = "0000"; meta = meta; at = 2000 }
    ∷ record { code = "0001"; meta = meta; at = 2001 }
    ∷ record { code = "0002"; meta = meta; at = 2002 }
    ∷ record { code = "0003"; meta = meta; at = 2003 }
    ∷ record { code = "12"; meta = meta; at = 2004 }
    ∷ record { code = "0005"; meta = meta; at = 2005 }
    ∷ []

six_wrong : All (λ g. verify_code context g.code "salt" "salt:0042:secret" ≡ false) six
unfolding verify_code hash_code
six_wrong = (refl, (refl, (refl, (refl, (refl, (refl, tt))))))

guess_all-Accepted_example :
    Accepted context jwt 1 9000
      (verify_phone_code context jwt tx 1 "0042" meta 9000 (guess_all context jwt tx 1 six asked))
guess_all-Accepted_example =
    guess_all-Accepted context jwt tx 1 (λ _. 1) 0 six "0042" meta 9000 asked asked-Held right
      six_wrong

abbrev sign : List AuthCall
sign = AuthCall.verify 1 "0042" meta 9000 ∷ []

abbrev signed : Auth
signed = perform_all context jwt tx sign asked

abbrev token : String
token = written (Claims.of_refresh 3 4 5)

abbrev refreshed : Auth
refreshed = (refresh_session jwt token meta 20_000 signed).1

-- The pair of the refresh, with the next id for its token.
abbrev pair : TokenPair
pair = record {
  access_token = written (Claims.of_access 3 4);
  refresh_token = written (Claims.of_refresh 3 4 7);
}

returned : refresh_session jwt token meta 20_000 signed ≡ (ok pair, refreshed)
unfolding perform_all perform request_phone_code normalize_phone latest issue_within_limit
    hash_request_key trim issue_challenge deliver_code write_audit_event create_payload hash_code
    derive_code_from_salt write_digits verify_code refresh_session rotate verify_phone_code
    verify_in_transaction claim sign_in ensure_user find_or_create_user create_session_record
    record_legal_acceptance mask_phone_number
returned = refl

refresh_session_once_example :
    (refresh_session jwt token meta 40_000
      (perform_all context jwt tx (AuthCall.sign_out (some 4) meta 30_000 ∷ ask) refreshed)).0
    ≡ err ApiError.invalid_refresh_token
refresh_session_once_example =
    refresh_session_once context jwt tx token meta 20_000 signed refreshed pair
      (perform_all-Held (λ _. 1) 0 context jwt tx sign asked asked-Held) returned
      (AuthCall.sign_out (some 4) meta 30_000 ∷ ask) meta 40_000
