-- ===== src/Auth/Codes.antt =====
-- `PhoneOtpService` (backend/apps/api/src/services/phone-otp.service.ts): the code of a phone challenge is
-- derived from its salt, kept as a hash, delivered, and checked.
use Prim.Native.Char.{Char, code}
use Prim.Native.String.{String}
use Prim.Native.String.{◌++◌ as concat}
use frendly.Common.{
  ℕ, zero, suc, ◌+◌, ◌-◌, ◌*◌, ◌/◌, ◌%◌, ◌==◌, ltb, Bool, true, false, ◌&&◌, Option, none, some,
  List, [], ◌∷◌, if◌then◌else◌,
}
use frendly.Common.Text.{trim, is_empty, is_digit, text_length, text_take}
use frendly.Common.Action.{ApiError, Result, ok, err}
use frendly.Auth.Tables.{AuthRequestMeta}

abbrev pub phone_otp_code_length : ℕ
phone_otp_code_length = 4

abbrev pub phone_otp_ttl_ms : ℕ
phone_otp_ttl_ms = 10 * 60 * 1000

abbrev pub phone_otp_cooldown_ms : ℕ
phone_otp_cooldown_ms = 42 * 1000

abbrev pub phone_otp_max_attempts : ℕ
phone_otp_max_attempts = 5

abbrev pub phone_otp_request_window_ms : ℕ
phone_otp_request_window_ms = 10 * 60 * 1000

abbrev pub phone_otp_max_requests_per_context : ℕ
phone_otp_max_requests_per_context = 5

-- What the service takes from outside: `process.env`, `fetch` and `node:crypto`.
pub record OtpContext : Type 0 where
  pub secret : String
  pub dev_otp_enabled : Bool
  pub webhook_url : Option String
  -- whether the webhook at an address answers a phone number and code with `ok`
  pub posts : String → String → String → Bool
  -- SHA-256 of a text, and HMAC-SHA-256 under a key, in hexadecimal
  pub sha256 : String → String
  pub hmac : String → String → String
  -- the first 32 bits of the HMAC
  pub hmac_word : String → String → ℕ
  -- `Buffer.from(text, 'hex')`
  pub from_hex : String → List ℕ

abbrev pub all_digits : String → Bool
all_digits String.[] = true
all_digits (String.◌∷◌ c s) = is_digit c && all_digits s

abbrev pub digit : ℕ → Char
digit d =
    if d == 0
    then "0"
    else (if d == 1
        then "1"
        else (if d == 2
            then "2"
            else (if d == 3
                then "3"
                else (if d == 4
                    then "4"
                    else (if d == 5
                        then "5"
                        else (if d == 6
                            then "6"
                            else (if d == 7 then "7" else (if d == 8 then "8" else "9"))))))))

-- `Number.prototype.toString` of a whole number: its digits, before a text.
unfoldable pub write_digits : ℕ → ℕ → String → String
write_digits zero n s = s
write_digits (suc fuel) n s =
    let rest = write_digits fuel (n / 10) (String.◌∷◌ (digit (n % 10)) s) in
    if ltb n 10 then String.◌∷◌ (digit (n % 10)) s else rest

abbrev pub number_text : ℕ → String
number_text n = write_digits (suc n) n String.[]

abbrev pub zeros : ℕ → String → String
zeros zero s = s
zeros (suc n) s = String.◌∷◌ "0" (zeros n s)

-- `padStart(width, '0')`
abbrev pub pad_start : ℕ → String → String
pad_start width s = zeros (width - text_length s) s

abbrev pub bytes_eq : List ℕ → List ℕ → Bool
bytes_eq [] [] = true
bytes_eq [] (y ∷ ys) = false
bytes_eq (x ∷ xs) [] = false
bytes_eq (x ∷ xs) (y ∷ ys) = x == y && bytes_eq xs ys

-- `PhoneOtpPayload`
pub record PhoneOtpPayload : Type 0 where
  pub code : String
  pub code_salt : String
  pub code_hash : String
  pub expires_at : ℕ

-- `PhoneOtpDeliveryResult`
pub record PhoneOtpDeliveryResult : Type 0 where
  pub provider : String
  pub local_code_hint : Option String

module _ (context : OtpContext) where
  -- A word of 32 bits, held to four digits.
  unfoldable pub derive_code_from_salt : String → String
  derive_code_from_salt salt =
      pad_start phone_otp_code_length (number_text (context.hmac_word context.secret salt % 10000))

  unfoldable pub hash_code : String → String → String
  hash_code code salt =
      context.sha256 (concat salt (concat ":" (concat code (concat ":" context.secret))))

  -- `salt` stands for the 16 random bytes.
  unfoldable pub create_payload : String → ℕ → PhoneOtpPayload
  create_payload salt now = record {
    code = derive_code_from_salt salt;
    code_salt = salt;
    code_hash = hash_code (derive_code_from_salt salt) salt;
    expires_at = now + phone_otp_ttl_ms;
  }

  unfoldable pub verify_code : String → String → String → Bool
  verify_code code salt hash =
      text_length code == phone_otp_code_length
      && all_digits code
      && bytes_eq (context.from_hex hash) (context.from_hex (hash_code code salt))

  unfoldable pub local_code_hint : String → Option String
  local_code_hint salt = if context.dev_otp_enabled then some (derive_code_from_salt salt) else none

  abbrev deliver_via_webhook : String → String → String → Result PhoneOtpDeliveryResult
  deliver_via_webhook url phone code =
      if context.posts url phone code
      then ok (record { provider = "webhook"; local_code_hint = none })
      else err ApiError.phone_auth_delivery_failed

  unfoldable pub deliver_code : String → String → Result PhoneOtpDeliveryResult
  deliver_code phone code =
      if context.dev_otp_enabled
      then ok (record { provider = "dev"; local_code_hint = some code })
      else elim context.webhook_url [
        | none ↦ err ApiError.phone_auth_unavailable
        | some url ↦
            if is_empty (trim url)
            then err ApiError.phone_auth_unavailable
            else deliver_via_webhook (trim url) phone code
      ]

  unfoldable pub hash_request_key : AuthRequestMeta → Option String
  hash_request_key meta = elim meta.ip [
    | none ↦ none
    | some ip ↦
        if is_empty (trim ip)
        then none
        else some
            (context.hmac context.secret (concat (trim ip) (concat ":" (agent meta.user_agent))))
  ]
    where
      agent : Option String → String
      agent none = ""
      agent (some user_agent) = text_take 160 (trim user_agent)
