-- ===== src/Offers/Codes.antt =====
-- The text, the hash and the expiry of a partner offer code
-- (backend/apps/api/src/services/partner-offer-code.service.ts): base32Encode, codeForId, hashCode,
-- hashNullable, zonedLocalTimeToUtc and computeOfferCodeExpiresAt.
use Prim.Native.String.{String, char_at}
use Prim.Native.String.{◌++◌ as concat}
use frendly.Common.{
  ℕ, zero, suc, ◌+◌, ◌-◌, ◌*◌, ◌/◌, ◌%◌, leb, ltb, Option, none, some, List, [], ◌∷◌, ◌++◌, take,
  if◌then◌else◌,
}
use frendly.Common.Text.{trim, is_empty}
use frendly.Calendar.{month_start, day_ms, hour_ms}

-- The parts of a time in a zone, with the year from 1970 on, and the month and the day from 0.
pub record ZonedParts : Type 0 where
  pub year : ℕ
  pub month : ℕ
  pub day : ℕ
  pub hour : ℕ
  pub minute : ℕ
  pub second : ℕ

-- What the service takes from outside: `process.env`, `crypto`, `toUpperCase` and `Intl`.
pub record OfferContext : Type 0 where
  pub secret : String
  pub activation_window_ms : ℕ
  pub max_activation_attempts_per_window : ℕ
  -- HMAC-SHA256 of an id under the secret, as bytes, and SHA-256 of a text in hexadecimal
  pub hmac : String → ℕ → List ℕ
  pub sha256 : String → String
  pub to_upper_case : String → String
  pub zoned_parts : String → ℕ → ZonedParts

abbrev pow2 : ℕ → ℕ
pow2 zero = 1
pow2 (suc n) = 2 * pow2 n

-- `(value >>> shift) & 31`
abbrev pub five_bits : ℕ → ℕ → ℕ
five_bits value shift = value / pow2 shift % 32

-- The loop `while (bits >= 5)`: at most two groups, since there are fewer than 13 bits.
abbrev pub groups : ℕ → ℕ → ℕ → List ℕ × ℕ
groups zero value bits = ([], bits)
groups (suc fuel) value bits =
    let rest = groups fuel value (bits - 5) in
    if leb 5 bits then (five_bits value (bits - 5) ∷ rest.0, rest.1) else ([], bits)

-- `base32Encode`, as positions in `BASE32_ALPHABET`; the value has 32 bits.
unfoldable pub base32_encode : ℕ → ℕ → List ℕ → List ℕ
base32_encode value bits [] = if ltb 0 bits then value * pow2 (5 - bits) % 32 ∷ [] else []
base32_encode value bits (byte ∷ bytes) =
    let value' = (value * 256 + byte) % 4_294_967_296 in
    let (out, left) = groups 2 value' (bits + 8) in out ++ base32_encode value' left bytes

abbrev pub letters : List ℕ → String
letters [] = String.[]
letters (n ∷ ns) = String.◌∷◌ (char_at "ABCDEFGHIJKLMNOPQRSTUVWXYZ234567" n) (letters ns)

module _ (context : OfferContext) where
  -- `codeForId`: the first 13 letters
  unfoldable pub code_for_id : ℕ → String
  code_for_id id = letters (take 13 (base32_encode 0 0 (context.hmac context.secret id)))

  -- `hashCode`
  unfoldable pub hash_code : String → String
  hash_code code =
      context.sha256 (concat context.secret (concat ":" (context.to_upper_case (trim code))))

  -- `hashNullable`
  unfoldable pub hash_nullable : Option String → Option String
  hash_nullable none = none
  hash_nullable (some value) =
      if is_empty (trim value)
      then none
      else some (context.sha256 (concat context.secret (concat ":activation:" (trim value))))

  -- `Date.UTC` of a day, where a day after the month's last is of the next month, and a time.
  abbrev pub utc_of : ZonedParts → ℕ
  utc_of p =
      (month_start p.year p.month + p.day) * day_ms
      + p.hour * hour_ms
      + p.minute * 60_000
      + p.second * 1000

  -- The loop of `zonedLocalTimeToUtc`, for times from 1970 on.
  unfoldable pub approach : ℕ → String → ℕ → ℕ → ℕ
  approach zero zone local candidate = candidate
  approach (suc n) zone local candidate =
      approach n zone local (local + candidate - utc_of (context.zoned_parts zone candidate))

  abbrev pub zoned_local_time_to_utc : String → ZonedParts → ℕ
  zoned_local_time_to_utc zone local = approach 3 zone (utc_of local) (utc_of local)

  abbrev pub zone_of : Option String → String
  zone_of none = "Europe/Moscow"
  zone_of (some zone) = if is_empty (trim zone) then "Europe/Moscow" else trim zone

  -- `computeOfferCodeExpiresAt`: six in the morning of the next day, where the session starts.
  unfoldable pub compute_offer_code_expires_at : ℕ → Option String → ℕ
  compute_offer_code_expires_at starts_at timezone =
      let zone = zone_of timezone in
      let date = context.zoned_parts zone starts_at in
      zoned_local_time_to_utc zone (record {
        year = date.year;
        month = date.month;
        day = suc date.day;
        hour = 6;
        minute = 0;
        second = 0;
      })
