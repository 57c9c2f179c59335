-- ===== src/Auth/Derived.antt =====
-- The code that `PhoneOtpService` derives (backend/apps/api/src/services/phone-otp.service.ts).
use Prim.Native.Char.{Char}
use Prim.Native.String.{String}
use frendly.Common.Text.{is_digit, text_length}
use frendly.Common.{
  ℕ, zero, suc, ◌+◌, ◌-◌, ◌*◌, ◌/◌, ◌%◌, ◌==◌, ◌≤◌, ◌<◌, Bool, true, false, List, [], ◌∷◌, ◌≡◌,
  refl, arith, if◌then◌else◌,
}
use frendly.Auth.Codes.{
  OtpContext, all_digits, digit, write_digits, number_text, zeros, pad_start, bytes_eq,
  derive_code_from_salt, create_payload, verify_code,
}

abbrev pow10 : ℕ → ℕ
pow10 zero = 1
pow10 (suc k) = 10 * pow10 k

if_digit :
    (b : Bool) (x y : Char)
    → is_digit x ≡ true
    → is_digit y ≡ true
    → is_digit (if b then x else y) ≡ true
if_digit true x y h k = h
if_digit false x y h k = k

digit-is_digit : (d : ℕ) → is_digit (digit d) ≡ true
digit-is_digit d = if_digit (d == 0) "0" _ refl (
    if_digit (d == 1) "1" _ refl (
      if_digit (d == 2) "2" _ refl (
        if_digit (d == 3) "3" _ refl (
          if_digit (d == 4) "4" _ refl (
            if_digit (d == 5) "5" _ refl (
              if_digit (d == 6) "6" _ refl
                (if_digit (d == 7) "7" _ refl (if_digit (d == 8) "8" "9" refl refl))))))))

write_digits-all_digits :
    (fuel n : ℕ) (s : String) → all_digits s ≡ true → all_digits (write_digits fuel n s) ≡ true
unfolding write_digits
write_digits-all_digits zero n s h = h
write_digits-all_digits (suc fuel) n s h =
    let d : all_digits (String.◌∷◌ (digit (n % 10)) s) ≡ true = rw (digit-is_digit (n % 10)) h in
    ground (arith, write_digits-all_digits fuel (n / 10) (String.◌∷◌ (digit (n % 10)) s) d)

-- A number below a power of ten has at most so many digits.
write_digits-length :
    (k fuel n : ℕ) (s : String)
    → n < pow10 k
    → 1 ≤ k
    → text_length (write_digits fuel n s) ≤ k + text_length s
unfolding write_digits
write_digits-length zero fuel n s h pos = absurd (omega arith)
write_digits-length (suc k) zero n s h pos = omega arith
write_digits-length (suc zero) (suc fuel) n s h pos = ground arith
write_digits-length (suc (suc k)) (suc fuel) n s h pos =
    let d : String = String.◌∷◌ (digit (n % 10)) s in
    ground (arith, write_digits-length (suc k) fuel (n / 10) d (omega arith) (omega arith))

zeros-length : (n : ℕ) (s : String) → text_length (zeros n s) ≡ n + text_length s
zeros-length zero s = omega arith
zeros-length (suc n) s = omega (arith, zeros-length n s)

zeros-all_digits : (n : ℕ) (s : String) → all_digits s ≡ true → all_digits (zeros n s) ≡ true
zeros-all_digits zero s h = h
zeros-all_digits (suc n) s h = zeros-all_digits n s h

bytes_eq_refl : (bs : List ℕ) → bytes_eq bs bs ≡ true
bytes_eq_refl [] = refl
bytes_eq_refl (b ∷ bs) = ground (arith, bytes_eq_refl bs)

-- For any secret, salt and hash function: the code of a new payload has four digits, so it is
-- verified against the payload's salt and hash.
pub verify_code-create_payload :
    (context : OtpContext) (salt : String) (now : ℕ)
    → let p = create_payload context salt now in
      (text_length p.code ≡ 4) × (verify_code context p.code p.code_salt p.code_hash ≡ true)
unfolding verify_code create_payload derive_code_from_salt
verify_code-create_payload context salt now = (has_four, rw (has_four, digits, bytes_eq_refl _))
  where
    n : ℕ
    n = context.hmac_word context.secret salt % 10000

    digits : all_digits (pad_start 4 (number_text n)) ≡ true
    digits =
        zeros-all_digits (4 - text_length (number_text n)) (number_text n)
          (write_digits-all_digits (suc n) n String.[] refl)

    has_four : text_length (pad_start 4 (number_text n)) ≡ 4
    has_four = omega (
      arith,
      zeros-length (4 - text_length (number_text n)) (number_text n),
      write_digits-length 4 (suc n) n String.[] (omega arith) (omega arith),
    )
