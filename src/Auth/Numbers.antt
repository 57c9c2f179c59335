-- ===== src/Auth/Numbers.antt =====
-- Phone numbers: `normalizePhone` of backend/apps/api/src/services/auth.service.ts and `maskPhoneNumber`
-- of backend/packages/database/src/telegram-auth.ts. Lengths count characters.
use Prim.Native.String.{String}
use Prim.Native.String.{◌++◌ as concat}
use frendly.Common.{◌-◌, ◌==◌, leb, ◌&&◌, if◌then◌else◌}
use frendly.Common.Text.{trim, starts_with, is_digit, text_drop, text_length, text_take}

abbrev pub only_digits : String → String
only_digits String.[] = String.[]
only_digits (String.◌∷◌ c s) = if is_digit c then String.◌∷◌ c (only_digits s) else only_digits s

abbrev by_length : String → String
by_length digits =
    if text_length digits == 12 && starts_with "375" digits
    then concat "+" digits
    else (if text_length digits == 10
        then concat "+7" digits
        else (if text_length digits == 11 && starts_with "8" digits
            then concat "+7" (text_drop 1 digits)
            else (if text_length digits == 11 && starts_with "7" digits
                then concat "+" digits
                else "")))

-- `normalizePhone`
unfoldable pub normalize_phone : String → String
normalize_phone raw = by_length (only_digits raw)

-- `maskPhoneNumber` of backend/packages/database/src/telegram-auth.ts
unfoldable pub mask_phone_number : String → String
mask_phone_number raw =
    let normalized = trim raw in
    let masked =
      concat (text_take 2 normalized)
        (concat " *** *** " (text_drop (text_length normalized - 2) normalized)) in
    if leb (text_length normalized) 4 then normalized else masked
