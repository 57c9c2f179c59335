-- ===== src/Evening/Hours.antt =====
-- Opening hours in backend/apps/api/src/services/evening-route-ai-validator.service.ts:
-- parseTimeToMinutes, isTimeInsideInterval and isTimeInsideOpeningHours. Opening hours are a JSON value
-- of the database.
use Prim.Native.Char.{Char, code}
use Prim.Native.String.{String}
use frendly.Common.{
  ℕ, ◌+◌, ◌-◌, ◌*◌, ◌==◌, leb, Bool, false, ◌&&◌, ◌||◌, Option, none, some, if◌then◌else◌,
}
use frendly.Common.Text.{trim, is_digit}
use frendly.Payments.Tables.{Json, Items, Fields}

abbrev pub digit_value : Char → ℕ
digit_value c = code c - 48

-- `\d{2}` at the start of a text
abbrev pub two_digits : String → Option ℕ
two_digits String.[] = none
two_digits (String.◌∷◌ c String.[]) = none
two_digits (String.◌∷◌ c (String.◌∷◌ d s)) =
    if is_digit c && is_digit d then some (digit_value c * 10 + digit_value d) else none

-- `:(\d{2})`
abbrev pub after_colon : String → Option ℕ
after_colon String.[] = none
after_colon (String.◌∷◌ c s) = if code c == 58 then two_digits s else none

abbrev pub with_hours : ℕ → Option ℕ → Option (ℕ × ℕ)
with_hours h none = none
with_hours h (some m) = some (h, m)

-- `^(\d{1,2}):(\d{2})`: a second digit belongs to the hours, since no digit is a colon.
abbrev pub clock : String → Option (ℕ × ℕ)
clock String.[] = none
clock (String.◌∷◌ c String.[]) = none
clock (String.◌∷◌ c (String.◌∷◌ d s)) =
    if is_digit c
    then (if is_digit d
        then with_hours (digit_value c * 10 + digit_value d) (after_colon s)
        else with_hours (digit_value c) (after_colon (String.◌∷◌ d s)))
    else none

abbrev pub minutes_in_day : Option (ℕ × ℕ) → Option ℕ
minutes_in_day none = none
minutes_in_day (some (h, m)) = if leb 24 h || leb 60 m then none else some (h * 60 + m)

unfoldable pub parse_time : String → Option ℕ
parse_time s = minutes_in_day (clock (trim s))

-- `parseTimeToMinutes` of a value that may be no text
abbrev pub parse_time_to_minutes : Json → Option ℕ
parse_time_to_minutes (Json.text s) = parse_time s
parse_time_to_minutes Json.null = none
parse_time_to_minutes (Json.boolean b) = none
parse_time_to_minutes (Json.number n) = none
parse_time_to_minutes (Json.array xs) = none
parse_time_to_minutes (Json.object fs) = none

-- From a start to an end, or over midnight where the end is before the start.
abbrev pub inside : ℕ → Option ℕ → Option ℕ → Bool
inside time none end = false
inside time (some start) none = false
inside time (some start) (some end) =
    if leb start end then leb start time && leb time end else leb start time || leb time end

abbrev pub is_time_inside_interval : ℕ → Json → Bool
is_time_inside_interval time (Json.array (Items.item start (Items.item end rest))) =
    inside time (parse_time_to_minutes start) (parse_time_to_minutes end)
is_time_inside_interval time _ = false

abbrev pub some_item : (Json → Bool) → Items → Bool
some_item p Items.no_items = false
some_item p (Items.item x xs) = p x || some_item p xs

abbrev pub some_value : (Json → Bool) → Fields → Bool
some_value p Fields.no_fields = false
some_value p (Fields.field key x fs) = p x || some_value p fs

abbrev pub is_inside_day : ℕ → Json → Bool
is_inside_day time (Json.array intervals) = some_item (is_time_inside_interval time) intervals
is_inside_day time Json.null = false
is_inside_day time (Json.boolean b) = false
is_inside_day time (Json.number n) = false
is_inside_day time (Json.text s) = false
is_inside_day time (Json.object fs) = false

-- `Object.values` of an object or of an array
abbrev pub is_inside_days : ℕ → Json → Bool
is_inside_days time (Json.object days) = some_value (is_inside_day time) days
is_inside_days time (Json.array days) = some_item (is_inside_day time) days
is_inside_days time Json.null = false
is_inside_days time (Json.boolean b) = false
is_inside_days time (Json.number n) = false
is_inside_days time (Json.text s) = false

abbrev pub is_known_time_inside : Option ℕ → Json → Bool
is_known_time_inside none hours = false
is_known_time_inside (some time) hours = is_inside_days time hours

-- `isTimeInsideOpeningHours`, of a label that may be missing
unfoldable pub is_time_inside_opening_hours : Option String → Json → Bool
is_time_inside_opening_hours none hours = false
is_time_inside_opening_hours (some label) hours = is_known_time_inside (parse_time label) hours
