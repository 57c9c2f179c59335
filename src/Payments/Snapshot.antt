-- ===== src/Payments/Snapshot.antt =====
-- The products that an order keeps as JSON: written by `tokenPackSnapshot`, read by
-- `parseTokenPackSnapshot` and `parseCheckoutBundleSnapshot`
-- (backend/apps/api/src/services/payments.service.ts).
pub mod RoundTrip
use frendly.Common.{ℕ, zero, suc, Bool, String, str_eq, Option, none, some, if◌then◌else◌}
use frendly.Common.Int.{ℤ, pos, negsuc, ltb_ℤ, pos_part}
use frendly.Common.Text.{is_empty}
use frendly.Catalog.{SubscriptionProduct, TokenPackProduct}
use frendly.Payments.Tables.{Number, Json, Items, Fields, get_field}

-- A pack, with the price before a discount and the discount.
pub record DiscountedPack : Type 0 where
  pub pack : TokenPackProduct
  pub original_price_rub : Option ℕ
  pub discount_percent : ℕ

pub record PackSnapshot : Type 0 where
  pub pack_id : String
  pub tokens : ℕ
  pub bonus : ℕ

abbrev pub whole : ℕ → Json
whole n = Json.number (Number.integer (pos n))

abbrev pub or_null : Option ℕ → Json
or_null none = Json.null
or_null (some n) = whole n

unfoldable pub token_pack_snapshot : DiscountedPack → Json
token_pack_snapshot p = Json.object (
    Fields.field "id" (Json.text p.pack.id) (
      Fields.field "label" (Json.text p.pack.label) (
        Fields.field "description" (Json.text p.pack.description) (
          Fields.field "priceRub" (whole p.pack.price_rub) (
            Fields.field "originalPriceRub" (or_null p.original_price_rub) (
              Fields.field "discountPercent" (whole p.discount_percent) (
                Fields.field "amountKopecks" (whole p.pack.amount_kopecks) (
                  Fields.field "tokens" (whole p.pack.tokens)
                    (Fields.field "bonus" (whole p.pack.bonus) Fields.no_fields)))))))))

abbrev pub snapshot_or_null : Option DiscountedPack → Json
snapshot_or_null none = Json.null
snapshot_or_null (some p) = token_pack_snapshot p

-- The snapshot of a checkout bundle.
unfoldable pub checkout_bundle_snapshot : SubscriptionProduct → Option DiscountedPack → Json
checkout_bundle_snapshot subscription pack = Json.object (
    Fields.field "kind" (Json.text "checkout_bundle") (
      Fields.field "subscription"
        (Json.object (
          Fields.field "id" (Json.text subscription.id) (
            Fields.field "label" (Json.text subscription.label) (
              Fields.field "priceRub" (whole subscription.price_rub) (
                Fields.field "amountKopecks" (whole subscription.amount_kopecks)
                  Fields.no_fields)))))
        (Fields.field "tokenPack" (snapshot_or_null pack) Fields.no_fields)))

-- `typeof value === 'string' ? value : ''`
abbrev pub text_of : Option Json → String
text_of (some (Json.text s)) = s
text_of (some Json.null) = ""
text_of (some (Json.boolean b)) = ""
text_of (some (Json.number n)) = ""
text_of (some (Json.array xs)) = ""
text_of (some (Json.object o)) = ""
text_of none = ""

-- `value ?? 0`
abbrev pub or_zero : Option Json → Option Json
or_zero none = some (whole 0)
or_zero (some Json.null) = some (whole 0)
or_zero (some (Json.text s)) = some (Json.text s)
or_zero (some (Json.boolean b)) = some (Json.boolean b)
or_zero (some (Json.number n)) = some (Json.number n)
or_zero (some (Json.array xs)) = some (Json.array xs)
or_zero (some (Json.object o)) = some (Json.object o)

abbrev pub is_positive : Number → Option ℕ
is_positive (Number.integer (pos zero)) = none
is_positive (Number.integer (pos (suc n))) = some (suc n)
is_positive (Number.integer (negsuc n)) = none
is_positive Number.fraction = none
is_positive Number.not_finite = none

abbrev pub is_natural : Number → Option ℕ
is_natural (Number.integer (pos n)) = some n
is_natural (Number.integer (negsuc n)) = none
is_natural Number.fraction = none
is_natural Number.not_finite = none

abbrev pub snapshot_of : String → Option ℕ → Option ℕ → Option PackSnapshot
snapshot_of id none bonus = none
snapshot_of id (some tokens) none = none
snapshot_of id (some tokens) (some bonus) =
    if is_empty id then none else some (record { pack_id = id; tokens = tokens; bonus = bonus })

-- `to_number` is the conversion `Number` of texts, arrays and objects.
module _ (to_number : Json → Number) where
  abbrev pub number_of : Option Json → Number
  number_of none = Number.not_finite
  number_of (some Json.null) = Number.integer (pos 0)
  number_of (some (Json.boolean b)) = Number.integer (if b then pos 1 else pos 0)
  number_of (some (Json.number n)) = n
  number_of (some (Json.text s)) = to_number (Json.text s)
  number_of (some (Json.array xs)) = to_number (Json.array xs)
  number_of (some (Json.object o)) = to_number (Json.object o)

  -- `parseTokenPackSnapshot`
  unfoldable pub parse_token_pack_snapshot : Option Json → Option PackSnapshot
  parse_token_pack_snapshot (some (Json.object raw)) =
      snapshot_of (text_of (get_field "id" raw)) (is_positive (number_of (get_field "tokens" raw)))
        (is_natural (number_of (or_zero (get_field "bonus" raw))))
  parse_token_pack_snapshot (some (Json.array xs)) = none
  parse_token_pack_snapshot (some (Json.text s)) = none
  parse_token_pack_snapshot (some (Json.number n)) = none
  parse_token_pack_snapshot (some (Json.boolean b)) = none
  parse_token_pack_snapshot (some Json.null) = none
  parse_token_pack_snapshot none = none

  -- `parseCheckoutBundleSnapshot`: what it reads of a bundle is the pack, if there is one.
  unfoldable pub parse_checkout_bundle_snapshot : Option Json → Option (Option PackSnapshot)
  parse_checkout_bundle_snapshot (some (Json.object raw)) =
      if str_eq (text_of (get_field "kind" raw)) "checkout_bundle"
      then some (parse_token_pack_snapshot (get_field "tokenPack" raw))
      else none
  parse_checkout_bundle_snapshot (some (Json.array xs)) = none
  parse_checkout_bundle_snapshot (some (Json.text s)) = none
  parse_checkout_bundle_snapshot (some (Json.number n)) = none
  parse_checkout_bundle_snapshot (some (Json.boolean b)) = none
  parse_checkout_bundle_snapshot (some Json.null) = none
  parse_checkout_bundle_snapshot none = none
