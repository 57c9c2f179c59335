-- ===== src/Payments/Tables.antt =====
-- The table of payment orders (PaymentOrder of backend/packages/database/prisma/schema.prisma), JSON
-- values, and the bank's answers. The column `rawNotification` is only written and is left out.
use frendly.Common.{ℕ, Bool, String, str_eq, Option, none, some, List, if◌then◌else◌}
use frendly.Common.Int.{ℤ}
use frendly.Common.Action.{Result}
use frendly.Subscription.{Billing}

pub data PaymentOrderStatus : Type 0 where
  pending confirmed failed expired canceled : PaymentOrderStatus

pub data PaymentProvider : Type 0 where
  tbank apple : PaymentProvider

pub data PaymentProductKind : Type 0 where
  subscription tokens : PaymentProductKind

-- A number of ECMAScript, as far as `Number.isInteger` and `Number.isFinite` see it.
pub data Number : Type 0 where
  integer : ℤ → Number
  fraction : Number
  not_finite : Number

mutual
  pub data Json : Type 0 where
    null : Json
    boolean : Bool → Json
    number : Number → Json
    text : String → Json
    array : Items → Json
    object : Fields → Json

  pub data Items : Type 0 where
    no_items : Items
    item : Json → Items → Items

  pub data Fields : Type 0 where
    no_fields : Fields
    field : String → Json → Fields → Fields

-- `raw[key]`; `none` is `undefined`.
abbrev pub get_field : String → Fields → Option Json
get_field key Fields.no_fields = none
get_field key (Fields.field k v rest) = if str_eq k key then some v else get_field key rest

pub record PaymentOrder : Type 0 where
  pub id : ℕ
  pub user_id : ℕ
  pub provider : PaymentProvider
  pub product_kind : PaymentProductKind
  pub product_id : String
  pub amount_kopecks : ℕ
  pub order_id : String
  pub provider_payment_id : Option String
  pub payment_url : Option String
  pub status : PaymentOrderStatus
  pub confirmed_at : Option ℕ
  pub failed_at : Option ℕ
  pub expires_at : Option ℕ
  pub raw_status : Option String
  pub product_snapshot : Option Json

-- What `mapOrder` returns.
pub record OrderView : Type 0 where
  pub order_id : String
  pub payment_id : Option String
  pub payment_url : Option String
  pub status : PaymentOrderStatus
  pub product_kind : PaymentProductKind
  pub product_id : String

-- The orders, beside the tables of the subscriptions and the tokens.
pub record Payments : Type 0 where
  pub orders : List PaymentOrder
  pub billing : Billing

-- An answer of the bank to `GetState`.
pub record TbankState : Type 0 where
  pub status : Option String
  pub payment_id : Option String
  pub amount : Option Json

-- `TbankAcquiringService`: the terminal's key, the signature of a body and the bank's answer.
pub record Tbank : Type 0 where
  pub terminal_key : String
  pub build_token : Fields → String
  pub get_state : String → Result TbankState
