-- ===== src/Catalog.antt =====
-- The products that are sold and their prices (backend/apps/api/src/services/payment-catalog.ts).
-- Prices are whole: roubles, kopecks and tokens.
pub mod Prices
use frendly.Common.{
  ℕ, ◌*◌, Bool, true, false, String, str_eq, Option, none, some, List, [], ◌∷◌, if◌then◌else◌, find,
}
use frendly.Common.Action.{ApiError, Result, ok, err}

pub record SubscriptionProduct : Type 0 where
  pub id : String
  pub label : String
  pub description : String
  pub amount_kopecks : ℕ
  pub price_rub : ℕ
  pub price_monthly_rub : ℕ
  pub token_cost : ℕ
  pub token_monthly_cost : ℕ
  pub trial_days : ℕ
  pub duration_days : ℕ
  pub badge : Option String
  pub benefits : List String

pub record TokenPackProduct : Type 0 where
  pub id : String
  pub label : String
  pub description : String
  pub amount_kopecks : ℕ
  pub price_rub : ℕ
  pub tokens : ℕ
  pub bonus : ℕ
  pub best : Bool

-- The tag `kind` is the constructor.
pub data PaymentProduct : Type 0 where
  subscription : SubscriptionProduct → PaymentProduct
  tokens : TokenPackProduct → PaymentProduct

pub record TokenPromotionOption : Type 0 where
  pub id : String
  pub title : String
  pub subtitle : String
  pub cost : ℕ
  pub duration_hours : ℕ

abbrev pub subscription_products : List SubscriptionProduct
subscription_products =
    record {
      id = "month";
      label = "Месячный";
      description = "Frendly+ на месяц";
      amount_kopecks = 79900;
      price_rub = 799;
      price_monthly_rub = 799;
      token_cost = 799;
      token_monthly_cost = 799;
      trial_days = 0;
      duration_days = 30;
      badge = none;
      benefits = [];
    }
    ∷ record {
      id = "quarter";
      label = "3 месяца";
      description = "Frendly+ на 3 месяца";
      amount_kopecks = 179700;
      price_rub = 1797;
      price_monthly_rub = 599;
      token_cost = 1797;
      token_monthly_cost = 599;
      trial_days = 0;
      duration_days = 90;
      badge = some "-25%";
      benefits = [];
    }
    ∷ record {
      id = "year";
      label = "Годовой";
      description = "Frendly+ на год";
      amount_kopecks = 478800;
      price_rub = 4788;
      price_monthly_rub = 399;
      token_cost = 4788;
      token_monthly_cost = 399;
      trial_days = 0;
      duration_days = 365;
      badge = some "-50%";
      benefits = [];
    }
    ∷ []

abbrev pub token_pack_products : List TokenPackProduct
token_pack_products =
    record {
      id = "p1";
      label = "Базовый";
      description = "Frendly Tokens: 100";
      amount_kopecks = 19900;
      price_rub = 199;
      tokens = 100;
      bonus = 0;
      best = false;
    }
    ∷ record {
      id = "p2";
      label = "Популярный";
      description = "Frendly Tokens: 350";
      amount_kopecks = 49900;
      price_rub = 499;
      tokens = 350;
      bonus = 0;
      best = true;
    }
    ∷ record {
      id = "p3";
      label = "Хост";
      description = "Frendly Tokens: 900";
      amount_kopecks = 99900;
      price_rub = 999;
      tokens = 900;
      bonus = 0;
      best = false;
    }
    ∷ record {
      id = "p4";
      label = "Pro";
      description = "Frendly Tokens: 2700";
      amount_kopecks = 249900;
      price_rub = 2499;
      tokens = 2700;
      bonus = 0;
      best = false;
    }
    ∷ []

abbrev pub token_promotion_options : List TokenPromotionOption
token_promotion_options =
    record {
      id = "boost-6";
      title = "Импульс";
      subtitle = "Топ радара · 1 час";
      cost = 100;
      duration_hours = 1;
    }
    ∷ record {
      id = "boost-24";
      title = "Разгон";
      subtitle = "Топ радара + карта · 5 часов";
      cost = 300;
      duration_hours = 5;
    }
    ∷ record {
      id = "boost-72";
      title = "Сутки";
      subtitle = "Закреп в радаре, карте, афише · 24 часа";
      cost = 500;
      duration_hours = 24;
    }
    ∷ []

abbrev pub or_error : {A : Type 0} → ApiError → Option A → Result A
or_error e none = err e
or_error e (some a) = ok a

unfoldable pub find_subscription_product : String → Result SubscriptionProduct
find_subscription_product plan =
    or_error ApiError.invalid_subscription_plan (find (λ p. str_eq p.id plan) subscription_products)

unfoldable pub find_token_pack_product : String → Result TokenPackProduct
find_token_pack_product pack_id =
    or_error ApiError.invalid_token_pack (find (λ p. str_eq p.id pack_id) token_pack_products)

unfoldable pub find_token_promotion_option : String → Result TokenPromotionOption
find_token_promotion_option option_id =
    or_error ApiError.invalid_token_promotion_option
      (find (λ o. str_eq o.id option_id) token_promotion_options)

abbrev pub of_subscription : Option SubscriptionProduct → Result PaymentProduct
of_subscription none = err ApiError.payment_product_not_found
of_subscription (some p) = ok (PaymentProduct.subscription p)

abbrev pub of_tokens : Option TokenPackProduct → Result PaymentProduct
of_tokens none = err ApiError.payment_product_not_found
of_tokens (some p) = ok (PaymentProduct.tokens p)

unfoldable pub find_payment_product : String → String → Result PaymentProduct
find_payment_product product_kind product_id =
    if str_eq product_kind "subscription"
    then of_subscription (find (λ p. str_eq p.id product_id) subscription_products)
    else (if str_eq product_kind "tokens"
        then of_tokens (find (λ p. str_eq p.id product_id) token_pack_products)
        else err ApiError.payment_product_not_found)
