-- ===== src/Lib.antt =====
-- The core of the Frendly backend (backend/apps/api/src): the reward tickets of Frendly Drops and
-- their draw, the token wallets and their ledger, the subscriptions, the payment orders that pay
-- for them, the sign-in by phone with its sessions, the codes of partner offers, the quotas of
-- dating, and the validator of generated evening routes.
--
-- The parts, and the files that model them:
-- * Calendar.antt, Calendar/: the day, month and year of a time, as the `Date` functions that
--   backend/apps/api/src/services/drops-reward.service.ts calls give them. `find_year` runs on as
--   much fuel as there are days, plus one, and a year has at least 365; `find_month` on twelve.
-- * Catalog.antt, Catalog/: backend/apps/api/src/services/payment-catalog.ts, the price list and
--   its lookups.
-- * Drops.antt, Drops/: backend/apps/api/src/services/drops-reward.service.ts (Tables, Grant:
--   `grantReward`, `assertMonthlyLimit`; Confirm: `cancelTicketsForReward`, `confirmReward`,
--   `getProgress`; Claims: the methods that grant for a reason) and
--   backend/apps/api/src/services/drops-draw.service.ts (Draw). Limits, Runs and Histories hold
--   the invariants, Idempotency what a key promises, Order the order of a draw, Outcome what it
--   decides, and Ends how it ends.
-- * Tokens.antt, Tokens/: backend/apps/api/src/services/tokens.service.ts (Tables; Wallet:
--   `getWallet`, `creditPurchasedTokens`, `spendTokens`; Promotion: `createPromotion`). Ledger
--   says when the books agree; Money, Spend and Promoted what a credit, a spending and a promotion
--   do; and Histories what stays true. Bank is a specification without rows and cache, which
--   Refined compares with the service (Others: the balances of other users); promotions are not
--   among its calls.
-- * Subscription.antt, Subscription/: backend/apps/api/src/services/subscription.service.ts (the
--   statuses and the plans; Service: `subscribe`, `subscribeWithTokens`,
--   `activatePaidSubscription`, `getCurrent`). Status says what a paid plan gives, and Bought what
--   one that is paid with tokens does.
-- * Payments.antt, Payments/: backend/apps/api/src/services/payments.service.ts (Tables; Snapshot:
--   the products that an order keeps as JSON; Orders: `confirmPaymentOrder`, `markPaymentStatus`;
--   Bank: `handleTbankWebhook`, `checkPayment`; Products: prices and the opening of an order).
--   Opening, Snapshot/RoundTrip, Orders/Outcomes, Orders/Paid and Bank/Notified hold the theorems.
-- * Auth.antt, Auth/: backend/apps/api/src/services/phone-otp.service.ts (Codes) and
--   backend/apps/api/src/services/auth.service.ts (Tables; Numbers: `normalizePhone`; Phone:
--   `requestPhoneCode`; Verify: `verifyPhoneCode`; Sessions: `refreshSession`, `logout`), with the
--   tokens of backend/packages/database/src/auth-tokens.ts. Fresh, Kept and Histories hold what
--   every call keeps of the ids; Replay, Accepted, Attempts and Derived the theorems.
-- * Evening.antt, Evening/: backend/apps/api/src/services/evening-route-ai-validator.service.ts
--   (Hours: the opening hours; Validator: `validateDraft`; Route: which drafts have no error).
-- * Offers.antt, Offers/: backend/apps/api/src/services/partner-offer-code.service.ts (Tables;
--   Codes: text, hash and expiry; Service: `activateCode`, `getCodeStatus`; Issue: `issueCode`,
--   with three attempts as in the code). Histories holds what every call keeps of the codes, Once
--   and Rate the theorems.
-- * Dating.antt, Dating/: backend/apps/api/src/services/dating.service.ts (Tables; Quotas: the quotas
--   and the transactions of `recordAction` and `rewindLastPass`; Limits: `loadFreshLimits`). Uses and
--   Daily hold the daily limits, Charges what is shown against what is charged. The rules of Plus and
--   whether a user has it are arguments; the checks of the other user, the notifications, chats and
--   caches around a swipe are left out, and so are the lists of profiles.
-- * Common.antt, Common/: names and lemmas that the parts share. Tests.antt, Tests/: the theorems
--   at concrete inputs.
--
-- How the code is modelled. A service's state is a record of its tables
-- (backend/packages/database/prisma/schema.prisma) and caches; the state of the payments holds
-- that of the subscriptions, which holds the tokens, which hold the drops, as the services call
-- one another on one database. An `async` method is an `Action` (Common/Action.antt): from a state
-- to a result or a thrown `ApiError`, and a state. What was written before a throw stays written,
-- unless a `Transaction` takes it back: that record is Prisma's `$transaction`, with the
-- documented rollback as its only law, and `take_back` says that a rollback does not reach caches
-- and random draws. Calls run one after the other; two calls at once, and loads that several calls
-- share, are not modelled, nor are unique columns under races. A call reads the clock once. Ids
-- are numbers where the code only compares them; `next_id` stands for the database's fresh ids and
-- `random` for `randomBytes`. Amounts are whole. Parameters: SHA-256 (`hash_seed`,
-- `ticket_draw_hash`), HMAC, the webhook and the environment (`OtpContext`, `OfferContext`), the
-- tokens of jsonwebtoken (`Jwt`), `toLowerCase`, `toUpperCase` and the time zones of `Intl`, the
-- bank (`Tbank`, `init`), the conversion `Number` of texts, arrays and
-- objects (`to_number`), and the floating-point product of a price and its rounding (`round_rubles`).
-- Where the code catches an error of the reward service within an open transaction
-- (`attempt_within`), a refused reward is passed over as in the code. A broken unique column is not:
-- PostgreSQL refuses each later statement of the transaction and rolls back instead of the commit, so
-- the model throws it on, also where no later statement is left and the commit itself is rolled back.
--
-- Not modelled: the rows of profiles and settings that a new user gets, the sign-in through other
-- providers and the shortcuts for developers and tests, `confirmApplePurchase`, receipts and
-- addresses of the payment form, the catalog screens of the administrator, and all other services,
-- servers, workers and clients of the repository, which mostly read, write and present rows.
pub mod Common
pub mod Calendar
pub mod Catalog
pub mod Drops
pub mod Tests
pub mod Tokens
pub mod Subscription
pub mod Payments
pub mod Auth
pub mod Evening
pub mod Offers
pub mod Dating
