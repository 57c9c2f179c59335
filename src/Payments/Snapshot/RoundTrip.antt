-- ===== src/Payments/Snapshot/RoundTrip.antt =====
-- What a snapshot of a product gives back when the order is confirmed.
use frendly.Common.{ℕ, zero, suc, ◌<◌, false, none, some, ◌≡◌, refl, arith}
use frendly.Common.Int.{pos}
use frendly.Common.Text.{is_empty}
use frendly.Catalog.{SubscriptionProduct}
use frendly.Payments.Tables.{Number, Json}
use frendly.Payments.Snapshot.{
  DiscountedPack, token_pack_snapshot, checkout_bundle_snapshot, parse_token_pack_snapshot,
  parse_checkout_bundle_snapshot, is_positive,
}

module _ (to_number : Json → Number) where
  -- The snapshot of a pack with an id and some tokens is read back as the pack's id, tokens and bonus,
  -- whatever its discount.
  pub parse_token_pack_snapshot-token_pack_snapshot :
      (p : DiscountedPack)
      → is_empty p.pack.id ≡ false
      → 0 < p.pack.tokens
      → parse_token_pack_snapshot to_number (some (token_pack_snapshot p))
        ≡ some (record { pack_id = p.pack.id; tokens = p.pack.tokens; bonus = p.pack.bonus })
  unfolding parse_token_pack_snapshot token_pack_snapshot
  parse_token_pack_snapshot-token_pack_snapshot p named some_tokens =
      rw (positive p.pack.tokens some_tokens, named)
    where
      positive : (n : ℕ) → 0 < n → is_positive (Number.integer (pos n)) ≡ some n
      positive zero h = ground arith
      positive (suc n) h = refl

  -- The snapshot of a bundle with a pack that has an id and some tokens is read back as a bundle
  -- with that pack, and the snapshot of one without a pack as a bundle without.
  pub parse_checkout_bundle_snapshot-checkout_bundle_snapshot :
      (subscription : SubscriptionProduct) (p : DiscountedPack)
      → is_empty p.pack.id ≡ false
      → 0 < p.pack.tokens
      → (parse_checkout_bundle_snapshot to_number
            (some (checkout_bundle_snapshot subscription (some p)))
          ≡ some
              (some (record { pack_id = p.pack.id; tokens = p.pack.tokens; bonus = p.pack.bonus })))
        × (parse_checkout_bundle_snapshot to_number
              (some (checkout_bundle_snapshot subscription none))
            ≡ some none)
  unfolding parse_checkout_bundle_snapshot checkout_bundle_snapshot parse_token_pack_snapshot
  parse_checkout_bundle_snapshot-checkout_bundle_snapshot subscription p named some_tokens =
      (rw (parse_token_pack_snapshot-token_pack_snapshot p named some_tokens), refl)
