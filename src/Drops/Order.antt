-- ===== src/Drops/Order.antt =====
-- The order of a draw: `orderTicketsForDraw` (backend/apps/api/src/services/drops-draw.service.ts).
use mathlib.Core.List.{Perm}
use frendly.Common.{
  ℕ, ◌<◌, true, List, [], ◌∷◌, ◌≡◌, ◌⊎◌, arith, ◌≤◌, ltb, All, All-mono, Bool-cases, inl, inr,
}
use frendly.Common.Sort.{IsSortedBy, sort_by-perm, sort_by-IsSortedBy}
use frendly.Drops.Tables.{DrawTicket}
use frendly.Drops.Draw.{draws_before, order_tickets_for_draw}

module _ (hash_seed : ℕ → ℕ) (ticket_draw_hash : ℕ → ℕ → ℕ → ℕ → ℕ) where
  before-total :
      (seed drop : ℕ) (a b : DrawTicket)
      → (draws_before hash_seed ticket_draw_hash seed drop a b ≡ true)
        ⊎ (draws_before hash_seed ticket_draw_hash seed drop b a ≡ true)
  unfolding draws_before
  before-total seed drop a b = ground arith

  before_trans :
      (seed drop : ℕ) (a b c : DrawTicket)
      → draws_before hash_seed ticket_draw_hash seed drop a b ≡ true
      → draws_before hash_seed ticket_draw_hash seed drop b c ≡ true
      → draws_before hash_seed ticket_draw_hash seed drop a c ≡ true
  unfolding draws_before
  before_trans seed drop a b c h k = ground arith

  -- Which ticket may stand before another: the one with the smaller hash, and of two with one hash the
  -- one whose id is not larger.
  abbrev pub InDrawOrder : ℕ → ℕ → DrawTicket → DrawTicket → Type 0
  InDrawOrder seed drop a b =
      (ticket_draw_hash seed drop a.code a.id < ticket_draw_hash seed drop b.code b.id)
      ⊎ (ticket_draw_hash seed drop a.code a.id ≡ ticket_draw_hash seed drop b.code b.id)
        × (a.id ≤ b.id)

  abbrev pub IsDrawOrder : ℕ → ℕ → List DrawTicket → Type 0
  IsDrawOrder seed drop [] = Unit
  IsDrawOrder seed drop (t ∷ ts) = All (InDrawOrder seed drop t) ts × IsDrawOrder seed drop ts

  before-InDrawOrder :
      (seed drop : ℕ) (a b : DrawTicket)
      → draws_before hash_seed ticket_draw_hash seed drop a b ≡ true
      → InDrawOrder seed drop a b
  unfolding draws_before
  before-InDrawOrder seed drop a b h =
      elim (Bool-cases
        (ltb (ticket_draw_hash seed drop a.code a.id) (ticket_draw_hash seed drop b.code b.id))) [
          | inl less ↦ inl (ground (arith, less))
          | inr other ↦ inr (ground (arith, h, other), ground (arith, h, other))
        ]

  sorted-IsDrawOrder :
      (seed drop : ℕ) (ts : List DrawTicket)
      → IsSortedBy (draws_before hash_seed ticket_draw_hash seed drop) ts
      → IsDrawOrder seed drop ts
  sorted-IsDrawOrder seed drop [] h = tt
  sorted-IsDrawOrder seed drop (t ∷ ts) h = (
    All-mono _ _ ts (λ b. before-InDrawOrder seed drop t b) h.0,
    sorted-IsDrawOrder seed drop ts h.1,
  )

  -- The draw orders the tickets that it is given, each exactly as often as it was given: a ticket stands
  -- before all that have a larger hash, and before those that have the same hash and a larger id.
  pub order_tickets_for_draw_lem :
      (seed drop : ℕ) (tickets : List DrawTicket)
      → let ordered = order_tickets_for_draw hash_seed ticket_draw_hash seed drop tickets in
        Perm ordered tickets × IsDrawOrder seed drop ordered
  unfolding order_tickets_for_draw
  order_tickets_for_draw_lem seed drop tickets = (
    sort_by-perm (draws_before hash_seed ticket_draw_hash seed drop) tickets,
    sorted-IsDrawOrder seed drop _ (
        sort_by-IsSortedBy (draws_before hash_seed ticket_draw_hash seed drop)
          (before-total seed drop) (before_trans seed drop) tickets),
  )
