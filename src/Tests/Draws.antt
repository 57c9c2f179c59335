-- ===== src/Tests/Draws.antt =====
-- The draw of a drop at concrete inputs.
use frendly.Common.{
  ℕ, none, some, List, [], ◌∷◌, ◌≡◌, ◌≢◌, ◌<◌, ◌+◌, ◌*◌, ◌%◌, refl, arith, max, length,
}
use frendly.Common.Action.{ok}
use frendly.Common.Sort
use frendly.Common.Sort.{IsSortedBy}
use mathlib.Core.List.{Perm}
use frendly.Drops.Tables.{
  RewardSource, TicketStatus, DropStatus, DropTicket, Drop, DrawTicket, DropWinner, Drops,
}
use frendly.Drops.Draw.{
  or_else, normalize_positive_int, reserve_count, prize_list, entered_tickets,
  order_tickets_for_draw, winner_row, winner_rows, run_draw,
}
use frendly.Drops.Ends.{Ends}
use frendly.Drops.Order.{IsDrawOrder, order_tickets_for_draw_lem}
use frendly.Drops.Outcome.{Decided, winner_rows-places, run_draw-Decided}
use frendly.Tests.Rewards.{no_drops, drops_tx}

abbrev seed_hash_of : ℕ → ℕ
seed_hash_of seed = seed + 1

abbrev ticket_hash : ℕ → ℕ → ℕ → ℕ → ℕ
ticket_hash seed drop code id = (seed + code * 7 + id) % 5

abbrev ticket_of : ℕ → ℕ → DropTicket
ticket_of id user = record {
  id = id;
  code = id * 3;
  user_id = user;
  drop_id = some 9;
  reward_event_id = id;
  source = RewardSource.boost;
  month_key = record { year = 55; month = 10 };
  status = TicketStatus.active;
  assigned_at = some 5;
  cancelled_at = none;
  cancel_reason = none;
  created_at = 4;
}

abbrev a_drop : DropStatus → Drop
a_drop status = record {
  id = 9;
  status = status;
  prizes = some ("a ticket" ∷ []);
  seed_hash = none;
  secret_seed = none;
  seed_revealed_at = none;
}

abbrev open_drops : Drops
open_drops = record no_drops {
  tickets = ticket_of 1 7 ∷ ticket_of 2 7 ∷ ticket_of 3 8 ∷ [];
  drops = a_drop DropStatus.active ∷ [];
}

abbrev closed_drops : Drops
closed_drops = record open_drops { drops = a_drop DropStatus.finished ∷ [] }

abbrev two_tickets : List DrawTicket
two_tickets =
    record { id = 1; code = 3; user_id = 7 } ∷ record { id = 2; code = 6; user_id = 8 } ∷ []

order_tickets_for_draw_lem_example :
    let ordered = order_tickets_for_draw seed_hash_of ticket_hash 5 9 two_tickets in
    Perm ordered two_tickets × IsDrawOrder seed_hash_of ticket_hash 5 9 ordered
order_tickets_for_draw_lem_example =
    order_tickets_for_draw_lem seed_hash_of ticket_hash 5 9 two_tickets

abbrev place : ℕ → DrawTicket → DropWinner
place i t = winner_row seed_hash_of ticket_hash 9 [] 2 i t

winner_rows-places_example :
    (place 0 (record { id = 1; code = 3; user_id = 7 })).position
    ≢ (place 1 (record { id = 2; code = 6; user_id = 8 })).position
unfolding winner_rows
winner_rows-places_example =
    winner_rows-places seed_hash_of ticket_hash 9 [] 2 0 1 two_tickets
      (place 0 (record { id = 1; code = 3; user_id = 7 }))
      (place 1 (record { id = 2; code = 6; user_id = 8 })) refl refl (λ e. ground arith) refl

three_entered : 0 < length (entered_tickets 9 open_drops)
unfolding entered_tickets Sort.sort_by Sort.place
three_entered = omega arith

run_draw-Decided_example :
    let r = run_draw seed_hash_of ticket_hash drops_tx 9 none none 6 open_drops in
    (r.0 ≡ ok tt)
    × Decided seed_hash_of ticket_hash 9
        (prize_list (a_drop DropStatus.active))
        (or_else none (open_drops.random open_drops.drawn))
        (normalize_positive_int none (max 1 (length (prize_list (a_drop DropStatus.active)))))
        (reserve_count none)
        6
        (order_tickets_for_draw seed_hash_of ticket_hash
          (or_else none (open_drops.random open_drops.drawn))
          9
          (entered_tickets 9 open_drops))
        (a_drop DropStatus.active)
        open_drops
        r.1
run_draw-Decided_example =
    run_draw-Decided seed_hash_of ticket_hash drops_tx 9 none none 6 open_drops
      (a_drop DropStatus.active) refl refl three_entered
