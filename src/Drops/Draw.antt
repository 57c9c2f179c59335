-- ===== src/Drops/Draw.antt =====
-- `DropsDrawService` (backend/apps/api/src/services/drops-draw.service.ts): `activateDrop`,
-- `orderTicketsForDraw` and `runDraw`. The hashes are parameters: SHA-256 of the seed, and of the seed
-- with the drop, code and ticket, as the numbers that their hexadecimal digits write; digests have
-- one length, so comparing the texts compares the numbers.
use frendly.Common.{
  ℕ, zero, suc, ◌+◌, ◌-◌, ltb, leb, ◌==◌, Bool, true, false, not, ◌&&◌, ◌||◌, String, Option, none,
  some, List, [], ◌∷◌, ◌++◌, map, if◌then◌else◌, keep, find, change, change_first, count, length,
  take, max,
}
use frendly.Common.Int.{ℤ, pos, negsuc}
use frendly.Common.Action.{
  Action, ApiError, ok, gets, or_raise, ◌>>=◌, ◌>>◌, raise_if, modify, Transaction,
}
use frendly.Common.Sort.{sort_by}
use frendly.Drops.Tables.{
  DropStatus, TicketStatus, DropTicket, Drop, DrawTicket, DropDrawSnapshot, DropWinner, Drops,
  is_active,
}
use frendly.Drops.Grant.{take_back}
use frendly.Drops.Claims.{distinct}

abbrev pub can_activate : DropStatus → Bool
can_activate DropStatus.draft = true
can_activate DropStatus.scheduled = true
can_activate _ = false

abbrev pub can_draw : DropStatus → Bool
can_draw DropStatus.active = true
can_draw DropStatus.drawing_pending = true
can_draw _ = false

-- `a ?? b`
abbrev pub or_else : {A : Type 0} → Option A → A → A
or_else none b = b
or_else (some a) b = a

-- `options.winnerCount`: `none` if it is missing or not finite, and otherwise its integer part.
unfoldable pub normalize_positive_int : Option ℤ → ℕ → ℕ
normalize_positive_int none fallback = fallback
normalize_positive_int (some (negsuc n)) fallback = fallback
normalize_positive_int (some (pos n)) fallback = if ltb n 1 then fallback else n

-- `Math.max(0, Math.trunc(options.reserveCount ?? 0))`, of a finite number.
unfoldable pub reserve_count : Option ℤ → ℕ
reserve_count (some (pos n)) = n
reserve_count _ = 0

abbrev pub prize_list : Drop → List String
prize_list d = or_else d.prizes []

abbrev pub prize_at : List String → ℕ → Option String
prize_at [] i = none
prize_at (p ∷ ps) zero = some p
prize_at (p ∷ ps) (suc i) = prize_at ps i

abbrev pub is_assigned : ℕ → Option ℕ → Bool
is_assigned drop none = false
is_assigned drop (some d) = d == drop

-- `where: { dropId, status: 'active' }`
abbrev pub is_entered : ℕ → DropTicket → Bool
is_entered drop t = is_assigned drop t.drop_id && is_active t.status

abbrev pub to_draw_ticket : DropTicket → DrawTicket
to_draw_ticket t = record { id = t.id; code = t.code; user_id = t.user_id }

-- `orderBy: [{ createdAt: 'asc' }, { id: 'asc' }]`
abbrev pub by_creation : DropTicket → DropTicket → Bool
by_creation a b = ltb a.created_at b.created_at || a.created_at == b.created_at && leb a.id b.id

unfoldable pub entered_tickets : ℕ → Drops → List DrawTicket
entered_tickets drop s = map to_draw_ticket (sort_by by_creation (keep (is_entered drop) s.tickets))

module _ (hash_seed : ℕ → ℕ) (ticket_draw_hash : ℕ → ℕ → ℕ → ℕ → ℕ) where
  -- The comparator of `orderTicketsForDraw`: the hash, and then the id.
  unfoldable pub draws_before : ℕ → ℕ → DrawTicket → DrawTicket → Bool
  draws_before seed drop a b =
      let l = ticket_draw_hash seed drop a.code a.id in
      let r = ticket_draw_hash seed drop b.code b.id in ltb l r || l == r && leb a.id b.id

  unfoldable pub order_tickets_for_draw : ℕ → ℕ → List DrawTicket → List DrawTicket
  order_tickets_for_draw seed drop tickets = sort_by (draws_before seed drop) tickets

  -- `drop.secretSeed ?? randomBytes(32)`
  unfoldable pub secret_seed_of : Drop → Action Drops ℕ
  secret_seed_of d s = (
    ok (or_else d.secret_seed (s.random s.drawn)),
    record s { drawn = elim d.secret_seed [ some _ ↦ s.drawn | none ↦ suc s.drawn ] },
  )

  unfoldable pub update_drop : ℕ → (Drop → Drop) → Action Drops (Unit {0})
  update_drop id f = modify (λ s. record s { drops = change_first (λ d. d.id == id) f s.drops })

  unfoldable pub activate_drop : ℕ → Action Drops (Unit {0})
  unfolding update_drop secret_seed_of
  activate_drop drop_id = do
    found ← gets (λ s. find (λ d. d.id == drop_id) s.drops)
    drop ← or_raise found ApiError.drop_not_found
    raise_if (not (can_activate drop.status)) ApiError.drop_status_invalid
    seed ← secret_seed_of drop
    update_drop drop.id (λ d. record d {
      status = DropStatus.active;
      secret_seed = some seed;
      seed_hash = some (or_else drop.seed_hash (hash_seed seed));
    })

  abbrev pub winner_row : ℕ → List String → ℕ → ℕ → DrawTicket → DropWinner
  winner_row drop prizes winner_count index t =
      let reserve = leb winner_count index in
      record {
        drop_id = drop;
        user_id = t.user_id;
        ticket_id = t.id;
        position = if reserve then index - winner_count + 1 else index + 1;
        reserve = reserve;
        prize = prize_at prizes index;
      }

  -- The rows of the loop over `selected.entries()`. Their unique columns are not checked here: the rows
  -- of the drop were deleted before, and a ticket is entered in one drop.
  unfoldable pub winner_rows : ℕ → List String → ℕ → ℕ → List DrawTicket → List DropWinner
  winner_rows drop prizes winner_count index [] = []
  winner_rows drop prizes winner_count index (t ∷ ts) =
      winner_row drop prizes winner_count index t
      ∷ winner_rows drop prizes winner_count (suc index) ts

  unfoldable pub take_snapshot : ℕ → ℕ → ℕ → List DrawTicket → Drops → List DropDrawSnapshot
  take_snapshot drop seed seed_hash tickets s =
      let row : DropDrawSnapshot = record {
        drop_id = drop;
        seed_hash = seed_hash;
        secret_seed = seed;
        ticket_count = length tickets;
        participant_count = length (distinct (map (λ t. t.user_id) tickets));
        tickets = tickets;
      } in
      elim (find (λ r. r.drop_id == drop) s.snapshots) [
        | none ↦ s.snapshots ++ (row ∷ [])
        | some _ ↦ change_first (λ r. r.drop_id == drop) (λ _. row) s.snapshots
      ]

  abbrev pub with_status : TicketStatus → DropTicket → DropTicket
  with_status status t = record t { status = status }

  -- `id: { in: … }`
  abbrev pub is_among : List DrawTicket → DropTicket → Bool
  is_among won t = ltb 0 (count (λ w. w.id == t.id) won)

  -- The writes of `runDraw`, once the tickets are ordered.
  unfoldable pub write_draw :
      ℕ
      → List String
      → ℕ
      → ℕ
      → ℕ
      → ℕ
      → ℕ
      → List DrawTicket
      → List DrawTicket
      → Action Drops (Unit {0})
  unfolding update_drop take_snapshot
  write_draw drop prizes seed seed_hash winner_count reserves now tickets ordered = do
    let selected = take (winner_count + reserves) ordered
    update_drop drop (λ d. record d {
      status = DropStatus.drawing_pending;
      secret_seed = some seed;
      seed_hash = some seed_hash;
    })
    modify (λ s. record s { snapshots = take_snapshot drop seed seed_hash tickets s })
    modify (λ s. record s {
      tickets = change (is_entered drop) (with_status TicketStatus.used_in_draw) s.tickets;
    })
    modify (λ s. record s { winners = keep (λ w. not (w.drop_id == drop)) s.winners })
    modify
        (λ s. record s { winners = s.winners ++ winner_rows drop prizes winner_count 0 selected })
    modify (λ s. record s {
      tickets =
          change (is_among (take winner_count selected)) (with_status TicketStatus.winner)
            s.tickets;
    })
    update_drop drop (λ d. record d { status = DropStatus.finished; seed_revealed_at = some now })

  unfoldable pub run_draw_in_transaction : ℕ → Option ℤ → Option ℤ → ℕ → Action Drops (Unit {0})
  run_draw_in_transaction drop_id winner_option reserve_option now = do
    found ← gets (λ s. find (λ d. d.id == drop_id) s.drops)
    drop ← or_raise found ApiError.drop_not_found
    raise_if (not (can_draw drop.status)) ApiError.drop_status_invalid
    seed ← secret_seed_of drop
    tickets ← gets (entered_tickets drop_id)
    raise_if (length tickets == 0) ApiError.drop_has_no_tickets
    let prizes = prize_list drop
    write_draw drop_id prizes seed (or_else drop.seed_hash (hash_seed seed))
        (normalize_positive_int winner_option (max 1 (length prizes)))
        (reserve_count reserve_option) now tickets (order_tickets_for_draw seed drop_id tickets)

  -- `runDraw`
  unfoldable pub run_draw :
      Transaction Drops take_back → ℕ → Option ℤ → Option ℤ → ℕ → Action Drops (Unit {0})
  run_draw tx drop_id winner_option reserve_option now =
      tx.run (Unit {0}) (run_draw_in_transaction drop_id winner_option reserve_option now)
