-- ===== src/Drops/Outcome.antt =====
-- What a draw decides (backend/apps/api/src/services/drops-draw.service.ts).
use mathlib.Core.List.{append-nil}
use frendly.Common.{
  ℕ, zero, suc, ◌+◌, ◌<◌, ◌==◌, Bool, true, false, not, Option, none, some, List, [], ◌∷◌, ◌≡◌, ◌≢◌,
  refl, arith, keep, find, length, take, max, String, change_first, find-change_first, find-passes,
  keep-append, keep-keep_none, keep-keep_self, subst, sym, ap, ◌∙◌, ◌≤◌,
}
use frendly.Common.Int.{ℤ}
use frendly.Common.Action.{Result, ok, Transaction, settle, settle_ok}
use frendly.Drops.Tables.{DropStatus, Drop, DrawTicket, DropWinner, Drops}
use frendly.Drops.Grant.{take_back}
use frendly.Drops.Draw.{
  can_draw, or_else, normalize_positive_int, reserve_count, prize_list, prize_at, entered_tickets,
  order_tickets_for_draw, secret_seed_of, winner_row, winner_rows, write_draw,
  run_draw_in_transaction, run_draw,
}

abbrev get_elem? : {A : Type 0} → List A → ℕ → Option A
get_elem? [] i = none
get_elem? (x ∷ xs) zero = some x
get_elem? (x ∷ xs) (suc i) = get_elem? xs i

module _ (hash_seed : ℕ → ℕ) (ticket_draw_hash : ℕ → ℕ → ℕ → ℕ → ℕ) where
  length-winner_rows :
      (drop : ℕ) (prizes : List String) (n i : ℕ) (ts : List DrawTicket)
      → length (winner_rows hash_seed ticket_draw_hash drop prizes n i ts) ≡ length ts
  unfolding winner_rows
  length-winner_rows drop prizes n i [] = refl
  length-winner_rows drop prizes n i (t ∷ ts) = ap suc (length-winner_rows drop prizes n (suc i) ts)

  -- The row at an index is that of the index and the ticket there.
  winner_rows-at :
      (drop : ℕ) (prizes : List String) (n i k : ℕ) (ts : List DrawTicket) (w : DropWinner)
      → get_elem? (winner_rows hash_seed ticket_draw_hash drop prizes n i ts) k ≡ some w
      → (t : DrawTicket) × (w ≡ winner_row hash_seed ticket_draw_hash drop prizes n (i + k) t)
        × (get_elem? ts k ≡ some t)
  unfolding winner_rows
  winner_rows-at drop prizes n i k [] w h = absurd (cc)
  winner_rows-at drop prizes n i zero (t ∷ ts) w h = (t, ground arith, refl)
  winner_rows-at drop prizes n i (suc k) (t ∷ ts) w h =
      let (u, e, g) = winner_rows-at drop prizes n (suc i) k ts w h in
      let same : suc i + k ≡ i + suc k = omega arith in (u, rw same at e, g)

  -- No two winners of a draw share a place: two rows differ in position or in being a reserve.
  pub winner_rows-places :
      (drop : ℕ) (prizes : List String) (n i j : ℕ) (selected : List DrawTicket) (v w : DropWinner)
      → get_elem? (winner_rows hash_seed ticket_draw_hash drop prizes n 0 selected) i ≡ some v
      → get_elem? (winner_rows hash_seed ticket_draw_hash drop prizes n 0 selected) j ≡ some w
      → i ≢ j
      → v.reserve ≡ w.reserve
      → v.position ≢ w.position
  winner_rows-places drop prizes n i j selected v w hv hw ne same =
      let (t, ev, _) = winner_rows-at drop prizes n 0 i selected v hv in
      let (u, ew, _) = winner_rows-at drop prizes n 0 j selected w hw in ground arith

  keep-winner_rows :
      (drop : ℕ) (prizes : List String) (n i : ℕ) (ts : List DrawTicket)
      → let rows = winner_rows hash_seed ticket_draw_hash drop prizes n i ts in
        (keep (λ w. w.drop_id == drop) rows ≡ rows)
        × (keep (λ w. not (w.drop_id == drop)) rows ≡ [])
  unfolding winner_rows
  keep-winner_rows drop prizes n i [] = (refl, refl)
  keep-winner_rows drop prizes n i (t ∷ ts) =
      ground (arith, keep-winner_rows drop prizes n (suc i) ts)

  abbrev winners_of : ℕ → Drops → List DropWinner
  winners_of drop s = keep (λ w. w.drop_id == drop) s.winners

  abbrev other_winners : ℕ → Drops → List DropWinner
  other_winners drop s = keep (λ w. not (w.drop_id == drop)) s.winners

  -- The place of the ticket at an index among `n` winners and the reserves behind them.
  pub record IsPlace (drop : ℕ) (prizes : List String) (n i : ℕ) (t : DrawTicket) (w : DropWinner)
      : Type 0 where
    pub of_drop : w.drop_id ≡ drop
    pub ticket : w.ticket_id ≡ t.id
    pub user : w.user_id ≡ t.user_id
    pub main : i < n → (w.reserve ≡ false) × (w.position ≡ suc i)
    pub reserve : n ≤ i → (w.reserve ≡ true) × (n + w.position ≡ suc i)
    pub prize : w.prize ≡ get_elem? prizes i

  -- One row for each ticket, from an index on.
  abbrev pub ArePlaces : ℕ → List String → ℕ → ℕ → List DrawTicket → List DropWinner → Type 0
  ArePlaces drop prizes n i [] [] = Unit
  ArePlaces drop prizes n i (t ∷ ts) (w ∷ ws) =
      IsPlace drop prizes n i t w × ArePlaces drop prizes n (suc i) ts ws
  ArePlaces drop prizes n i [] (w ∷ ws) = ⊥
  ArePlaces drop prizes n i (t ∷ ts) [] = ⊥

  prize_at-get_elem : (prizes : List String) (i : ℕ) → prize_at prizes i ≡ get_elem? prizes i
  prize_at-get_elem [] i = refl
  prize_at-get_elem (p ∷ ps) zero = refl
  prize_at-get_elem (p ∷ ps) (suc i) = prize_at-get_elem ps i

  winner_rows-ArePlaces :
      (drop : ℕ) (prizes : List String) (n i : ℕ) (ts : List DrawTicket)
      → ArePlaces drop prizes n i ts (winner_rows hash_seed ticket_draw_hash drop prizes n i ts)
  unfolding winner_rows
  winner_rows-ArePlaces drop prizes n i [] = tt
  winner_rows-ArePlaces drop prizes n i (t ∷ ts) = (
    record {
      of_drop = refl;
      ticket = refl;
      user = refl;
      main = λ h. ground (arith, h);
      reserve = λ h. ground (arith, h);
      prize = prize_at-get_elem prizes i;
    },
    winner_rows-ArePlaces drop prizes n (suc i) ts,
  )

  -- What `runDraw` decides of a drop, beside its tickets.
  pub record Decided (drop : ℕ) (prizes : List String) (seed n m now : ℕ)
      (ordered : List DrawTicket) (d : Drop) (s s' : Drops) : Type 0 where
    pub finished :
        (d' : Drop) × (find (λ r. r.id == drop) s'.drops ≡ some d')
        × (d'.status ≡ DropStatus.finished)
        × (d'.secret_seed ≡ some seed)
        × (d'.seed_revealed_at ≡ some now)
    pub winners : ArePlaces drop prizes n 0 (take (n + m) ordered) (winners_of drop s')
    pub others : other_winners drop s' ≡ other_winners drop s
    pub rewards : s'.rewards ≡ s.rewards

  write_draw-Decided :
      (drop : ℕ) (prizes : List String) (seed seed_hash n m now : ℕ)
      (tickets ordered : List DrawTicket) (s : Drops) (d : Drop)
      → find (λ r. r.id == drop) s.drops ≡ some d
      → let r =
          write_draw hash_seed ticket_draw_hash drop prizes seed seed_hash n m now tickets ordered
            s in
        (r.0 ≡ ok tt) × Decided drop prizes seed n m now ordered d s r.1
  unfolding write_draw
  write_draw-Decided drop prizes seed seed_hash n m now tickets ordered s d found = (
    refl,
    record {
      finished = (
        record d {
          status = DropStatus.finished;
          secret_seed = some seed;
          seed_hash = some seed_hash;
          seed_revealed_at = some now;
        },
        find-change_first at_drop _ (change_first at_drop pending s.drops) (pending d)
            (find-change_first at_drop pending s.drops d found here) here,
        refl,
        refl,
        refl,
      );
      winners =
          subst (ArePlaces drop prizes n 0 (take (n + m) ordered)) (sym kept)
            (winner_rows-ArePlaces drop prizes n 0 (take (n + m) ordered));
      others =
          keep-append (λ w. not (w.drop_id == drop)) (other_winners drop s) rows
          ∙ rw ((keep-winner_rows drop prizes n 0 (take (n + m) ordered)).1, append-nil)
              (keep-keep_self (λ w. not (w.drop_id == drop)) s.winners);
      rewards = refl;
    },
  )
    where
      at_drop : Drop → Bool
      at_drop r = r.id == drop

      pending : Drop → Drop
      pending r = record r {
        status = DropStatus.drawing_pending;
        secret_seed = some seed;
        seed_hash = some seed_hash;
      }

      here : (d.id == drop) ≡ true
      here = find-passes at_drop s.drops d found

      rows : List DropWinner
      rows = winner_rows hash_seed ticket_draw_hash drop prizes n 0 (take (n + m) ordered)

      kept :
          winners_of drop
            (write_draw hash_seed ticket_draw_hash drop prizes seed seed_hash n m now tickets
              ordered s).1
          ≡ rows
      kept =
          keep-append (λ w. w.drop_id == drop) (other_winners drop s) rows
          ∙ rw
              (keep-keep_none (λ w. w.drop_id == drop) (λ w. not (w.drop_id == drop)) s.winners
                (λ w h. ground arith))
              (keep-winner_rows drop prizes n 0 (take (n + m) ordered)).0

  -- A draw of an active drop, or of one whose draw was begun, that has tickets returns: the drop
  -- is finished, and its seed is kept and revealed. Its winners are the first tickets in the draw's
  -- order, one row each with the ticket, its user and its prize: the positions of the main winners
  -- count from 1, and so do those of the reserves behind them. No other drop's winners and no rewards
  -- change.
  pub run_draw-Decided :
      (tx : Transaction Drops take_back) (drop : ℕ) (winners reserves : Option ℤ) (now : ℕ)
      (s : Drops) (d : Drop)
      → find (λ r. r.id == drop) s.drops ≡ some d
      → can_draw d.status ≡ true
      → 0 < length (entered_tickets drop s)
      → let r = run_draw hash_seed ticket_draw_hash tx drop winners reserves now s in
        let prizes = prize_list d in
        let seed = or_else d.secret_seed (s.random s.drawn) in
        (r.0 ≡ ok tt)
        × Decided drop prizes seed
            (normalize_positive_int winners (max 1 (length prizes)))
            (reserve_count reserves)
            now
            (order_tickets_for_draw hash_seed ticket_draw_hash seed drop (entered_tickets drop s))
            d
            s
            r.1
  unfolding run_draw run_draw_in_transaction entered_tickets secret_seed_of
  run_draw-Decided tx drop winners reserves now s d found opened some_tickets =
      let w =
        write_draw-Decided drop (prize_list d) seed (or_else d.seed_hash (hash_seed seed)) n
          (reserve_count reserves) now (entered_tickets drop s) ordered seeded d found in
      subst
        (λ r.
          (r.0 ≡ ok tt)
          × Decided drop (prize_list d) seed n (reserve_count reserves) now ordered d s r.1)
        (sym (
          tx.run_settles _ _ s
          ∙ (ap (settle take_back s) steps ∙ settle_ok take_back s written tt w.0)))
        (
          w.0,
          record {
            finished = w.1.finished;
            winners = w.1.winners;
            others = w.1.others;
            rewards = w.1.rewards;
          },
        )
    where
      seed : ℕ
      seed = or_else d.secret_seed (s.random s.drawn)

      n : ℕ
      n = normalize_positive_int winners (max 1 (length (prize_list d)))

      ordered : List DrawTicket
      ordered = order_tickets_for_draw hash_seed ticket_draw_hash seed drop (entered_tickets drop s)

      seeded : Drops
      seeded = (secret_seed_of hash_seed ticket_draw_hash d s).1

      written : Result (Unit {0}) × Drops
      written =
          write_draw hash_seed ticket_draw_hash drop (prize_list d) seed
            (or_else d.seed_hash (hash_seed seed)) n (reserve_count reserves) now
            (entered_tickets drop s) ordered seeded

      not_empty : (length (entered_tickets drop s) == 0) ≡ false
      not_empty = ground arith

      steps :
          run_draw_in_transaction hash_seed ticket_draw_hash drop winners reserves now s ≡ written
      steps = rw (found, run_draw_in_transaction) (rw opened (rw not_empty))
