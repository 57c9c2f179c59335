-- ===== src/Drops/Ends.antt =====
-- How a draw ends, on every branch of `runDraw` (backend/apps/api/src/services/drops-draw.service.ts).
use frendly.Common.{ℕ, ◌<◌, ◌==◌, none, some, find, length, ◌≡◌, ◌⊎◌}
use frendly.Common.Action.{ApiError, Result, ok, err}
use frendly.Drops.Tables.{DropStatus, Drop, Drops}
use frendly.Drops.Draw.{entered_tickets}

-- A drop may be drawn while it is active, or where a draw of it was begun.
abbrev pub IsOpen : DropStatus → Type 0
IsOpen status = (status ≡ DropStatus.active) ⊎ (status ≡ DropStatus.drawing_pending)

pub record SameTables (s s' : Drops) : Type 0 where
  pub drops : s'.drops ≡ s.drops
  pub tickets : s'.tickets ≡ s.tickets
  pub winners : s'.winners ≡ s.winners
  pub snapshots : s'.snapshots ≡ s.snapshots
  pub rewards : s'.rewards ≡ s.rewards

-- The four ends of a draw.
pub data Ends (drop : ℕ) (s : Drops) : Result (Unit {0}) × Drops → Type 0 where
  missing :
      (t : Drops)
      → find (λ r. r.id == drop) s.drops ≡ none
      → SameTables s t
      → Ends drop s (err ApiError.drop_not_found, t)
  closed :
      (t : Drops) (d : Drop)
      → find (λ r. r.id == drop) s.drops ≡ some d
      → (IsOpen d.status → ⊥)
      → SameTables s t
      → Ends drop s (err ApiError.drop_status_invalid, t)
  empty :
      (t : Drops) (d : Drop)
      → find (λ r. r.id == drop) s.drops ≡ some d
      → IsOpen d.status
      → length (entered_tickets drop s) ≡ 0
      → SameTables s t
      → Ends drop s (err ApiError.drop_has_no_tickets, t)
  drawn :
      (t : Drops) (d : Drop)
      → find (λ r. r.id == drop) s.drops ≡ some d
      → IsOpen d.status
      → 0 < length (entered_tickets drop s)
      → Ends drop s (ok tt, t)
