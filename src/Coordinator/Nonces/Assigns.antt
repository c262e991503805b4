-- ===== src/Coordinator/Nonces/Assigns.antt =====
-- What get_nonce does to the row, whatever the service answers, and what it answers itself.
use privadex.Prelude.{ℕ, ◌≡◌, refl, ◌⊎◌, some, nat_eq}
use privadex.Prelude.Fallible.{Outcome, ok}
use privadex.Coordinator.Table.{
  Requests, none_yet, cold_start, next_nonce, reclaim, finalize, drop, NonceRow, NonceTable, lookup,
  reclaim_dropped_nonce_request,
}
use privadex.Coordinator.Nonces.{NonceManagerError}
use privadex.Coordinator.Nonces.Unique.{
  IsSound, IsSound-cold_start, IsSound-next_nonce, reclaim_first-IsSound, IsSound-finalized,
  IsSound-dropped,
}

pub Requests-IsSound : {row r : NonceRow} → Requests row r → IsSound row → IsSound r
unfolding reclaim_dropped_nonce_request
Requests-IsSound none_yet s = s
Requests-IsSound (cold_start {r = r} step block system_nonce b more) s =
    IsSound-cold_start step block system_nonce r b
Requests-IsSound (next_nonce {r = r} step block more) s =
    IsSound-next_nonce step block r (Requests-IsSound more s)
Requests-IsSound (reclaim {r = r} step block more) s =
    reclaim_first-IsSound step block r r.dropped_nonces refl (Requests-IsSound more s)
Requests-IsSound (finalize {r = r} step block more) s =
    IsSound-finalized step block r (Requests-IsSound more s)
Requests-IsSound (drop {r = r} step held holds more) s =
    IsSound-dropped step held r (Requests-IsSound more s) holds

module _ (t : NonceTable) where
  -- The row, and whatever a read may find, is sound.
  abbrev pub IsSoundTable : t.World → Type 0
  IsSoundTable w = IsSound (t.row w) × ((r : NonceRow) → t.Readable w r → IsSound r)

  -- A row that the table has, or that a read may still find.
  abbrev pub Known : t.World → NonceRow → Type 0
  Known w r = (r ≡ t.row w) ⊎ t.Readable w r

  -- What an attempt that answers a nonce leaves behind: a known row in which the step holds it.
  abbrev Holds : ℕ → Outcome NonceManagerError ℕ × t.World → Type 0
  Holds step x =
      (n : ℕ)
      → x.0 ≡ ok n
      → (r : NonceRow) × Known x.1 r × (lookup step r.exec_step_pending_nonce ≡ some n)
