-- ===== src/Coordinator/Plans/Claims.antt =====
-- The claims of many workers on one plan, as turns in any order.
use privadex.Prelude.{ℕ, ◌+◌, ◌≡◌, ◌≢◌, ◌≤◌, ◌<◌, true, List, [], ◌∷◌, some, nat_eq, All}
use privadex.Prelude.Maps.{get, remove}
use privadex.Common.Ratio.{u64_mod}
use mathlib.Core.List.{Memᴰ}
use mathlib.Core.List.Memᴰ
use privadex.Coordinator.Plans.{
  PlanRow, allocate_execplan_request, unallocate_execplan_request,
  remove_completed_execplan_request,
}

-- The row, the time, and the workers that work on the plan: each is known by the time of its call,
-- which all its requests carry.
pub record Shared : Type 0 where
  pub row : PlanRow
  pub now : ℕ
  pub workers : List ℕ

module _ (plan : ℕ) where
  -- One turn. A request that is refused or lost on its way there changes nothing; one whose answer is
  -- lost is applied. start_swap registers a plan (register_exec_plan), which frees it whoever has it.
  pub data Turn (s : Shared) : Shared → Type 0 where
    wait : (t : ℕ) → s.now ≤ t → t < u64_mod → Turn s (record s { now = t })
    claim :
        (allocate_execplan_request plan s.now).condition s.row ≡ true
        → Turn s (record s {
          row = (allocate_execplan_request plan s.now).update s.row;
          workers = s.now ∷ s.workers;
        })
    claim_unanswered :
        (allocate_execplan_request plan s.now).condition s.row ≡ true
        → Turn s (record s { row = (allocate_execplan_request plan s.now).update s.row })
    leave :
        (start : ℕ) → Memᴰ start s.workers → Turn s (record s { workers = remove start s.workers })
    register :
        (time : ℕ)
        → Turn s (record s { row = (unallocate_execplan_request plan time).update s.row })
    release :
        (start : ℕ)
        → Memᴰ start s.workers
        → Turn s (record s {
          row = (unallocate_execplan_request plan start).update s.row;
          workers = remove start s.workers;
        })
    complete :
        (start : ℕ)
        → Memᴰ start s.workers
        → Turn s (record s {
          row = (remove_completed_execplan_request plan).update s.row;
          workers = remove start s.workers;
        })
    allocate_other :
        (other time : ℕ)
        → other ≢ plan
        → Turn s (record s { row = (allocate_execplan_request other time).update s.row })
    unallocate_other :
        (other time : ℕ)
        → other ≢ plan
        → Turn s (record s { row = (unallocate_execplan_request other time).update s.row })
    remove_other :
        (other : ℕ)
        → other ≢ plan
        → Turn s (record s { row = (remove_completed_execplan_request other).update s.row })

  pub data Turns (s : Shared) : Shared → Type 0 where
    none_yet : Turns s s
    next : {t u : Shared} → Turns s t → Turn t u → Turns s u

  -- The worker at work on the plan is done within a minute of its claim, and the plan is registered only
  -- while no worker is.
  abbrev pub IsInTime : {s t : Shared} → Turn s t → Type 0
  IsInTime {s = s} (wait t later small) = All (λ start. t ≤ start + 60_000) s.workers
  IsInTime {s = s} (register time) = s.workers ≡ []
  IsInTime _ = Unit

  abbrev pub AreInTime : {s t : Shared} → Turns s t → Type 0
  AreInTime none_yet = Unit
  AreInTime (next turns turn) = AreInTime turns × IsInTime turn

  -- The row says of the worker on the plan that it has the plan, and since when.
  abbrev Held : PlanRow → ℕ → Type 0
  Held row since =
      (get plan row.worker_is_allocated ≡ some true)
      × (get plan row.worker_assignment_update_epoch_millis ≡ some since)

  abbrev Alone : PlanRow → ℕ → List ℕ → Type 0
  Alone row now [] = Unit
  Alone row now (since ∷ []) = Held row since × (since ≤ now) × (now ≤ since + 60_000)
  Alone row now (_ ∷ _ ∷ _) = ⊥

  abbrev IsExclusive : Shared → Type 0
  IsExclusive s = Alone s.row s.now s.workers × (60_000 ≤ s.now) × (s.now < u64_mod)
