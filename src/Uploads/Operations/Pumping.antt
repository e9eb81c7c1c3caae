-- ===== src/Uploads/Operations/Pumping.antt =====
-- `pump` leaves no place free while an item could start.
use file_harbor.Base.{ℕ, zero, suc, ◌+◌, ◌-◌, ◌≤◌, ◌≡◌, ◌⊎◌, inl, inr, none, arith, Option-cases}
use file_harbor.Uploads.Queue.{Queue, max_workers}
use file_harbor.Uploads.Run.{run_start}
use file_harbor.Uploads.Operations.{pump_from, pump, next_waiting}
use file_harbor.Uploads.Frame.Runs.{run_start-Frame}

pump_from_full :
    (free : ℕ) (q : Queue)
    → (((pump_from free q).0).active ≡ q.active + free) ⊎ (next_waiting (pump_from free q).0 ≡ none)
unfolding pump_from
pump_from_full zero q = inl (omega arith)
pump_from_full (suc free) q = elim (Option-cases (next_waiting q)) [
  | inl e ↦ rw (e, pump_from) (inr e)
  | inr (ref, e) ↦
      rw (e, pump_from)
        (let f = run_start-Frame (record q { active = q.active + 1 }) ref in
          elim (pump_from_full free (run_start (record q { active = q.active + 1 }) ref).0) [
            | inl full ↦ inl (omega (arith, full, f.active))
            | inr idle ↦ inr idle
          ])
]

-- After `pump`, if at most two places were taken before, either both places are taken or no item
-- waits with its file.
pub pump_full :
    (q : Queue)
    → q.active ≤ max_workers
    → (((pump q).0).active ≡ max_workers) ⊎ (next_waiting (pump q).0 ≡ none)
unfolding pump
pump_full q h = elim (pump_from_full (max_workers - q.active) q) [
  | inl full ↦ inl (omega (arith, full))
  | inr idle ↦ inr idle
]
