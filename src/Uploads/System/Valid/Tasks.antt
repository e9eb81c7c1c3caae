-- ===== src/Uploads/System/Valid/Tasks.antt =====
-- One reply to one task keeps the count of workers.
use file_harbor.Base.{
  ℕ, zero, suc, ◌+◌, ◌≤◌, ◌≡◌, refl, List, [], ◌∷◌, ◌++◌, Option, none, some, Text, get_elem?, set,
  length, arith, Option-cases, inl, inr,
}
use file_harbor.Uploads.Queue.{Queue, max_workers}
use file_harbor.Uploads.Cancel.{
  CancelPoint, awaiting_promise, fetching_status, requesting_cancel, reconciling_conflict,
  cancel_done,
}
use file_harbor.Uploads.Run.{
  RunPoint, hashing_file, refreshing_status, awaiting_pending, cancelling_run, hashing_part,
  sending_part, reconciling_part, part_delay, completing, completing_delay,
}
use file_harbor.Uploads.Operations.{Started}
use file_harbor.Uploads.System.{
  Task, worker, Outcome, Reply, digest, status, sent, progress, wake, pending_of, started_tasks,
  cancel_resume, run_resume, run_cancelling, settled,
}
use file_harbor.Uploads.System.Sound.{Sound, Frame-Sound}
use file_harbor.Uploads.Frame.{Frame, Frame-refl}
use file_harbor.Uploads.Frame.Cancels
use file_harbor.Uploads.Frame.Runs

abbrev pub task_weight : Task → ℕ
task_weight (worker ref point) = 1
task_weight _ = 0

-- The workers whose `finally` callback has not run.
abbrev pub count_workers : List Task → ℕ
count_workers [] = 0
count_workers (t ∷ ts) = task_weight t + count_workers ts

pub count_workers-append :
    (ts us : List Task) → count_workers (ts ++ us) ≡ count_workers ts + count_workers us
count_workers-append [] us = omega arith
count_workers-append (t ∷ ts) us = omega (arith, count_workers-append ts us)

pub count_workers-set :
    (ts : List Task) (i : ℕ) (t u : Task)
    → get_elem? ts i ≡ some t
    → count_workers (set ts i u) + task_weight t ≡ count_workers ts + task_weight u
count_workers-set [] i t u e = cc
count_workers-set (x ∷ ts) zero t u e = let same : x ≡ t = ground arith in rw same (omega arith)
count_workers-set (x ∷ ts) (suc i) t u e = omega (arith, count_workers-set ts i t u e)

pub weight-le :
    (ts : List Task) (i : ℕ) (t : Task) → get_elem? ts i ≡ some t → task_weight t ≤ count_workers ts
weight-le [] i t e = cc
weight-le (x ∷ ts) zero t e = let same : x ≡ t = ground arith in rw same (omega arith)
weight-le (x ∷ ts) (suc i) t e = omega (arith, weight-le ts i t e)

pub count_workers-pending_of :
    (q : Queue) (ref : ℕ) (point : RunPoint) → count_workers (pending_of q ref point) ≡ 0
unfolding pending_of
count_workers-pending_of q ref (awaiting_pending file p) = refl
count_workers-pending_of q ref _ = refl

pub count_workers-started_tasks :
    (q : Queue) (started : List Started) → count_workers (started_tasks q started) ≡ length started
unfolding started_tasks
count_workers-started_tasks q [] = refl
count_workers-started_tasks q ((ref, point) ∷ more) = omega (
  arith,
  count_workers-append (pending_of q ref point) (started_tasks q more),
  count_workers-pending_of q ref point,
  count_workers-started_tasks q more,
)

-- A task's step from a sound queue in which its worker, if it is one, is counted.
pub record StepKeeps (q : Queue) (t : Task) (o : Outcome) : Type 0 where
  pub sound : Sound q → Sound o.queue
  pub counted :
      task_weight t ≤ q.active
      → (o.queue).active + task_weight t ≡ q.active + task_weight o.task + count_workers o.new
  pub bounded : q.active ≤ max_workers → (o.queue).active ≤ max_workers

-- A piece of work that keeps the frame, with a task of the same weight and no new workers.
pub Frame-StepKeeps :
    {q : Queue} {t : Task} (o : Outcome)
    → Frame q o.queue
    → task_weight o.task ≡ task_weight t
    → count_workers o.new ≡ 0
    → StepKeeps q t o
Frame-StepKeeps o f w n = record {
  sound = Frame-Sound f;
  counted = λ h. omega (arith, f.active);
  bounded = λ h. omega (arith, f.active);
}

-- What holds of a result, if there is one.
abbrev pub ForSome {ℓ κ} : {A : Type ℓ} → (A → Type κ) → Option A → Type κ
ForSome P none = Unit
ForSome P (some a) = P a

pub cancel_resume-Frame :
    (q : Queue) (ref : ℕ) (id : Text) (point : CancelPoint) (r : Reply)
    → ForSome (λ o. Frame q o.0) (cancel_resume q ref id point r)
unfolding cancel_resume
cancel_resume-Frame q ref id (awaiting_promise p) wake = elim (Option-cases (settled q p)) [
  | inl e ↦ rw (e, cancel_resume) tt
  | inr (r, e) ↦ rw (e, cancel_resume) (Cancels.cancel_fetched-Frame q ref id r)
]
cancel_resume-Frame q ref id fetching_status (status r) = Cancels.cancel_fetched-Frame q ref id r
cancel_resume-Frame q ref id (requesting_cancel st) (sent r) =
    Cancels.cancel_requested-Frame q ref id st r
cancel_resume-Frame q ref id reconciling_conflict (status r) =
    Cancels.cancel_reconciled-Frame q ref id r
cancel_resume-Frame q ref id _ _ = tt

abbrev resumed : ℕ → Text → Option (Queue × CancelPoint) → Option (Queue × RunPoint)
resumed target id o = elim o [ none ↦ none | some r ↦ some (run_cancelling target id r) ]

resumed-Frame :
    (q : Queue) (target : ℕ) (id : Text) (o : Option (Queue × CancelPoint))
    → ForSome (λ r. Frame q r.0) o
    → ForSome (λ r. Frame q r.0) (resumed target id o)
unfolding run_cancelling
resumed-Frame q target id none h = tt
resumed-Frame q target id (some (r, point)) h = h

pub run_resume-Frame :
    (q : Queue) (ref : ℕ) (point : RunPoint) (r : Reply)
    → ForSome (λ o. Frame q o.0) (run_resume q ref point r)
unfolding run_resume
run_resume-Frame q ref (hashing_file file) (digest r) = Runs.run_hashed-Frame q ref file r
run_resume-Frame q ref (refreshing_status file) (status r) = Runs.run_resolved-Frame q ref file r
run_resume-Frame q ref (awaiting_pending file p) wake = elim (Option-cases (settled q p)) [
  | inl e ↦ rw (e, run_resume) tt
  | inr (r, e) ↦ rw (e, run_resume) (Runs.run_resolved-Frame q ref file r)
]
run_resume-Frame q ref (cancelling_run target id cancel_done) wake = Frame-refl q
run_resume-Frame q ref (cancelling_run target id point) r =
    resumed-Frame q target id _ (cancel_resume-Frame q target id point r)
run_resume-Frame q ref (hashing_part loop) (digest r) = Runs.part_hashed-Frame q ref loop r
run_resume-Frame q ref (sending_part loop d attempt c) (sent r) =
    Runs.part_sent-Frame q ref loop d attempt c r
run_resume-Frame q ref (sending_part loop d attempt c) (progress n) =
    Runs.part_progress-Frame q ref loop n
run_resume-Frame q ref (reconciling_part loop d attempt c) (status r) =
    Runs.part_reconciled-Frame q ref loop d attempt c r
run_resume-Frame q ref (part_delay loop d attempt c) wake =
    Runs.part_delayed-Frame q ref loop d attempt c
run_resume-Frame q ref (completing file attempt) (status r) =
    Runs.run_completed-Frame q ref file attempt r
run_resume-Frame q ref (completing_delay file attempt) wake = Frame-refl q
run_resume-Frame q ref _ _ = tt
