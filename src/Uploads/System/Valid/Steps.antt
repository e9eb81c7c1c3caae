-- ===== src/Uploads/System/Valid/Steps.antt =====
-- Every reply to a task keeps the data sound and the count of workers exact.
use file_harbor.Base.{
  ℕ, ◌-◌, ◌≡◌, refl, Bool, true, not, List, Option, none, some, Text, get_elem?, arith,
  Option-cases, inl, inr, if_elim, ◌==◌, ◌||◌,
}
use file_harbor.Uploads.Model.{
  Result, ok, err, api_error, js_error, other_value, UploadStatus, is_terminal,
}
use file_harbor.Uploads.Queue.{Queue, notify}
use file_harbor.Uploads.Cancel.{CancelPoint, cancel_done}
use file_harbor.Uploads.Run.{RunPoint, returned}
use file_harbor.Uploads.Operations.{Started, pump, settle, remove_cancelled, remove_now}
use file_harbor.Uploads.System.{
  Task, worker, pending, canceller, remover, deleting, attacher, restorer, Reply, digest, status,
  wake, creating, fetching, task_step, settle_pending, pending_created, map_option, worker_outcome,
  pump_outcome, cancel_outcome, remove_outcome, removed_outcome, pair_outcome,
}
use file_harbor.Uploads.System.Sound.{Sound-active, pump-Pumped, remove_now-Sound}
use file_harbor.Uploads.System.Valid.Tasks.{
  task_weight, count_workers-pending_of, count_workers-started_tasks, StepKeeps, Frame-StepKeeps,
  ForSome, cancel_resume-Frame, run_resume-Frame,
}
use file_harbor.Uploads.Restoring.{
  hashing_source, attach_returned, restore_hashed, restore_attached,
}
use file_harbor.Uploads.System.Valid.Restores.{
  Keeps, attach_hashed-Keeps, restore_files-Keeps, restore-StepKeeps,
}
use file_harbor.Uploads.Frame.{Frame, Frame-refl, abort_part-Frame}

worker-StepKeeps :
    (q : Queue) (ref : ℕ) (point : RunPoint) (o : Option (Queue × RunPoint))
    → ForSome (λ r. Frame q r.0) o
    → ForSome (StepKeeps q (worker ref point)) (map_option (worker_outcome ref) o)
unfolding worker_outcome
worker-StepKeeps q ref point none h = tt
worker-StepKeeps q ref point (some (r, next)) h =
    Frame-StepKeeps _ h refl (count_workers-pending_of r ref next)

-- The end of a worker frees its place before the queue is pumped.
settle-StepKeeps :
    (q : Queue) (ref : ℕ) → StepKeeps q (worker ref returned) (pump_outcome (settle q))
unfolding pump_outcome settle
settle-StepKeeps q ref =
    let freed : Queue = record q { active = q.active - 1 } in
    let p = pump-Pumped freed in
    record {
      sound = λ s. p.sound (Sound-active (q.active - 1) s);
      counted =
          λ h. omega (arith, p.counted, count_workers-started_tasks (pump freed).0 (pump freed).1);
      bounded = λ h. omega (arith, p.counted, p.fits);
    }

cancel-StepKeeps :
    (q : Queue) (ref : ℕ) (id : Text) (point : CancelPoint) (o : Option (Queue × CancelPoint))
    → ForSome (λ r. Frame q r.0) o
    → ForSome (StepKeeps q (canceller ref id point)) (map_option (cancel_outcome ref id) o)
unfolding cancel_outcome
cancel-StepKeeps q ref id point none h = tt
cancel-StepKeeps q ref id point (some (r, next)) h = Frame-StepKeeps _ h refl refl

remove-StepKeeps :
    (q : Queue) (ref : ℕ) (id : Text) (point : CancelPoint) (o : Option (Queue × CancelPoint))
    → ForSome (λ r. Frame q r.0) o
    → ForSome (StepKeeps q (remover ref id point)) (map_option (remove_outcome ref id) o)
unfolding remove_outcome
remove-StepKeeps q ref id point none h = tt
remove-StepKeeps q ref id point (some (r, next)) h = Frame-StepKeeps _ h refl refl

settle_pending-Frame :
    (q : Queue) (id : Text) (p : ℕ) (r : Result UploadStatus) → Frame q (settle_pending q id p r)
unfolding settle_pending
settle_pending-Frame q id p r = record {
  active = refl;
  items = refl;
  ids = λ i. refl;
  hashed = λ k. k;
}

pending_created-StepKeeps :
    (q : Queue) (id : Text) (p : ℕ) (r : Result UploadStatus)
    → StepKeeps q (pending id p creating) (pair_outcome (pending_created q id p r))
unfolding pending_created
pending_created-StepKeeps q id p (ok st) =
    Frame-StepKeeps _ (settle_pending-Frame q id p (ok st)) refl refl
pending_created-StepKeeps q id p (err (api_error code text)) =
    if_elim (λ (r : Queue × Task). StepKeeps q (pending id p creating) (pair_outcome r))
      (code == 409 || code == 422) (λ _. Frame-StepKeeps _ (Frame-refl q) refl refl)
      (λ _. Frame-StepKeeps _ (settle_pending-Frame q id p (err (api_error code text))) refl refl)
pending_created-StepKeeps q id p (err (js_error m)) =
    Frame-StepKeeps _ (settle_pending-Frame q id p (err (js_error m))) refl refl
pending_created-StepKeeps q id p (err other_value) =
    Frame-StepKeeps _ (settle_pending-Frame q id p (err other_value)) refl refl

remove_now-StepKeeps :
    (q : Queue) (ref : ℕ) (id : Text)
    → StepKeeps q (remover ref id cancel_done) (removed_outcome (remove_now q id, true))
unfolding removed_outcome
remove_now-StepKeeps q ref id =
    let same : (remove_now q id).active ≡ q.active =
      unfold remove_now in (abort_part-Frame q id).active in
    record {
      sound = remove_now-Sound q id;
      counted = λ h. omega (arith, same);
      bounded = λ h. omega (arith, same);
    }

remove_cancelled-StepKeeps :
    (q : Queue) (ref : ℕ) (id : Text)
    → StepKeeps q (remover ref id cancel_done) (removed_outcome (remove_cancelled q ref id))
unfolding remove_cancelled
remove_cancelled-StepKeeps q ref id = elim (Option-cases (get_elem? q.heap ref)) [
  | inl e ↦
      rw (e, remove_cancelled)
        (unfold removed_outcome in Frame-StepKeeps _ (Frame-refl q) refl refl)
  | inr (item, e) ↦
      rw (e, remove_cancelled)
        (if_elim
          (λ (r : Queue × Bool). StepKeeps q (remover ref id cancel_done) (removed_outcome r))
          (is_terminal item.phase) (λ _. remove_now-StepKeeps q ref id)
          (λ _. unfold removed_outcome in Frame-StepKeeps _ (Frame-refl q) refl refl))
]

Keeps-StepKeeps :
    (q : Queue) (t : Task) (r : Queue × List Started)
    → Keeps q r
    → task_weight t ≡ 0
    → StepKeeps q t (pump_outcome r)
unfolding pump_outcome
Keeps-StepKeeps q t (r, started) k w = record {
  sound = k.sound;
  counted = λ h. omega (arith, k.counted, count_workers-started_tasks r started);
  bounded = k.bounded;
}

pub task_step-StepKeeps :
    (q : Queue) (t : Task) (r : Reply) → ForSome (StepKeeps q t) (task_step q t r)
unfolding task_step
task_step-StepKeeps q (worker ref returned) wake = settle-StepKeeps q ref
task_step-StepKeeps q (worker ref point) r =
    worker-StepKeeps q ref point _ (run_resume-Frame q ref point r)
task_step-StepKeeps q (pending id p creating) (status r) = pending_created-StepKeeps q id p r
task_step-StepKeeps q (pending id p fetching) (status r) =
    Frame-StepKeeps _ (settle_pending-Frame q id p r) refl refl
task_step-StepKeeps q (canceller ref id point) r =
    cancel-StepKeeps q ref id point _ (cancel_resume-Frame q ref id point r)
task_step-StepKeeps q (remover ref id cancel_done) wake = remove_cancelled-StepKeeps q ref id
task_step-StepKeeps q (remover ref id point) r =
    remove-StepKeeps q ref id point _ (cancel_resume-Frame q ref id point r)
task_step-StepKeeps q deleting wake =
    Frame-StepKeeps _
      (unfold notify in record { active = refl; items = refl; ids = λ i. refl; hashed = λ k. k })
      refl refl
task_step-StepKeeps q (attacher ref file) (digest (ok d)) =
    Keeps-StepKeeps q (attacher ref file) _ (attach_hashed-Keeps q ref file d) refl
task_step-StepKeeps q (attacher ref file) (digest (err e)) =
    Frame-StepKeeps _ (Frame-refl q) refl refl
task_step-StepKeeps q (restorer (hashing_source ref file loop)) (digest (ok d)) =
    restore-StepKeeps q (hashing_source ref file loop) (restore_hashed q ref file loop d)
      (unfold restore_hashed in attach_hashed-Keeps q ref file d)
task_step-StepKeeps q (restorer (hashing_source ref file loop)) (digest (err e)) =
    Frame-StepKeeps _ (Frame-refl q) refl refl
task_step-StepKeeps q (restorer (attach_returned attached loop)) wake =
    restore-StepKeeps q (attach_returned attached loop) (restore_attached q attached loop) (
      unfold restore_attached in
      restore_files-Keeps q loop.destination loop.additions loop.rest
        (loop.mismatched || not attached))
task_step-StepKeeps q _ _ = tt
