-- ===== src/Uploads/System.antt =====
-- The queue with its asynchronous work: each call that has not settled is a task that waits at a
-- point, and an event is either a call of a public method or a reply that one task waited for.
-- Events come in any order. A reply that fits no task changes nothing.
-- The passage of a result through nested async functions counts as one step.
pub mod Accepted
pub mod Sound
pub mod Valid
use file_harbor.Base.{
  ℕ, zero, suc, ◌+◌, Bool, true, false, ◌||◌, List, [], ◌∷◌, ◌++◌, Option, none, some, Text,
  get_elem?, set, if◌then◌else◌, ◌==◌, map,
}
use file_harbor.Base.OrderedMap
use file_harbor.Uploads.Model.{
  Failure, api_error, js_error, other_value, Result, ok, err, UploadStatus, SourceFile,
  StoredUpload, QueueItem, is_terminal,
}
use file_harbor.Uploads.Queue.{Queue, empty, notify, delete_same}
use file_harbor.Uploads.Cancel.{
  CancelPoint, awaiting_promise, fetching_status, requesting_cancel, reconciling_conflict,
  cancel_done, cancel, cancel_fetched, cancel_requested, cancel_reconciled,
}
use file_harbor.Uploads.Run
use file_harbor.Uploads.Run.{
  RunPoint, PartLoop, hashing_file, refreshing_status, awaiting_pending, cancelling_run,
  hashing_part, sending_part, reconciling_part, part_delay, completing, completing_delay, returned,
  run_hashed, run_resolved, part_hashed, part_progress, part_sent, part_reconciled, part_delayed,
  run_completed,
}
use file_harbor.Uploads.Restoring.{
  RestorePoint, hashing_source, attach_returned, Restoring, restore_files, restore_hashed,
  restore_attached,
}
use file_harbor.Uploads.Operations.{
  Started, settle, restore, Addition, add_directory_files, lookup, pause, resume, attach_begin,
  attach_hashed, remove_now, remove_cancelled,
}

-- What a task can be told: a digest, a status, the end of a request without a result, the bytes
-- sent so far, or that a timer, a promise or a callback is due.
pub data Reply : Type 0 where
  digest : Result Text → Reply
  status : Result UploadStatus → Reply
  sent : Result (Unit {0}) → Reply
  progress : ℕ → Reply
  wake : Reply

-- The two awaits of `pending` in `resolveStatus`.
pub data PendingPoint : Type 0 where
  creating fetching : PendingPoint

pub data Task : Type 0 where
  worker : ℕ → RunPoint → Task
  pending : Text → ℕ → PendingPoint → Task
  canceller : ℕ → Text → CancelPoint → Task
  remover : ℕ → Text → CancelPoint → Task
  deleting : Task
  attacher : ℕ → SourceFile → Task
  restorer : RestorePoint → Task
  finished : Task

pub record World : Type 0 where
  pub queue : Queue
  pub tasks : List Task

-- The result of a promise, once it has settled.
unfoldable pub settled : Queue → ℕ → Option (Result UploadStatus)
settled q p = elim (get_elem? q.promises p) [ none ↦ none | some r ↦ r ]

unfoldable pub cancel_resume : Queue → ℕ → Text → CancelPoint → Reply → Option (Queue × CancelPoint)
cancel_resume q ref id (awaiting_promise p) wake = elim (settled q p) [
  | none ↦ none
  | some r ↦ some (cancel_fetched q ref id r)
]
cancel_resume q ref id fetching_status (status r) = some (cancel_fetched q ref id r)
cancel_resume q ref id (requesting_cancel st) (sent r) = some (cancel_requested q ref id st r)
cancel_resume q ref id reconciling_conflict (status r) = some (cancel_reconciled q ref id r)
cancel_resume q ref id _ _ = none

-- `await this.cancel(item.id); return` inside `run`.
unfoldable pub run_cancelling : ℕ → Text → Queue × CancelPoint → Queue × RunPoint
run_cancelling ref id (q, point) = (q, cancelling_run ref id point)

unfoldable pub run_resume : Queue → ℕ → RunPoint → Reply → Option (Queue × RunPoint)
run_resume q ref (hashing_file file) (digest r) = some (run_hashed q ref file r)
run_resume q ref (refreshing_status file) (status r) = some (run_resolved q ref file r)
run_resume q ref (awaiting_pending file p) wake = elim (settled q p) [
  | none ↦ none
  | some r ↦ some (run_resolved q ref file r)
]
run_resume q ref (cancelling_run target id cancel_done) wake = some (q, returned)
run_resume q ref (cancelling_run target id point) reply =
    elim (cancel_resume q target id point reply) [
      | none ↦ none
      | some r ↦ some (run_cancelling target id r)
    ]
run_resume q ref (hashing_part loop) (digest r) = some (part_hashed q ref loop r)
run_resume q ref (sending_part loop d attempt c) (sent r) =
    some (part_sent q ref loop d attempt c r)
run_resume q ref (sending_part loop d attempt c) (progress n) =
    some (part_progress q ref loop n, sending_part loop d attempt c)
run_resume q ref (reconciling_part loop d attempt c) (status r) =
    some (part_reconciled q ref loop d attempt c r)
run_resume q ref (part_delay loop d attempt c) wake = some (part_delayed q ref loop d attempt c)
run_resume q ref (completing file attempt) (status r) = some (run_completed q ref file attempt r)
run_resume q ref (completing_delay file attempt) wake = some (q, completing file (attempt + 1))
run_resume q ref _ _ = none

-- `pending` settles, and the `finally` of `resolveStatus` forgets it.
unfoldable pub settle_pending : Queue → Text → ℕ → Result UploadStatus → Queue
settle_pending q id p r = record q {
  promises = set q.promises p (some r);
  resolving = delete_same id p q.resolving;
}

-- After `await api.createUpload(...)`: on 409 and 422 the upload exists and its status is fetched.
unfoldable pub pending_created : Queue → Text → ℕ → Result UploadStatus → Queue × Task
unfolding settle_pending
pending_created q id p (ok st) = (settle_pending q id p (ok st), finished)
pending_created q id p (err (api_error code text)) =
    if code == 409 || code == 422
    then (q, pending id p fetching)
    else (settle_pending q id p (err (api_error code text)), finished)
pending_created q id p (err e) = (settle_pending q id p (err e), finished)

-- A worker that waits on a new promise comes with the call that will settle it.
item_id : Queue → ℕ → Text
item_id q ref = elim (get_elem? q.heap ref) [ none ↦ [] | some item ↦ item.id ]

unfoldable pub pending_of : Queue → ℕ → RunPoint → List Task
unfolding item_id
pending_of q ref (awaiting_pending file p) = pending (item_id q ref) p creating ∷ []
pending_of q ref point = []

unfoldable pub started_tasks : Queue → List Started → List Task
unfolding pending_of
started_tasks q [] = []
started_tasks q ((ref, point) ∷ more) =
    worker ref point ∷ pending_of q ref point ++ started_tasks q more

-- A task after its reply, and the tasks that it started.
pub record Outcome : Type 0 where
  pub queue : Queue
  pub task : Task
  pub new : List Task

unfoldable pub worker_outcome : ℕ → Queue × RunPoint → Outcome
unfolding pending_of
worker_outcome ref (q, point) = record {
  queue = q;
  task = worker ref point;
  new = pending_of q ref point;
}

unfoldable pub pump_outcome : Queue × List Started → Outcome
unfolding started_tasks
pump_outcome (q, started) = record { queue = q; task = finished; new = started_tasks q started }

unfoldable pub cancel_outcome : ℕ → Text → Queue × CancelPoint → Outcome
cancel_outcome ref id (q, point) = record { queue = q; task = canceller ref id point; new = [] }

unfoldable pub remove_outcome : ℕ → Text → Queue × CancelPoint → Outcome
remove_outcome ref id (q, point) = record { queue = q; task = remover ref id point; new = [] }

-- `remove` waits for the database only if it removed the item.
unfoldable pub removed_outcome : Queue × Bool → Outcome
removed_outcome (q, true) = record { queue = q; task = deleting; new = [] }
removed_outcome (q, false) = record { queue = q; task = finished; new = [] }

unfoldable pub restore_outcome : Restoring → Outcome
unfolding started_tasks
restore_outcome ((q, started), point) = record {
  queue = q;
  task = restorer point;
  new = started_tasks q started;
}

abbrev pub pair_outcome : Queue × Task → Outcome
pair_outcome (q, t) = record { queue = q; task = t; new = [] }

abbrev pub map_option {ℓ κ} : {A : Type ℓ} {B : Type κ} → (A → B) → Option A → Option B
map_option f none = none
map_option f (some a) = some (f a)

-- One reply to one task.
unfoldable pub task_step : Queue → Task → Reply → Option Outcome
unfolding worker_outcome pump_outcome cancel_outcome remove_outcome removed_outcome restore_outcome
    restore_hashed restore_attached
task_step q (worker ref returned) wake = some (pump_outcome (settle q))
task_step q (worker ref point) reply =
    map_option (worker_outcome ref) (run_resume q ref point reply)
task_step q (pending id p creating) (status r) = some (pair_outcome (pending_created q id p r))
task_step q (pending id p fetching) (status r) =
    some (pair_outcome (settle_pending q id p r, finished))
task_step q (canceller ref id point) reply =
    map_option (cancel_outcome ref id) (cancel_resume q ref id point reply)
task_step q (remover ref id cancel_done) wake = some (removed_outcome (remove_cancelled q ref id))
task_step q (remover ref id point) reply =
    map_option (remove_outcome ref id) (cancel_resume q ref id point reply)
task_step q deleting wake = some (pair_outcome (notify q, finished))
task_step q (attacher ref file) (digest (ok d)) = some (pump_outcome (attach_hashed q ref file d).0)
task_step q (attacher ref file) (digest (err e)) = some (pair_outcome (q, finished))
task_step q (restorer (hashing_source ref file loop)) (digest (ok d)) =
    some (restore_outcome (restore_hashed q ref file loop d))
task_step q (restorer (hashing_source ref file loop)) (digest (err e)) =
    some (pair_outcome (q, finished))
task_step q (restorer (attach_returned attached loop)) wake =
    some (restore_outcome (restore_attached q attached loop))
task_step q _ _ = none

-- The calls of the public methods, and replies to tasks by their positions.
pub data Event : Type 0 where
  call_add : List Addition → Text → Event
  call_restore : List StoredUpload → Event
  call_restore_directory : List Addition → Text → Event
  call_attach : Text → SourceFile → Event
  call_pause : Text → Event
  call_resume : Text → Event
  call_cancel : Text → Event
  call_remove : Text → Event
  reply : ℕ → Reply → Event

unfoldable pub spawn : World → Queue → List Task → World
spawn w q new = record { queue = q; tasks = w.tasks ++ new }

unfoldable pub spawn_started : World → Queue × List Started → World
unfolding spawn started_tasks
spawn_started w (q, started) = spawn w q (started_tasks q started)

-- A call of `cancel` or `remove` by id, with the item that the id stands for.
unfoldable pub spawn_cancel : World → Text → ℕ → Queue × CancelPoint → World
unfolding spawn
spawn_cancel w id ref (q, point) = spawn w q (canceller ref id point ∷ [])

unfoldable pub spawn_remove : World → Text → ℕ → QueueItem → World
unfolding spawn
spawn_remove w id ref item =
    if is_terminal item.phase
    then spawn w (remove_now w.queue id) (deleting ∷ [])
    else let (q, point) = cancel w.queue id in spawn w q (remover ref id point ∷ [])

unfoldable pub spawn_attach : World → SourceFile → Queue × Option ℕ → World
unfolding spawn
spawn_attach w file (q, none) = record w { queue = q }
spawn_attach w file (q, some ref) = spawn w q (attacher ref file ∷ [])

unfoldable pub spawn_restore : World → Restoring → World
unfolding spawn started_tasks
spawn_restore w ((q, started), point) = spawn w q (restorer point ∷ started_tasks q started)

unfoldable pub react : World → Event → World
unfolding spawn_started spawn_cancel spawn_remove spawn_attach spawn_restore restore_files
react w (call_add files destination) =
    spawn_started w (add_directory_files w.queue files destination)
react w (call_restore stored) = record w { queue = restore w.queue stored }
react w (call_restore_directory files destination) =
    spawn_restore w (restore_files w.queue destination [] files false)
react w (call_attach id file) = spawn_attach w file (attach_begin w.queue id file)
react w (call_pause id) = record w { queue = pause w.queue id }
react w (call_resume id) = spawn_started w (resume w.queue id)
react w (call_cancel id) = elim (lookup w.queue id) [
  | none ↦ w
  | some (ref, item) ↦ spawn_cancel w id ref (cancel w.queue id)
]
react w (call_remove id) = elim (lookup w.queue id) [
  | none ↦ w
  | some (ref, item) ↦ spawn_remove w id ref item
]
react w (reply i r) = elim (get_elem? w.tasks i) [
  | none ↦ w
  | some t ↦ elim (task_step w.queue t r) [
    | none ↦ w
    | some o ↦ record { queue = o.queue; tasks = set w.tasks i o.task ++ o.new }
  ]
]

abbrev pub start : Text → World
start scope = record { queue = empty scope; tasks = [] }

abbrev pub run_events : World → List Event → World
run_events w [] = w
run_events w (e ∷ es) = run_events (react w e) es
