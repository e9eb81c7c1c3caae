-- ===== src/Uploads/Cancel.antt =====
-- `cancel` of web/src/uploads/queue.ts, cut at its awaits. A point is where the call waits.
pub mod Outcomes
use file_harbor.Base.{
  ℕ, Bool, true, false, ◌||◌, List, [], ◌∷◌, ◌++◌, Option, none, some, Text, codes, get_elem?,
  if◌then◌else◌, any, ◌===◌, filter, not,
}
use file_harbor.Base.Int.{pos}
use file_harbor.Base.OrderedMap
use file_harbor.Uploads.Model.{
  Failure, Result, ok, err, UploadState, UploadStatus, active, finalizing, QueueItem, UploadPhase,
  paused, failed, ratio, is_terminal, is_active, cancel_error_code,
}
use file_harbor.Uploads.Queue.{Queue, update, abort_part, set_phase, clear_error, set_error}

pub data CancelPoint : Type 0 where
  -- `await resolving`, the promise of another call.
  awaiting_promise : ℕ → CancelPoint
  -- `await api.getUpload(...)`
  fetching_status : CancelPoint
  -- `await api.cancelUpload(...)`, with the status fetched before.
  requesting_cancel : UploadStatus → CancelPoint
  -- `await api.getUpload(...)` after a conflict.
  reconciling_conflict : CancelPoint
  cancel_done : CancelPoint

abbrev pub contains_text : Text → List Text → Bool
contains_text k xs = any (λ j. j === k) xs

-- The `finally` block.
unfoldable pub cancel_finish : Queue → Text → Queue × CancelPoint
cancel_finish q id =
    (record q { cancelling = filter (λ j. not (j === id)) q.cancelling }, cancel_done)

-- `{ status, phase: 'completed', progress: 1, receivedBytes: item.size }`
abbrev pub finish_completed : UploadStatus → QueueItem → QueueItem
finish_completed status item = record item {
  status = some status;
  phase = UploadPhase.completed;
  progress = ratio (pos 1) 1;
  received_bytes = pos item.size;
}

abbrev pub finish_cancelled : UploadStatus → QueueItem → QueueItem
finish_cancelled status item = record item { status = some status; phase = UploadPhase.cancelled }

-- What `cancel` does once it has a status.
unfoldable pub cancel_known : Queue → ℕ → Text → UploadStatus → UploadState → Queue × CancelPoint
unfolding cancel_finish
cancel_known q ref id status UploadState.completed =
    cancel_finish (update q ref (finish_completed status)) id
cancel_known q ref id status UploadState.cancelled =
    cancel_finish (update q ref (finish_cancelled status)) id
cancel_known q ref id status active = (q, requesting_cancel status)
cancel_known q ref id status finalizing = (q, requesting_cancel status)

-- The `catch` block, up to its await.
unfoldable pub cancel_failed : Queue → ℕ → Text → Failure → Queue × CancelPoint
unfolding cancel_finish cancel_error_code
cancel_failed q ref id failure =
    let code = cancel_error_code failure in
    if code === codes "upload_cancelled" || code === codes "upload_not_found"
    then cancel_finish (update q ref (set_phase UploadPhase.cancelled)) id
    else if code === codes "upload_conflict"
    then (q, reconciling_conflict)
    else cancel_finish (update q ref (set_error failed code)) id

-- After the status of the conflict: only a completed upload is taken over.
unfoldable pub cancel_conflict : Queue → ℕ → Text → UploadStatus → UploadState → Queue × CancelPoint
unfolding cancel_finish
cancel_conflict q ref id status UploadState.completed =
    cancel_finish (update q ref (finish_completed status)) id
cancel_conflict q ref id status _ =
    cancel_finish (update q ref (set_error failed (codes "upload_conflict"))) id

unfoldable pub cancel_reconciled : Queue → ℕ → Text → Result UploadStatus → Queue × CancelPoint
unfolding cancel_finish cancel_conflict
cancel_reconciled q ref id (err e) =
    cancel_finish (update q ref (set_error failed (codes "upload_conflict"))) id
cancel_reconciled q ref id (ok status) = cancel_conflict q ref id status status.state

-- After `await resolving` or `await api.getUpload(...)`.
unfoldable pub cancel_fetched : Queue → ℕ → Text → Result UploadStatus → Queue × CancelPoint
unfolding cancel_known cancel_failed
cancel_fetched q ref id (ok status) = cancel_known q ref id status status.state
cancel_fetched q ref id (err e) = cancel_failed q ref id e

-- After `await api.cancelUpload(...)`.
unfoldable pub cancel_requested :
    Queue → ℕ → Text → UploadStatus → Result (Unit {0}) → Queue × CancelPoint
unfolding cancel_finish cancel_failed
cancel_requested q ref id status (ok _) = cancel_finish (update q ref (finish_cancelled status)) id
cancel_requested q ref id status (err e) = cancel_failed q ref id e

-- The wait for a status: on the promise of a call that is resolving it, or on a request.
unfoldable pub cancel_fetch : Queue → Text → Queue × CancelPoint
cancel_fetch q id = elim (OrderedMap.get id q.resolving) [
  | some p ↦ (q, awaiting_promise p)
  | none ↦ (q, fetching_status)
]

-- The beginning of the `try` block: an item with a status that is not active needs no request.
unfoldable pub cancel_begin : Queue → ℕ → Text → Option UploadStatus → Queue × CancelPoint
unfolding cancel_fetch cancel_known
cancel_begin q ref id none = cancel_fetch q id
cancel_begin q ref id (some status) =
    if is_active status.state then cancel_fetch q id else cancel_known q ref id status status.state

unfoldable pub cancel_item : Queue → ℕ → QueueItem → Text → Queue × CancelPoint
unfolding cancel_begin abort_part
cancel_item q ref item id =
    if is_terminal item.phase || contains_text id q.cancelling
    then (q, cancel_done)
    else let started = abort_part (record q { cancelling = q.cancelling ++ id ∷ [] }) id in
      cancel_begin (update started ref (clear_error paused)) ref id item.status

-- `cancel(id)`, up to its first await.
unfoldable pub cancel : Queue → Text → Queue × CancelPoint
unfolding cancel_item
cancel q id = elim (OrderedMap.get id q.items) [
  | none ↦ (q, cancel_done)
  | some ref ↦ elim (get_elem? q.heap ref) [
    | none ↦ (q, cancel_done)
    | some item ↦ cancel_item q ref item id
  ]
]
