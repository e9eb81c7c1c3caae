-- ===== src/Uploads/Run.antt =====
-- The worker of web/src/uploads/queue.ts: `run`, `resolveStatus` and `uploadPart`, cut at their
-- awaits. A point is where the worker waits, with the local variables that it needs afterwards.
pub mod Sending
use file_harbor.Base.{
  ℕ, zero, suc, ◌+◌, ◌-◌, ◌*◌, Bool, true, false, ◌||◌, not, List, [], ◌∷◌, ◌++◌, Option, none,
  some, Text, truthy, length, get_elem?, set, if◌then◌else◌, ◌==◌, get_or_else,
}
use file_harbor.Base.Int.{ℤ, pos, ◌+ℤ◌}
use file_harbor.Base.OrderedMap
use file_harbor.Uploads.Model.{
  Failure, Result, ok, err, UploadStatus, SourceFile, file_size, QueueItem, UploadPhase, hashing,
  uploading, paused, failed, ratio, is_stopped, is_active, retryable, run_error_code,
}
use file_harbor.Uploads.Parts.{received_indexes, has_index, add_index, completed_bytes}
use file_harbor.Uploads.Retry.{Next, returns, throws, sleeps, retry_step}
use file_harbor.Uploads.Queue.{Queue, update, set_phase, set_error, delete_same}
use file_harbor.Uploads.Cancel.{CancelPoint, cancel}

-- The local variables of the loop over the parts.
pub record PartLoop : Type 0 where
  pub file : SourceFile
  pub status : UploadStatus
  pub received : List ℕ
  pub index : ℕ

pub data RunPoint : Type 0 where
  -- `await hashBlob(file)`
  hashing_file : SourceFile → RunPoint
  -- `await api.getUpload(...)` of an item whose status is active.
  refreshing_status : SourceFile → RunPoint
  -- `await pending`
  awaiting_pending : SourceFile → ℕ → RunPoint
  -- `await this.cancel(item.id)`: the item that the id stands for, and the point of that call.
  cancelling_run : ℕ → Text → CancelPoint → RunPoint
  -- `await hashBlob(part)`
  hashing_part : PartLoop → RunPoint
  -- `await xhrUploadPart(...)`: the digest, the attempt and its abort controller.
  sending_part : PartLoop → Text → ℕ → ℕ → RunPoint
  -- `await api.getUpload(...)` after a failed attempt.
  reconciling_part : PartLoop → Text → ℕ → ℕ → RunPoint
  -- `await delay(...)` after a failed attempt.
  part_delay : PartLoop → Text → ℕ → ℕ → RunPoint
  -- `await api.completeUpload(...)`, and the pause between two attempts.
  completing : SourceFile → ℕ → RunPoint
  completing_delay : SourceFile → ℕ → RunPoint
  -- The function has returned; its `finally` callback has not run yet.
  returned : RunPoint

abbrev pub phase_of : Queue → ℕ → Option UploadPhase
phase_of q ref = elim (get_elem? q.heap ref) [ none ↦ none | some item ↦ some item.phase ]

-- `item.phase === 'paused' || item.phase === 'cancelled'`
unfoldable pub stopped : Queue → ℕ → Bool
stopped q ref = elim (phase_of q ref) [ none ↦ false | some p ↦ is_stopped p ]

-- The `catch` block of `run`.
unfoldable pub run_catch : Queue → ℕ → Failure → Queue × RunPoint
unfolding stopped run_error_code
run_catch q ref e =
    if stopped q ref
    then (q, returned)
    else (update q ref (set_error failed (run_error_code e)), returned)

-- `resolveStatus`, up to its await: an active status is refreshed, any other is created anew,
-- under a promise that `cancel` can wait for.
unfoldable pub resolve_status : Queue → SourceFile → QueueItem → Queue × RunPoint
resolve_status q file item =
    let pending = record q {
      promises = q.promises ++ none ∷ [];
      resolving = OrderedMap.put item.id (length q.promises) q.resolving;
    } in
    elim item.status [
      | none ↦ (pending, awaiting_pending file (length q.promises))
      | some status ↦
          if is_active status.state
          then (q, refreshing_status file)
          else (pending, awaiting_pending file (length q.promises))
    ]

unfoldable pub run_upload : Queue → ℕ → SourceFile → Queue × RunPoint
unfolding resolve_status
run_upload q ref file =
    let q' = update q ref (set_phase uploading) in
    elim (get_elem? q'.heap ref) [ none ↦ (q', returned) | some item ↦ resolve_status q' file item ]

-- The beginning of `run`.
unfoldable pub run_start : Queue → ℕ → Queue × RunPoint
unfolding run_upload
run_start q ref = elim (get_elem? q.heap ref) [
  | none ↦ (q, returned)
  | some item ↦ elim item.file [
    | none ↦ (q, returned)
    | some file ↦
        if truthy item.sha256
        then run_upload q ref file
        else (update q ref (set_phase hashing), hashing_file file)
  ]
]

-- After `await hashBlob(file)`.
unfoldable pub run_hashed : Queue → ℕ → SourceFile → Result Text → Queue × RunPoint
unfolding run_catch run_upload stopped
run_hashed q ref file (err e) = run_catch q ref e
run_hashed q ref file (ok digest) =
    if stopped q ref
    then (q, returned)
    else run_upload
        (update q ref (λ item. record item { stored = record item.stored { sha256 = digest } })) ref
        file

-- The loop over the parts, by the indexes left: parts that the server has are skipped, and a
-- stopped item ends the run.
unfoldable pub next_part : Queue → ℕ → PartLoop → ℕ → Queue × RunPoint
unfolding stopped
next_part q ref loop zero = (q, completing loop.file 0)
next_part q ref loop (suc left) =
    let rest = next_part q ref (record loop { index = loop.index + 1 }) left in
    if stopped q ref
    then (q, returned)
    else if has_index loop.received loop.index
    then rest
    else (q, hashing_part loop)

-- `{ status, receivedBytes, progress }`, from a status.
abbrev pub take_status : UploadStatus → QueueItem → QueueItem
take_status status item = record item {
  status = some status;
  received_bytes = pos status.received_bytes;
  progress =
      if item.size == 0 then ratio (pos 0) 1 else ratio (pos status.received_bytes) item.size;
}

-- A worker whose item was stopped while the status was on its way: a paused one is cancelled.
unfoldable pub run_stopped : Queue → ℕ → Queue × RunPoint
run_stopped q ref = elim (get_elem? q.heap ref) [
  | none ↦ (q, returned)
  | some item ↦ elim item.phase [
    | paused ↦
        let target = get_or_else (OrderedMap.get item.id q.items) ref in
        let (q', point) = cancel q item.id in (q', cancelling_run target item.id point)
    | _ ↦ (q, returned)
  ]
]

-- After `await this.resolveStatus(item)`.
unfoldable pub run_resolved : Queue → ℕ → SourceFile → Result UploadStatus → Queue × RunPoint
unfolding run_catch run_stopped next_part stopped
run_resolved q ref file (err e) = run_catch q ref e
run_resolved q ref file (ok status) =
    if stopped q ref
    then run_stopped q ref
    else next_part (update q ref (take_status status)) ref
        (record { file = file; status = status; received = received_indexes status; index = 0 })
        status.part_count

-- The beginning of an attempt in `uploadPart`.
unfoldable pub send_part : Queue → ℕ → PartLoop → Text → ℕ → Queue × RunPoint
send_part q ref loop digest attempt = elim (get_elem? q.heap ref) [
  | none ↦ (q, returned)
  | some item ↦
      let c = length q.controllers in
      (
        record q {
          controllers = q.controllers ++ false ∷ [];
          active_parts = OrderedMap.put item.id c q.active_parts;
        },
        sending_part loop digest attempt c,
      )
]

-- After `await hashBlob(part)`.
unfoldable pub part_hashed : Queue → ℕ → PartLoop → Result Text → Queue × RunPoint
unfolding run_catch send_part
part_hashed q ref loop (err e) = run_catch q ref e
part_hashed q ref loop (ok digest) = send_part q ref loop digest 0

-- `onProgress`
unfoldable pub part_progress : Queue → ℕ → PartLoop → ℕ → Queue
part_progress q ref loop loaded =
    let size = file_size loop.file in
    let shown = completed_bytes loop.status size loop.received loop.index +ℤ pos loaded in
    update q ref λ item. record item {
      received_bytes = shown;
      progress = if size == 0 then ratio (pos 1) 1 else ratio shown size;
    }

-- The `finally` block of `uploadPart`.
unfoldable pub release_part : Queue → ℕ → ℕ → Queue
release_part q ref c = elim (get_elem? q.heap ref) [
  | none ↦ q
  | some item ↦ record q { active_parts = delete_same item.id c q.active_parts }
]

-- `uploadPart` has returned: the part counts as received.
unfoldable pub part_done : Queue → ℕ → PartLoop → Queue × RunPoint
unfolding next_part
part_done q ref loop =
    let next = record loop {
      received = add_index loop.received loop.index;
      index = loop.index + 1;
    } in
    next_part q ref next (loop.status.part_count - (loop.index + 1))

-- After `await xhrUploadPart(...)`.
unfoldable pub part_sent :
    Queue → ℕ → PartLoop → Text → ℕ → ℕ → Result (Unit {0}) → Queue × RunPoint
unfolding release_part part_done run_catch retryable stopped
part_sent q ref loop digest attempt c (ok _) = part_done (release_part q ref c) ref loop
part_sent q ref loop digest attempt c (err e) =
    if stopped q ref || not (retryable e) || attempt == 2
    then run_catch (release_part q ref c) ref e
    else (q, reconciling_part loop digest attempt c)

-- After `await api.getUpload(...)` of a failed attempt: `item.status = reconciled` is a plain
-- assignment, which tells nobody.
unfoldable pub part_reconciled :
    Queue → ℕ → PartLoop → Text → ℕ → ℕ → Result UploadStatus → Queue × RunPoint
unfolding release_part part_done
part_reconciled q ref loop digest attempt c (err e) = (q, part_delay loop digest attempt c)
part_reconciled q ref loop digest attempt c (ok status) = elim (get_elem? q.heap ref) [
  | none ↦ (q, returned)
  | some item ↦
      let q' = record q { heap = set q.heap ref (record item { status = some status }) } in
      if has_index (received_indexes status) loop.index
      then part_done (release_part q' ref c) ref loop
      else (q', part_delay loop digest attempt c)
]

-- After `await delay(...)`: the next attempt.
unfoldable pub part_delayed : Queue → ℕ → PartLoop → Text → ℕ → ℕ → Queue × RunPoint
unfolding release_part send_part
part_delayed q ref loop digest attempt c =
    send_part (release_part q ref c) ref loop digest (attempt + 1)

abbrev pub take_completion : SourceFile → UploadStatus → QueueItem → QueueItem
take_completion file status item = record item {
  status = some status;
  received_bytes = pos (file_size file);
  progress = ratio (pos 1) 1;
  phase = UploadPhase.completed;
}

unfoldable pub completion_next : Queue → ℕ → SourceFile → ℕ → Next UploadStatus → Queue × RunPoint
unfolding run_catch
completion_next q ref file attempt (returns status) =
    (update q ref (take_completion file status), returned)
completion_next q ref file attempt (throws e) = run_catch q ref e
completion_next q ref file attempt (sleeps ms) = (q, completing_delay file attempt)

-- After `await api.completeUpload(...)` inside `retry`.
unfoldable pub run_completed : Queue → ℕ → SourceFile → ℕ → Result UploadStatus → Queue × RunPoint
unfolding completion_next
run_completed q ref file attempt result =
    completion_next q ref file attempt (retry_step attempt result)
