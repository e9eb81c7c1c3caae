-- ===== src/Uploads/Operations.antt =====
-- The public operations of `ReliableUploadQueue` (web/src/uploads/queue.ts) and `pump`, which
-- starts workers. `cancel` is in its own module.
pub mod Pumping
use file_harbor.Base.{
  ℕ, zero, suc, ◌+◌, ◌-◌, Bool, true, false, ◌&&◌, ◌||◌, not, List, [], ◌∷◌, ◌++◌, Option, none,
  some, Text, truthy, length, get_elem?, set, if◌then◌else◌, ◌==◌, ◌===◌, is_some, find, codes,
  parent_path, join_slash, filter, get_or_else,
}
use file_harbor.Base.Int.{pos}
use file_harbor.Base.OrderedMap
use file_harbor.Uploads.Model.{
  Failure, Result, ok, err, SourceFile, file_size, StoredUpload, QueueItem, UploadPhase, reselect,
  waiting, hashing, uploading, paused, failed, ratio, is_terminal, is_stopped, is_waiting,
}
use file_harbor.Uploads.Queue.{
  Queue, StorageRequest, delete_upload, notify, update, snapshot, abort_part, set_phase,
  clear_error, set_error, max_workers,
}
use file_harbor.Uploads.Cancel.{CancelPoint, cancel_done, cancel}
use file_harbor.Uploads.Run.{RunPoint, run_start}

-- A worker that `pump` started, at its first await.
abbrev pub Started : Type 0
Started = ℕ × RunPoint

-- `candidate.phase === 'waiting' && candidate.file`
abbrev pub can_start : ℕ × QueueItem → Bool
can_start (ref, item) = is_waiting item.phase && is_some item.file

unfoldable pub next_waiting : Queue → Option ℕ
next_waiting q = elim (find can_start (snapshot q)) [ none ↦ none | some e ↦ some e.0 ]

-- The loop of `pump`, by the free places: a round either returns or takes one place.
unfoldable pub pump_from : ℕ → Queue → Queue × List Started
pump_from zero q = (q, [])
pump_from (suc free) q = elim (next_waiting q) [
  | none ↦ (q, [])
  | some ref ↦
      let (q1, point) = run_start (record q { active = q.active + 1 }) ref in
      let (q2, more) = pump_from free q1 in (q2, (ref, point) ∷ more)
]

unfoldable pub pump : Queue → Queue × List Started
unfolding pump_from
pump q = pump_from (max_workers - q.active) q

-- The `finally` callback of a worker.
unfoldable pub settle : Queue → Queue × List Started
unfolding pump
settle q = pump (record q { active = q.active - 1 })

-- An item for a stored upload, or for a new file.
abbrev pub restored_item : StoredUpload → QueueItem
restored_item stored = record {
  stored = stored;
  file = none;
  phase = reselect;
  progress = ratio (pos 0) 1;
  received_bytes = pos 0;
  error = none;
  status = none;
}

-- `this.items.set(id, item)` with a new object.
unfoldable pub insert_item : Queue → QueueItem → Queue
insert_item q item = record q {
  heap = q.heap ++ item ∷ [];
  items = OrderedMap.put item.id (length q.heap) q.items;
}

unfoldable pub insert_items : Queue → List QueueItem → Queue
unfolding insert_item
insert_items q [] = q
insert_items q (item ∷ more) = insert_items (insert_item q item) more

unfoldable pub restored_items : List StoredUpload → List QueueItem
restored_items [] = []
restored_items (s ∷ ss) = restored_item s ∷ restored_items ss

unfoldable pub restore : Queue → List StoredUpload → Queue
unfolding insert_items notify restored_items
restore q stored = notify (insert_items q (restored_items stored))

-- A file to add, with its path relative to the chosen directory, and what the browser's random
-- numbers and clock give for it.
pub record Addition : Type 0 where
  pub file : SourceFile
  pub relative_path : Text
  pub fresh_id : Text
  pub fresh_token : Text
  pub now : ℕ

-- `[destination, parent].filter(Boolean).join('/')`
unfoldable pub target_path : Text → Text → Text
target_path destination relative_path =
    join_slash (filter truthy (destination ∷ parent_path relative_path ∷ []))

unfoldable pub new_item : Text → Text → Addition → QueueItem
unfolding target_path
new_item scope destination a = record {
  stored = record {
    version = 1;
    id = a.fresh_id;
    token = a.fresh_token;
    scope = scope;
    path = target_path destination a.relative_path;
    name = (a.file).name;
    relative_path = some a.relative_path;
    size = file_size a.file;
    last_modified = (a.file).last_modified;
    sha256 = [];
    created_at = a.now;
  };
  file = some a.file;
  phase = waiting;
  progress = ratio (pos 0) 1;
  received_bytes = pos 0;
  error = none;
  status = none;
}

unfoldable pub new_items : Text → Text → List Addition → List QueueItem
new_items scope destination [] = []
new_items scope destination (a ∷ as_) =
    new_item scope destination a ∷ new_items scope destination as_

-- `addDirectoryFiles`
unfoldable pub add_directory_files : Queue → List Addition → Text → Queue × List Started
unfolding insert_items notify pump new_items
add_directory_files q files destination =
    pump (notify (insert_items q (new_items q.scope destination files)))

-- The item that an id stands for.
unfoldable pub lookup : Queue → Text → Option (ℕ × QueueItem)
lookup q id = elim (OrderedMap.get id q.items) [
  | none ↦ none
  | some ref ↦ elim (get_elem? q.heap ref) [ none ↦ none | some item ↦ some (ref, item) ]
]

unfoldable pub pause : Queue → Text → Queue
unfolding lookup abort_part
pause q id = elim (lookup q id) [
  | none ↦ q
  | some (ref, item) ↦
      if is_terminal item.phase then q else update (abort_part q id) ref (set_phase paused)
]

-- `['paused', 'failed', 'waiting'].includes(phase)`
abbrev pub can_resume : UploadPhase → Bool
can_resume paused = true
can_resume failed = true
can_resume waiting = true
can_resume _ = false

unfoldable pub resume : Queue → Text → Queue × List Started
unfolding lookup
resume q id = elim (lookup q id) [
  | none ↦ (q, [])
  | some (ref, item) ↦
      if is_some item.file && can_resume item.phase
      then pump (update q ref (clear_error waiting))
      else (q, [])
]

-- The tests of `attachFile` on the metadata of a file.
unfoldable pub same_source : QueueItem → SourceFile → Bool
same_source item file =
    item.name === file.name
    && item.size == file_size file
    && item.last_modified == file.last_modified
    && not (
        truthy file.webkit_relative_path
        && truthy (get_or_else item.relative_path [])
        && not (file.webkit_relative_path === get_or_else item.relative_path []))

-- `attachFile`, up to `await hashBlob(file)`; the reference if it waits there.
unfoldable pub attach_begin : Queue → Text → SourceFile → Queue × Option ℕ
unfolding lookup same_source
attach_begin q id file = elim (lookup q id) [
  | none ↦ (q, none)
  | some (ref, item) ↦
      if same_source item file then (update q ref (clear_error hashing), some ref) else (q, none)
]

abbrev pub attach_file : SourceFile → QueueItem → QueueItem
attach_file file item = record item { file = some file; phase = waiting; error = none }

-- After `await hashBlob(file)`: the new state, the workers started, and whether it was attached.
unfoldable pub attach_hashed : Queue → ℕ → SourceFile → Text → (Queue × List Started) × Bool
attach_hashed q ref file digest = elim (get_elem? q.heap ref) [
  | none ↦ ((q, []), false)
  | some item ↦
      if is_stopped item.phase
      then ((q, []), false)
      else if digest === item.sha256
      then (pump (update q ref (attach_file file)), true)
      else ((update q ref (set_error reselect (codes "source_changed")), []), false)
]

-- The end of `remove`, up to its last await.
unfoldable pub remove_now : Queue → Text → Queue
unfolding abort_part
remove_now q id =
    let q' = abort_part q id in
    record q' {
      items = OrderedMap.delete id q'.items;
      storage = q'.storage ++ delete_upload id ∷ [];
    }

-- `remove` after `await this.cancel(id)`: only an item in a terminal phase is removed.
unfoldable pub remove_cancelled : Queue → ℕ → Text → Queue × Bool
unfolding remove_now
remove_cancelled q ref id = elim (get_elem? q.heap ref) [
  | none ↦ (q, false)
  | some item ↦ if is_terminal item.phase then (remove_now q id, true) else (q, false)
]
