-- ===== src/Uploads/Queue.antt =====
-- The state of `ReliableUploadQueue` (web/src/uploads/queue.ts), and the private methods that every
-- operation goes through: `notify`, `persist`, `update`, `snapshot` and the abort of a part.
-- Items are shared objects: a reference is a position in `heap`, and the map holds references.
-- Abort controllers and the promises of `resolving` are numbered in the same way.
use file_harbor.Base.{
  ℕ, suc, Bool, true, ◌&&◌, List, [], ◌∷◌, ◌++◌, Option, none, some, Text, truthy, get_elem?, set,
  if◌then◌else◌, leb,
}
use file_harbor.Base.OrderedMap
use file_harbor.Uploads.Model.{Result, UploadStatus, StoredUpload, QueueItem, UploadPhase}

-- Requests to the browser's database, in the order in which they are made.
pub data StorageRequest : Type 0 where
  put_upload : StoredUpload → StorageRequest
  delete_upload : Text → StorageRequest

pub record Queue : Type 0 where
  pub scope : Text
  pub heap : List QueueItem
  pub items : List (Text × ℕ)
  pub active : ℕ
  pub controllers : List Bool
  pub active_parts : List (Text × ℕ)
  pub promises : List (Option (Result UploadStatus))
  pub resolving : List (Text × ℕ)
  pub cancelling : List Text
  pub storage : List StorageRequest
  pub notified : ℕ

abbrev pub max_workers : ℕ
max_workers = 2

abbrev pub empty : Text → Queue
empty scope = record {
  scope = scope;
  heap = [];
  items = [];
  active = 0;
  controllers = [];
  active_parts = [];
  promises = [];
  resolving = [];
  cancelling = [];
  storage = [];
  notified = 0;
}

unfoldable pub notify : Queue → Queue
notify q = record q { notified = suc q.notified }

-- `persist`: the metadata of an item that is in the map goes to the database.
unfoldable pub persist : Queue → QueueItem → Queue
persist q item =
    if OrderedMap.has item.id q.items
    then record q { storage = q.storage ++ put_upload item.stored ∷ [] }
    else q

-- The part of `update` behind its guard.
unfoldable pub assign : Queue → ℕ → QueueItem → Queue
unfolding notify persist
assign q ref item =
    let q' = record q { heap = set q.heap ref item } in
    notify (if truthy item.sha256 then persist q' item else q')

-- `update`: nothing happens to an item whose id is no longer in the map.
unfoldable pub update : Queue → ℕ → (QueueItem → QueueItem) → Queue
unfolding assign
update q ref patch = elim (get_elem? q.heap ref) [
  | none ↦ q
  | some item ↦ if OrderedMap.has item.id q.items then assign q ref (patch item) else q
]

-- The items of the map with their references, in the order of the map.
unfoldable pub loaded : List QueueItem → List (Text × ℕ) → List (ℕ × QueueItem)
loaded heap [] = []
loaded heap ((id, ref) ∷ entries) = elim (get_elem? heap ref) [
  | none ↦ loaded heap entries
  | some item ↦ (ref, item) ∷ loaded heap entries
]

-- A stable sort by `createdAt`.
unfoldable pub insert_by_age : ℕ × QueueItem → List (ℕ × QueueItem) → List (ℕ × QueueItem)
insert_by_age e [] = e ∷ []
insert_by_age e (f ∷ es) =
    if leb (e.1).created_at (f.1).created_at then e ∷ f ∷ es else f ∷ insert_by_age e es

unfoldable pub sort_by_age : List (ℕ × QueueItem) → List (ℕ × QueueItem)
unfolding insert_by_age
sort_by_age [] = []
sort_by_age (e ∷ es) = insert_by_age e (sort_by_age es)

unfoldable pub snapshot : Queue → List (ℕ × QueueItem)
unfolding loaded sort_by_age
snapshot q = sort_by_age (loaded q.heap q.items)

-- `this.activeParts.get(id)?.abort()`
unfoldable pub abort_part : Queue → Text → Queue
abort_part q id = elim (OrderedMap.get id q.active_parts) [
  | none ↦ q
  | some c ↦ record q { controllers = set q.controllers c true }
]

-- `if (map.get(id) === ref) map.delete(id)`, on `activeParts` and on `resolving`.
unfoldable pub delete_same : Text → ℕ → List (Text × ℕ) → List (Text × ℕ)
delete_same id ref m = elim (OrderedMap.get id m) [
  | none ↦ m
  | some r ↦ if leb r ref && leb ref r then OrderedMap.delete id m else m
]

abbrev pub set_phase : UploadPhase → QueueItem → QueueItem
set_phase p item = record item { phase = p }

-- A phase, with the error taken away.
abbrev pub clear_error : UploadPhase → QueueItem → QueueItem
clear_error p item = record item { phase = p; error = none }

abbrev pub set_error : UploadPhase → Text → QueueItem → QueueItem
set_error p code item = record item { phase = p; error = some code }
