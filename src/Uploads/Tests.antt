-- ===== src/Uploads/Tests.antt =====
-- Runs of the upload queue on small inputs.
use file_harbor.Base.{
  ℕ, zero, suc, ◌*◌, true, take, drop, ◌≡◌, refl, ◌⊎◌, List, [], ◌∷◌, ◌++◌, none, codes, arith, leb,
  ◌&&◌, any, append-nil, append_assoc, if◌then◌else◌, ◌==◌,
}
use file_harbor.Base.Int.{pos}
use file_harbor.Base.OrderedMap
use file_harbor.Uploads.Model.{
  api_error, Result, ok, err, UploadStatus, SourceFile, QueueItem, UploadState,
}
use file_harbor.Uploads.Hash.{StreamingHash, hash_blob, hash_blob-eq-digest}
use file_harbor.Uploads.Parts.{
  has_index, received_indexes, completed_bytes, has_index-received_indexes,
}
use file_harbor.Uploads.Parts.Cover.{joined}
use file_harbor.Uploads.Parts.Progress.{
  below, bytes_of, completed_bytes-resumed, completed_bytes-fresh,
}
use file_harbor.Uploads.Retry.{retry}
use file_harbor.Uploads.Retry.Laws.{StopsAt, retry-StopsAt}
use file_harbor.Uploads.Queue.{Queue, empty, max_workers, snapshot, update}
use file_harbor.Uploads.Cancel.Outcomes.{AfterAwaits, cancel-EndsItem}
use file_harbor.Uploads.Run.{
  PartLoop, hashing_file, hashing_part, completing, next_part, stopped, run_start, run_resolved,
  part_hashed, part_sent, part_reconciled, part_delayed,
}
use file_harbor.Uploads.Run.Sending.{SendsPart, AllReceived, next_part-sends}
use file_harbor.Uploads.Operations.{
  Addition, add_directory_files, new_item, pump, next_waiting, pause, resume,
}
use file_harbor.Uploads.Operations.Pumping.{pump_full}
use file_harbor.Uploads.System.{
  run_resume, Reply, digest, sent, progress, wake, worker, Event, call_add, call_pause, call_resume,
  start, run_events, react,
}
use file_harbor.Uploads.System.Accepted.{hear_all, resolved, held}
use file_harbor.Uploads.System.Accepted.Whole.{completing_has_file}
use file_harbor.Uploads.System.Valid.{IsValid, run_events-IsValid}

abbrev report : SourceFile
report = record {
  name = codes "a.txt";
  last_modified = 7;
  webkit_relative_path = [];
  bytes = 1 ∷ 2 ∷ 3 ∷ [];
}

abbrev pub addition : Addition
addition = record {
  file = report;
  relative_path = codes "docs/a.txt";
  fresh_id = codes "id";
  fresh_token = codes "token";
  now = 5;
}

abbrev paused_and_resumed : List Event
paused_and_resumed =
    call_add (addition ∷ []) (codes "inbox")
    ∷ call_pause (codes "id")
    ∷ call_resume (codes "id")
    ∷ []

-- While the first worker still hashes the file, a pause and a resume start a second worker for
-- the same item.
second_worker :
    (run_events (start (codes "scope")) paused_and_resumed).tasks
    ≡ worker 0 (hashing_file report) ∷ worker 0 (hashing_file report) ∷ []
unfolding react add_directory_files next_waiting snapshot OrderedMap.put new_item run_start update
    OrderedMap.has resume pause
second_worker = refl

run_events-IsValid_example : IsValid (run_events (start (codes "scope")) paused_and_resumed)
run_events-IsValid_example = run_events-IsValid (codes "scope") paused_and_resumed

abbrev status : UploadStatus
status = record {
  id = codes "id";
  path = [];
  name = codes "a.txt";
  size = 3;
  chunk_bytes = 2;
  part_count = 2;
  received = record { start = 0; end = 0 } ∷ [];
  received_bytes = 2;
  state = UploadState.active;
  expires_at = [];
  final_sha256 = none;
  final_path = none;
}

abbrev second_loop : PartLoop
second_loop = record { file = report; status = status; received = 0 ∷ []; index = 1 }

-- One of two parts was there: while the second is sent, four of three bytes show.
completed_bytes-resumed_example : completed_bytes status 3 (0 ∷ []) 1 ≡ pos 4
unfolding bytes_of
completed_bytes-resumed_example =
    completed_bytes-resumed status 3 1 (0 ∷ []) [] (unfold bytes_of in refl)
      (record { before = omega arith; within = omega arith }, tt)

abbrev fresh_status : UploadStatus
fresh_status = record status { received = []; received_bytes = 0 }

completed_bytes-fresh_example : completed_bytes fresh_status 3 (below 1) 1 ≡ pos 2
completed_bytes-fresh_example = completed_bytes-fresh fresh_status 3 1 refl (omega arith)

has_index-received_indexes_example :
    has_index (received_indexes status) 0 ≡ any (λ r. leb r.start 0 && leb 0 r.end) status.received
has_index-received_indexes_example = has_index-received_indexes status 0

-- A hash that keeps all that it was fed.
abbrev keeping : StreamingHash
keeping = record {
  State = List ℕ;
  create = [];
  update = λ s a. s ++ a;
  digest = λ s. s;
  update-nil = λ s. append-nil s;
  update-update = λ s a b. append_assoc s a b;
}

hash_blob-eq-digest_example : hash_blob keeping (1 ∷ 2 ∷ 3 ∷ []) 2 ≡ 1 ∷ 2 ∷ 3 ∷ []
hash_blob-eq-digest_example = hash_blob-eq-digest keeping (1 ∷ 2 ∷ 3 ∷ []) 2 (omega arith)

abbrev busy_server : ℕ → Result ℕ
busy_server attempt = if attempt == 0 then err (api_error 503 (codes "busy")) else ok 9

retry-StopsAt_example : (last : ℕ) × StopsAt busy_server (retry busy_server) last
retry-StopsAt_example = retry-StopsAt busy_server

abbrev pub report_item : QueueItem
report_item = new_item (codes "scope") (codes "inbox") addition

-- A queue with one item, in a given phase, whose id is being cancelled.
abbrev pub queue_with : QueueItem → Queue
queue_with item = record (empty (codes "scope")) {
  heap = item ∷ [];
  items = (item.id, 0) ∷ [];
  cancelling = item.id ∷ [];
}

abbrev waiting_queue : Queue
waiting_queue = queue_with report_item

next_part-sends_example :
    ((i : ℕ) × SendsPart second_loop 1 i
      × (next_part waiting_queue 0 second_loop 1
          ≡ (waiting_queue, hashing_part (record second_loop { index = i }))))
    ⊎ (AllReceived second_loop 1
        × (next_part waiting_queue 0 second_loop 1 ≡ (waiting_queue, completing report 0)))
next_part-sends_example =
    next_part-sends waiting_queue 0 1 second_loop (unfold stopped new_item in refl)

cancel-EndsItem_example :
    AfterAwaits waiting_queue 0
      (codes "id")
      status
      (ok status)
      (err (api_error 0 (codes "network")))
      (ok tt)
cancel-EndsItem_example =
    cancel-EndsItem waiting_queue 0 (codes "id") report_item (unfold new_item in refl)
      (unfold OrderedMap.has OrderedMap.get new_item in refl) status (ok status)
      (err (api_error 0 (codes "network"))) (ok tt)

pump_full_example :
    (((pump waiting_queue).0).active ≡ max_workers) ⊎ (next_waiting (pump waiting_queue).0 ≡ none)
pump_full_example = pump_full waiting_queue (omega arith)

-- The server has the first of two parts. The second is refused once, is still missing then, and
-- is accepted at the second attempt.
abbrev first_part : ℕ → List ℕ
first_part j = if j == 0 then 1 ∷ 2 ∷ [] else []

abbrev replies : List (Queue × Reply)
replies =
    (waiting_queue, digest (ok (codes "d")))
    ∷ (waiting_queue, sent (err (api_error 503 (codes "busy"))))
    ∷ (waiting_queue, Reply.status (ok status))
    ∷ (waiting_queue, wake)
    ∷ (waiting_queue, progress 1)
    ∷ (waiting_queue, sent (ok tt))
    ∷ []

first_part_held :
    (j : ℕ)
    → has_index (received_indexes status) j ≡ true
    → first_part j ≡ take 2 (drop (j * 2) (1 ∷ 2 ∷ 3 ∷ []))
first_part_held zero h = refl
first_part_held (suc j) h = absurd (ground (arith, has_index-received_indexes status (suc j)))

completing_has_file_example :
    (report ≡ report)
    × (joined
          (held first_part (hear_all 0 (resolved waiting_queue 0 report status) replies).accepted)
          2
          0
        ≡ 1 ∷ 2 ∷ 3 ∷ [])
unfolding run_resume run_resolved new_item update OrderedMap.has has_index received_indexes
    part_hashed part_sent part_reconciled part_delayed
completing_has_file_example =
    completing_has_file waiting_queue 0 report status first_part replies report 0 first_part_held
      (omega arith) (unfold hear_all in refl)

-- With a queue for each of the two parts, though only one is missing.
abbrev two_queues : List Queue
two_queues = waiting_queue ∷ waiting_queue ∷ []
