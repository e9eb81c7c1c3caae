-- ===== src/Uploads/System/Accepted.antt =====
-- What a worker of web/src/uploads/queue.ts has brought to the server when it asks for the
-- completion of an upload. Between two replies the queue may be changed by anyone.
pub mod Finishing
pub mod Points
pub mod Whole
use file_harbor.Base.{ℕ, List, [], ◌∷◌, ◌++◌, Option, none, some, if◌then◌else◌, ◌==◌}
use file_harbor.Uploads.Model.{ok, UploadStatus, SourceFile}
use file_harbor.Uploads.Parts.{received_indexes, has_index, part_bytes}
use file_harbor.Uploads.Queue.{Queue}
use file_harbor.Uploads.Run.{RunPoint, PartLoop, sending_part, reconciling_part, run_resolved}
use file_harbor.Uploads.System.{Reply, status, sent, run_resume}

-- `index` and `bytes` of a request for a part.
unfoldable pub part_input : PartLoop → ℕ × List ℕ
part_input loop = (loop.index, part_bytes loop.status loop.file loop.index)

-- The part that a reply accepts: it answers the request for the part, or it is a status that has
-- the part's index after a failed request.
unfoldable pub accepted_by : RunPoint → Reply → List (ℕ × List ℕ)
unfolding part_input
accepted_by (sending_part loop d attempt c) (sent (ok _)) = part_input loop ∷ []
accepted_by (reconciling_part loop d attempt c) (status (ok st)) =
    if has_index (received_indexes st) loop.index then part_input loop ∷ [] else []
accepted_by _ _ = []

-- A worker, and the parts that the server has accepted from it, the last one first.
pub record Sending : Type 0 where
  pub point : RunPoint
  pub accepted : List (ℕ × List ℕ)

-- What a reply makes of the worker; it changes nothing if the worker did not wait for it.
unfoldable pub heard : Sending → Reply → Option (Queue × RunPoint) → Sending
unfolding accepted_by
heard s reply none = s
heard s reply (some (_, point)) = record {
  point = point;
  accepted = accepted_by s.point reply ++ s.accepted;
}

-- A reply reaches the worker of item `ref` while the queue is `q`.
unfoldable pub hear : ℕ → Sending → Queue × Reply → Sending
unfolding heard
hear ref s (q, reply) = heard s reply (run_resume q ref s.point reply)

-- The replies that a worker hears, each with the queue at that time.
unfoldable pub hear_all : ℕ → Sending → List (Queue × Reply) → Sending
unfolding hear
hear_all ref s [] = s
hear_all ref s (r ∷ rs) = hear_all ref (hear ref s r) rs

-- The worker when `await this.resolveStatus(item)` has given a status.
abbrev pub resolved : Queue → ℕ → SourceFile → UploadStatus → Sending
resolved q ref file st = record { point = (run_resolved q ref file (ok st)).1; accepted = [] }

-- What the server has of part `j`, if it had `server` at the beginning.
unfoldable pub held : (ℕ → List ℕ) → List (ℕ × List ℕ) → ℕ → List ℕ
held server [] j = server j
held server ((i, bytes) ∷ more) j = if i == j then bytes else held server more j
