-- ===== src/Uploads/System/Accepted/Finishing.antt =====
-- A worker of web/src/uploads/queue.ts whose requests all succeed comes to ask for the completion.
use file_harbor.Base.{ℕ, ◌≡◌, false, List, [], ◌∷◌, some, get_elem?, Text}
use file_harbor.Base.OrderedMap
use file_harbor.Uploads.Model.{ok, QueueItem, is_stopped}
use file_harbor.Uploads.Queue.{Queue}
use file_harbor.Uploads.Run.{RunPoint}
use file_harbor.Uploads.System.{Reply, digest, sent}
use file_harbor.Uploads.System.Accepted.{hear_all}

-- The item is there, and neither paused nor cancelled.
abbrev pub IsRunning : ℕ → Queue → Type 0
IsRunning ref q =
    (item : QueueItem) × (get_elem? q.heap ref ≡ some item) × (is_stopped item.phase ≡ false)

-- Two replies for each of the queues: the digest of a part, and the end of its request.
unfoldable pub good_replies : Text → List Queue → List (Queue × Reply)
good_replies d [] = []
good_replies d (q ∷ qs) = (q, digest (ok d)) ∷ (q, sent (ok tt)) ∷ good_replies d qs

module _ (ref : ℕ) (d : Text) where
  abbrev after : RunPoint → List (ℕ × List ℕ) → List Queue → RunPoint
  after point acc qs =
      (hear_all ref (record { point = point; accepted = acc }) (good_replies d qs)).point
