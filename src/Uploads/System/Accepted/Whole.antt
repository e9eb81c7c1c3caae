-- ===== src/Uploads/System/Accepted/Whole.antt =====
-- A worker asks for the completion only when the server has the whole file: the invariant of the
-- points of `run` in web/src/uploads/queue.ts, from the resolved status on.
use file_harbor.Base.{
  ℕ, ◌+◌, ◌*◌, ◌≤◌, ◌≡◌, refl, true, List, [], ◌∷◌, ◌++◌, Option, none, some, Option-cases, inl,
  inr, arith, if_elim, take, drop, get_elem?, get_or_else, Text, subst,
}
use file_harbor.Base.OrderedMap
use file_harbor.Uploads.Model.{
  ok, UploadStatus, SourceFile, file_size, QueueItem, UploadPhase, paused,
}
use file_harbor.Uploads.Parts.{received_indexes, has_index}
use file_harbor.Uploads.Parts.Cover.{piece, joined, joined-eq-bytes}
use file_harbor.Uploads.Queue.{Queue}
use file_harbor.Uploads.Retry.{Next, returns, throws, sleeps}
use file_harbor.Uploads.Run.{
  RunPoint, hashing_file, refreshing_status, awaiting_pending, cancelling_run, hashing_part,
  sending_part, reconciling_part, part_delay, completing, completing_delay, returned, run_stopped,
  run_resolved, stopped, part_delayed, completion_next, run_completed,
}
use file_harbor.Uploads.Cancel.{CancelPoint, cancel, cancel_done}
use file_harbor.Uploads.System.{
  Reply, digest, status, sent, progress, wake, run_cancelling, run_resume,
}
use file_harbor.Uploads.System.Accepted.{
  accepted_by, Sending, heard, hear, hear_all, resolved, held,
}
use file_harbor.Uploads.System.Valid.Tasks.{ForSome}
use file_harbor.Uploads.System.Accepted.Points.{
  AllHeld, PointHolds, Holds, run_catch-Holds, next_part-Holds, send_part-Holds, part_hashed-Holds,
  part_sent-Holds, part_reconciled-Holds,
}

module _ (file : SourceFile) (st : UploadStatus) (server : ℕ → List ℕ) where
  completion_next-Holds :
      (acc : List (ℕ × List ℕ)) (q : Queue) (ref : ℕ) (done : SourceFile) (attempt : ℕ)
      (n : Next UploadStatus)
      → AllHeld file st server acc done
      → Holds file st server acc (completion_next q ref done attempt n)
  unfolding completion_next
  completion_next-Holds acc q ref done attempt (returns s) h = tt
  completion_next-Holds acc q ref done attempt (throws e) h =
      run_catch-Holds file st server acc q ref e
  completion_next-Holds acc q ref done attempt (sleeps ms) h = h

  cancelling-Holds :
      (acc : List (ℕ × List ℕ)) (target : ℕ) (id : Text) (o : Option (Queue × CancelPoint))
      → ForSome
          (Holds file st server acc)
          (elim o [ none ↦ none | some r ↦ some (run_cancelling target id r) ])
  unfolding run_cancelling
  cancelling-Holds acc target id none = tt
  cancelling-Holds acc target id (some (q, point)) = tt

  run_resume-Holds :
      (acc : List (ℕ × List ℕ)) (q : Queue) (ref : ℕ) (point : RunPoint) (r : Reply)
      → PointHolds file st server acc point
      → ForSome (Holds file st server (accepted_by point r ++ acc)) (run_resume q ref point r)
  unfolding run_resume accepted_by
  run_resume-Holds acc q ref (hashing_part loop) (digest r) h =
      part_hashed-Holds file st server acc q ref loop r h
  run_resume-Holds acc q ref (sending_part loop d attempt c) (sent r) h =
      part_sent-Holds file st server acc q ref loop d attempt c r h
  run_resume-Holds acc q ref (sending_part loop d attempt c) (progress n) h = h
  run_resume-Holds acc q ref (reconciling_part loop d attempt c) (status r) h =
      part_reconciled-Holds file st server acc q ref loop d attempt c r h
  run_resume-Holds acc q ref (part_delay loop d attempt c) wake h =
      unfold part_delayed in send_part-Holds file st server acc _ ref loop d (attempt + 1) h
  run_resume-Holds acc q ref (completing done attempt) (status r) h =
      unfold run_completed in completion_next-Holds acc q ref done attempt _ h
  run_resume-Holds acc q ref (completing_delay done attempt) wake h = h
  run_resume-Holds acc q ref (cancelling_run target id cancel_done) wake h = tt
  run_resume-Holds acc q ref (cancelling_run target id point) r h = cancelling-Holds acc target id _
  run_resume-Holds acc q ref (hashing_file x) r h = elim h [ ]
  run_resume-Holds acc q ref (refreshing_status x) r h = elim h [ ]
  run_resume-Holds acc q ref (awaiting_pending x p) r h = elim h [ ]
  run_resume-Holds acc q ref _ _ h = tt

  heard-Holds :
      (s : Sending) (r : Reply) (o : Option (Queue × RunPoint))
      → PointHolds file st server s.accepted s.point
      → ForSome (Holds file st server (accepted_by s.point r ++ s.accepted)) o
      → PointHolds file st server (heard s r o).accepted (heard s r o).point
  unfolding heard
  heard-Holds s r none h k = h
  heard-Holds s r (some (q, point)) h k = k

  hear_all-Holds :
      (ref : ℕ) (s : Sending) (rs : List (Queue × Reply))
      → PointHolds file st server s.accepted s.point
      → PointHolds file st server (hear_all ref s rs).accepted (hear_all ref s rs).point
  unfolding hear_all hear
  hear_all-Holds ref s [] h = h
  hear_all-Holds ref s ((q, r) ∷ rs) h = hear_all-Holds ref (hear ref s (q, r)) rs (
      heard-Holds s r (run_resume q ref s.point r) h
        (run_resume-Holds s.accepted q ref s.point r h))

  run_stopped-Holds : (q : Queue) (ref : ℕ) → Holds file st server [] (run_stopped q ref)
  unfolding run_stopped
  run_stopped-Holds q ref = elim (Option-cases (get_elem? q.heap ref)) [
    | inl e ↦ rw (e, run_stopped) tt
    | inr (item, e) ↦ rw (e, run_stopped) (by_phase item item.phase)
  ]
    where
      by_phase :
          (item : QueueItem) (p : UploadPhase)
          → Holds file st server [] (elim p [
            | paused ↦
                let target = get_or_else (OrderedMap.get item.id q.items) ref in
                let (q', point) = cancel q item.id in (q', cancelling_run target item.id point)
            | _ ↦ (q, returned)
          ])
      by_phase item paused = tt
      by_phase item _ = tt

  resolved-Holds :
      (q : Queue) (ref : ℕ)
      → ((j : ℕ) → has_index (received_indexes st) j ≡ true → server j ≡ piece st file j)
      → Holds file st server [] (run_resolved q ref file (ok st))
  unfolding run_resolved held
  resolved-Holds q ref had =
      if_elim (Holds file st server []) (stopped q ref) (λ _. run_stopped-Holds q ref)
        (λ _.
          next_part-Holds file st server [] _ ref st.part_count _
            (record {
              same_file = refl;
              same_status = refl;
              before = λ j lt. absurd (omega arith);
              received = had;
            })
            (omega arith))

-- A worker whose upload has a status goes on with that status, whatever replies it hears and
-- whatever the queue has become at each. If each part of the status' ranges is on the server as it
-- is in the file, the parts are enough for the file, and the worker comes to ask for the
-- completion, then it asks for it with the same file, and the server's parts, each replaced by the
-- bytes that were last accepted from the worker for it, are the bytes of the file.
pub completing_has_file :
    (q : Queue) (ref : ℕ) (file : SourceFile) (st : UploadStatus) (server : ℕ → List ℕ)
    (replies : List (Queue × Reply)) (done : SourceFile) (attempt : ℕ)
    → ((j : ℕ)
        → has_index (received_indexes st) j ≡ true
        → server j ≡ take st.chunk_bytes (drop (j * st.chunk_bytes) file.bytes))
    → file_size file ≤ st.part_count * st.chunk_bytes
    → (hear_all ref (resolved q ref file st) replies).point ≡ completing done attempt
    → (done ≡ file)
      × (joined
            (held server (hear_all ref (resolved q ref file st) replies).accepted)
            st.part_count
            0
          ≡ file.bytes)
completing_has_file q ref file st server replies done attempt had enough here =
    let worker = hear_all ref (resolved q ref file st) replies in
    let kept =
      hear_all-Holds file st server ref (resolved q ref file st) replies
        (resolved-Holds file st server q ref had) in
    let (same, pieces) = subst (PointHolds file st server worker.accepted) here kept in
    (same, joined-eq-bytes st file (held server worker.accepted) enough pieces)
