-- ===== src/Uploads/System/Accepted/Points.antt =====
-- What holds at the points of `run` in web/src/uploads/queue.ts, from the resolved status on: the
-- parts that the loop has passed are on the server.
use file_harbor.Base.{
  ℕ, zero, suc, ◌+◌, ◌-◌, ◌≤◌, ◌<◌, ◌≡◌, true, false, List, ◌∷◌, ◌++◌, Option-cases, Bool-cases,
  inl, inr, arith, if_elim, ◌==◌, ◌||◌, get_elem?, Text, not, dec_lt,
}
use file_harbor.Uploads.Model.{Result, ok, err, UploadStatus, SourceFile, Failure, retryable}
use file_harbor.Uploads.Parts.{received_indexes, has_index, has_index-add_index}
use file_harbor.Uploads.Parts.Cover.{piece, part_bytes-eq-piece}
use file_harbor.Uploads.Queue.{Queue}
use file_harbor.Uploads.Run.{
  RunPoint, PartLoop, cancelling_run, hashing_part, sending_part, reconciling_part, part_delay,
  completing, completing_delay, returned, run_catch, stopped, next_part, send_part, part_hashed,
  part_done, part_sent, part_reconciled,
}
use file_harbor.Uploads.System.{status, sent}
use file_harbor.Uploads.System.Accepted.{part_input, accepted_by, held}

module _ (file : SourceFile) (st : UploadStatus) (server : ℕ → List ℕ) where
  -- The server has part `j` as it is in the file.
  abbrev pub IsHeld : List (ℕ × List ℕ) → ℕ → Type 0
  IsHeld acc j = held server acc j ≡ piece st file j

  -- At a point of the loop over the parts.
  pub record LoopHolds (acc : List (ℕ × List ℕ)) (loop : PartLoop) : Type 0 where
    pub same_file : loop.file ≡ file
    pub same_status : loop.status ≡ st
    pub before : (j : ℕ) → j < loop.index → IsHeld acc j
    pub received : (j : ℕ) → has_index loop.received j ≡ true → IsHeld acc j

  -- At a request for the completion.
  abbrev pub AllHeld : List (ℕ × List ℕ) → SourceFile → Type 0
  AllHeld acc done = (done ≡ file) × ((j : ℕ) → j < st.part_count → IsHeld acc j)

  -- At each point after the status is resolved; no other point is reached.
  abbrev pub PointHolds : List (ℕ × List ℕ) → RunPoint → Type 0
  PointHolds acc (hashing_part loop) = LoopHolds acc loop
  PointHolds acc (sending_part loop d attempt c) = LoopHolds acc loop
  PointHolds acc (reconciling_part loop d attempt c) = LoopHolds acc loop
  PointHolds acc (part_delay loop d attempt c) = LoopHolds acc loop
  PointHolds acc (completing done attempt) = AllHeld acc done
  PointHolds acc (completing_delay done attempt) = AllHeld acc done
  PointHolds acc (cancelling_run target id point) = Unit
  PointHolds acc returned = Unit
  PointHolds acc _ = ⊥

  abbrev pub Holds : List (ℕ × List ℕ) → Queue × RunPoint → Type 0
  Holds acc r = PointHolds acc r.1

  pub run_catch-Holds :
      (acc : List (ℕ × List ℕ)) (q : Queue) (ref : ℕ) (e : Failure) → Holds acc (run_catch q ref e)
  unfolding run_catch
  run_catch-Holds acc q ref e = if_elim (Holds acc) (stopped q ref) (λ _. tt) (λ _. tt)

  to_next :
      {acc : List (ℕ × List ℕ)} (loop : PartLoop)
      → LoopHolds acc loop
      → has_index loop.received loop.index ≡ true
      → LoopHolds acc (record loop { index = loop.index + 1 })
  to_next loop h there = record {
    same_file = h.same_file;
    same_status = h.same_status;
    before = λ j lt. elim (dec_lt j loop.index) [
      | yes l ↦ h.before j l
      | no ge ↦ let same : j ≡ loop.index = omega arith in rw same (h.received loop.index there)
    ];
    received = h.received;
  }

  pub next_part-Holds :
      (acc : List (ℕ × List ℕ)) (q : Queue) (ref left : ℕ) (loop : PartLoop)
      → LoopHolds acc loop
      → st.part_count ≤ loop.index + left
      → Holds acc (next_part q ref loop left)
  unfolding next_part
  next_part-Holds acc q ref zero loop h enough =
      (h.same_file, λ j lt. h.before j (omega (arith, enough)))
  next_part-Holds acc q ref (suc left) loop h enough =
      let later : PartLoop = record loop { index = loop.index + 1 } in
      if_elim (Holds acc) (stopped q ref) (λ _. tt)
        (λ _.
          if_elim (Holds acc) (has_index loop.received loop.index)
            (λ there. next_part-Holds acc q ref left later (to_next loop h there) (omega arith))
            (λ _. h))

  pub send_part-Holds :
      (acc : List (ℕ × List ℕ)) (q : Queue) (ref : ℕ) (loop : PartLoop) (d : Text) (attempt : ℕ)
      → LoopHolds acc loop
      → Holds acc (send_part q ref loop d attempt)
  unfolding send_part
  send_part-Holds acc q ref loop d attempt h = elim (Option-cases (get_elem? q.heap ref)) [
    | inl e ↦ rw (e, send_part) tt
    | inr (item, e) ↦ rw (e, send_part) h
  ]

  pub part_hashed-Holds :
      (acc : List (ℕ × List ℕ)) (q : Queue) (ref : ℕ) (loop : PartLoop) (r : Result Text)
      → LoopHolds acc loop
      → Holds acc (part_hashed q ref loop r)
  unfolding part_hashed
  part_hashed-Holds acc q ref loop (err e) h = run_catch-Holds acc q ref e
  part_hashed-Holds acc q ref loop (ok d) h = send_part-Holds acc q ref loop d 0 h

  -- The part that was accepted is the file's piece, and the other parts stay.
  accept-IsHeld :
      (acc : List (ℕ × List ℕ)) (loop : PartLoop) (j : ℕ)
      → LoopHolds acc loop
      → (((loop.index == j) ≡ false) → IsHeld acc j)
      → IsHeld (part_input loop ∷ acc) j
  unfolding part_input held
  accept-IsHeld acc loop j h other = elim (Bool-cases (loop.index == j)) [
    | inl same ↦
        let e : loop.index ≡ j = ground arith in
        rw (same, h.same_status, h.same_file, e) (part_bytes-eq-piece st file j)
    | inr differs ↦ rw differs (other differs)
  ]

  part_done-Holds :
      (acc : List (ℕ × List ℕ)) (q : Queue) (ref : ℕ) (loop : PartLoop)
      → LoopHolds acc loop
      → Holds (part_input loop ∷ acc) (part_done q ref loop)
  unfolding part_done
  part_done-Holds acc q ref loop h =
      next_part-Holds (part_input loop ∷ acc) q ref (loop.status.part_count - (loop.index + 1)) _
        (record {
          same_file = h.same_file;
          same_status = h.same_status;
          before = λ j lt. accept-IsHeld acc loop j h (λ differs. h.before j (ground arith));
          received = λ j e. accept-IsHeld acc loop j h (λ differs.
              h.received j (ground (arith, has_index-add_index loop.received loop.index j)));
        })
        (rw h.same_status (omega arith))

  pub part_sent-Holds :
      (acc : List (ℕ × List ℕ)) (q : Queue) (ref : ℕ) (loop : PartLoop) (d : Text) (attempt c : ℕ)
      (r : Result (Unit {0}))
      → LoopHolds acc loop
      → Holds
          (accepted_by (sending_part loop d attempt c) (sent r) ++ acc)
          (part_sent q ref loop d attempt c r)
  unfolding part_sent accepted_by
  part_sent-Holds acc q ref loop d attempt c (ok _) h = part_done-Holds acc _ ref loop h
  part_sent-Holds acc q ref loop d attempt c (err e) h =
      if_elim (Holds acc) (stopped q ref || not (retryable e) || attempt == 2)
        (λ _. run_catch-Holds acc _ ref e) (λ _. h)

  pub part_reconciled-Holds :
      (acc : List (ℕ × List ℕ)) (q : Queue) (ref : ℕ) (loop : PartLoop) (d : Text) (attempt c : ℕ)
      (r : Result UploadStatus)
      → LoopHolds acc loop
      → Holds
          (accepted_by (reconciling_part loop d attempt c) (status r) ++ acc)
          (part_reconciled q ref loop d attempt c r)
  unfolding part_reconciled accepted_by
  part_reconciled-Holds acc q ref loop d attempt c (err e) h = h
  part_reconciled-Holds acc q ref loop d attempt c (ok s) h =
      elim (Option-cases (get_elem? q.heap ref)) [
        | inl e ↦ rw (e, part_reconciled) tt
        | inr (item, e) ↦ elim (Bool-cases (has_index (received_indexes s) loop.index)) [
          | inl there ↦ rw (e, there, part_reconciled) (part_done-Holds acc _ ref loop h)
          | inr missing ↦ rw (e, missing, part_reconciled) h
        ]
      ]
