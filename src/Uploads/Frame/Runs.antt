-- ===== src/Uploads/Frame/Runs.antt =====
-- The pieces of a worker keep the frame.
use file_harbor.Base.{
  ℕ, zero, suc, ◌+◌, refl, ◌||◌, not, some, Text, truthy, get_elem?, ◌==◌, Option-cases, if_elim,
  inl, inr, get_or_else,
}
use file_harbor.Base.OrderedMap
use file_harbor.Uploads.Model.{
  Failure, Result, ok, err, UploadStatus, SourceFile, QueueItem, UploadPhase, hashing, uploading,
  paused, failed, is_active, retryable, run_error_code,
}
use file_harbor.Uploads.Parts.{received_indexes, has_index}
use file_harbor.Uploads.Retry.{retry_step, Next, returns, throws, sleeps}
use file_harbor.Uploads.Queue.{Queue, update, set_phase, set_error}
use file_harbor.Uploads.Cancel.{cancel}
use file_harbor.Uploads.Run
use file_harbor.Uploads.Run.{
  RunPoint, PartLoop, stopped, run_catch, resolve_status, run_upload, run_start, run_hashed,
  next_part, take_status, run_stopped, run_resolved, send_part, part_hashed, part_progress,
  release_part, part_done, part_sent, part_reconciled, part_delayed, take_completion,
  completion_next, run_completed,
}
use file_harbor.Uploads.Frame.{
  Frame, Frame-refl, Frame-trans, update-Frame, write-Frame, id_of-get_elem?,
}
use file_harbor.Uploads.Frame.Cancels.{cancel-Frame}

-- A piece of work from `q` keeps the frame.
abbrev pub Keeps : Queue → Queue × RunPoint → Type 0
Keeps q r = Frame q r.0

pub run_catch-Frame : (q : Queue) (ref : ℕ) (e : Failure) → Keeps q (run_catch q ref e)
unfolding run_catch
run_catch-Frame q ref e =
    if_elim (Keeps q) (stopped q ref) (λ _. Frame-refl q)
      (λ _. update-Frame q ref (set_error failed (run_error_code e)) (λ item. refl))

resolve_status-Frame :
    (q : Queue) (file : SourceFile) (item : QueueItem) → Keeps q (resolve_status q file item)
unfolding resolve_status
resolve_status-Frame q file item = elim (Option-cases item.status) [
  | inl e ↦
      rw (e, resolve_status)
        (record { active = refl; items = refl; ids = λ i. refl; hashed = λ k. k })
  | inr (status, e) ↦
      rw (e, resolve_status)
        (if_elim (Keeps q) (is_active status.state) (λ _. Frame-refl q)
          (λ _. record { active = refl; items = refl; ids = λ i. refl; hashed = λ k. k }))
]

run_upload-Frame : (q : Queue) (ref : ℕ) (file : SourceFile) → Keeps q (run_upload q ref file)
unfolding run_upload
run_upload-Frame q ref file =
    let q' = update q ref (set_phase uploading) in
    let f = update-Frame q ref (set_phase uploading) (λ item. refl) in
    elim (Option-cases (get_elem? q'.heap ref)) [
      | inl e ↦ rw (e, run_upload) f
      | inr (item, e) ↦ rw (e, run_upload) (Frame-trans f (resolve_status-Frame q' file item))
    ]

pub run_start-Frame : (q : Queue) (ref : ℕ) → Keeps q (run_start q ref)
unfolding run_start
run_start-Frame q ref = elim (Option-cases (get_elem? q.heap ref)) [
  | inl e ↦ rw (e, run_start) (Frame-refl q)
  | inr (item, e) ↦ elim (Option-cases item.file) [
    | inl d ↦ rw (e, d, run_start) (Frame-refl q)
    | inr (file, d) ↦
        rw (e, d, run_start)
          (if_elim (Keeps q) (truthy item.sha256) (λ _. run_upload-Frame q ref file)
            (λ _. update-Frame q ref (set_phase hashing) (λ x. refl)))
  ]
]

pub run_hashed-Frame :
    (q : Queue) (ref : ℕ) (file : SourceFile) (r : Result Text) → Keeps q (run_hashed q ref file r)
unfolding run_hashed
run_hashed-Frame q ref file (err e) = run_catch-Frame q ref e
run_hashed-Frame q ref file (ok digest) =
    if_elim (Keeps q) (stopped q ref) (λ _. Frame-refl q)
      (λ _. Frame-trans (update-Frame q ref _ (λ item. refl)) (run_upload-Frame _ ref file))

pub next_part-Frame :
    (q : Queue) (ref : ℕ) (loop : PartLoop) (left : ℕ) → Keeps q (next_part q ref loop left)
unfolding next_part
next_part-Frame q ref loop zero = Frame-refl q
next_part-Frame q ref loop (suc left) =
    let rest = next_part-Frame q ref (record loop { index = loop.index + 1 }) left in
    if_elim (Keeps q) (stopped q ref) (λ _. Frame-refl q)
      (λ _. if_elim (Keeps q) (has_index loop.received loop.index) (λ _. rest) (λ _. Frame-refl q))

run_stopped-Frame : (q : Queue) (ref : ℕ) → Keeps q (run_stopped q ref)
unfolding run_stopped
run_stopped-Frame q ref = elim (Option-cases (get_elem? q.heap ref)) [
  | inl e ↦ rw (e, run_stopped) (Frame-refl q)
  | inr (item, e) ↦ rw (e, run_stopped) (by_phase item item.phase)
]
  where
    by_phase :
        (item : QueueItem) (p : UploadPhase)
        → Keeps q (elim p [
          | paused ↦
              let target = get_or_else (OrderedMap.get item.id q.items) ref in
              let (q', point) = cancel q item.id in (q', Run.cancelling_run target item.id point)
          | _ ↦ (q, Run.returned)
        ])
    by_phase item paused = cancel-Frame q item.id
    by_phase item _ = Frame-refl q

pub run_resolved-Frame :
    (q : Queue) (ref : ℕ) (file : SourceFile) (r : Result UploadStatus)
    → Keeps q (run_resolved q ref file r)
unfolding run_resolved
run_resolved-Frame q ref file (err e) = run_catch-Frame q ref e
run_resolved-Frame q ref file (ok status) =
    if_elim (Keeps q) (stopped q ref) (λ _. run_stopped-Frame q ref)
      (λ _.
        Frame-trans (update-Frame q ref (take_status status) (λ item. refl))
          (next_part-Frame _ ref _ status.part_count))

send_part-Frame :
    (q : Queue) (ref : ℕ) (loop : PartLoop) (digest : Text) (attempt : ℕ)
    → Keeps q (send_part q ref loop digest attempt)
unfolding send_part
send_part-Frame q ref loop digest attempt = elim (Option-cases (get_elem? q.heap ref)) [
  | inl e ↦ rw (e, send_part) (Frame-refl q)
  | inr (item, e) ↦
      rw (e, send_part) (record { active = refl; items = refl; ids = λ i. refl; hashed = λ k. k })
]

pub part_hashed-Frame :
    (q : Queue) (ref : ℕ) (loop : PartLoop) (r : Result Text) → Keeps q (part_hashed q ref loop r)
unfolding part_hashed
part_hashed-Frame q ref loop (err e) = run_catch-Frame q ref e
part_hashed-Frame q ref loop (ok digest) = send_part-Frame q ref loop digest 0

pub part_progress-Frame :
    (q : Queue) (ref : ℕ) (loop : PartLoop) (n : ℕ) → Frame q (part_progress q ref loop n)
unfolding part_progress
part_progress-Frame q ref loop n = update-Frame q ref _ (λ item. refl)

release_part-Frame : (q : Queue) (ref c : ℕ) → Frame q (release_part q ref c)
unfolding release_part
release_part-Frame q ref c = elim (Option-cases (get_elem? q.heap ref)) [
  | inl e ↦ rw (e, release_part) (Frame-refl q)
  | inr (item, e) ↦
      rw (e, release_part)
        (record { active = refl; items = refl; ids = λ i. refl; hashed = λ k. k })
]

part_done-Frame : (q : Queue) (ref : ℕ) (loop : PartLoop) → Keeps q (part_done q ref loop)
unfolding part_done
part_done-Frame q ref loop = next_part-Frame q ref _ _

pub part_sent-Frame :
    (q : Queue) (ref : ℕ) (loop : PartLoop) (digest : Text) (attempt c : ℕ) (r : Result (Unit {0}))
    → Keeps q (part_sent q ref loop digest attempt c r)
unfolding part_sent
part_sent-Frame q ref loop digest attempt c (ok _) =
    Frame-trans (release_part-Frame q ref c) (part_done-Frame _ ref loop)
part_sent-Frame q ref loop digest attempt c (err e) =
    if_elim (Keeps q) (stopped q ref || not (retryable e) || attempt == 2)
      (λ _. Frame-trans (release_part-Frame q ref c) (run_catch-Frame _ ref e)) (λ _. Frame-refl q)

pub part_reconciled-Frame :
    (q : Queue) (ref : ℕ) (loop : PartLoop) (digest : Text) (attempt c : ℕ)
    (r : Result UploadStatus)
    → Keeps q (part_reconciled q ref loop digest attempt c r)
unfolding part_reconciled
part_reconciled-Frame q ref loop digest attempt c (err e) = Frame-refl q
part_reconciled-Frame q ref loop digest attempt c (ok status) =
    elim (Option-cases (get_elem? q.heap ref)) [
      | inl e ↦ rw (e, part_reconciled) (Frame-refl q)
      | inr (item, e) ↦
          rw (e, part_reconciled)
            (let f =
                write-Frame q ref (record item { status = some status })
                  (id_of-get_elem? q.heap ref e) in
              if_elim (Keeps q) (has_index (received_indexes status) loop.index)
                (λ _.
                  Frame-trans (Frame-trans f (release_part-Frame _ ref c))
                    (part_done-Frame _ ref loop))
                (λ _. f))
    ]

pub part_delayed-Frame :
    (q : Queue) (ref : ℕ) (loop : PartLoop) (digest : Text) (attempt c : ℕ)
    → Keeps q (part_delayed q ref loop digest attempt c)
unfolding part_delayed
part_delayed-Frame q ref loop digest attempt c =
    Frame-trans (release_part-Frame q ref c) (send_part-Frame _ ref loop digest (attempt + 1))

completion_next-Frame :
    (q : Queue) (ref : ℕ) (file : SourceFile) (attempt : ℕ) (n : Next UploadStatus)
    → Keeps q (completion_next q ref file attempt n)
unfolding completion_next
completion_next-Frame q ref file attempt (returns status) =
    update-Frame q ref (take_completion file status) (λ item. refl)
completion_next-Frame q ref file attempt (throws e) = run_catch-Frame q ref e
completion_next-Frame q ref file attempt (sleeps ms) = Frame-refl q

pub run_completed-Frame :
    (q : Queue) (ref : ℕ) (file : SourceFile) (attempt : ℕ) (r : Result UploadStatus)
    → Keeps q (run_completed q ref file attempt r)
unfolding run_completed
run_completed-Frame q ref file attempt r =
    completion_next-Frame q ref file attempt (retry_step attempt r)
