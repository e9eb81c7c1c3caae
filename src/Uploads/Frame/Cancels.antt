-- ===== src/Uploads/Frame/Cancels.antt =====
-- The pieces of `cancel` keep the frame.
use file_harbor.Base.{
  ℕ, refl, ◌||◌, Option, none, some, Text, codes, get_elem?, ◌===◌, Option-cases, if_elim, inl, inr,
  ◌++◌, ◌∷◌, [],
}
use file_harbor.Base.OrderedMap
use file_harbor.Uploads.Model.{
  Failure, Result, ok, err, UploadState, UploadStatus, active, finalizing, QueueItem, paused,
  UploadPhase, cancel_error_code, failed, is_active, is_terminal,
}
use file_harbor.Uploads.Queue.{Queue, update, abort_part, clear_error, set_phase, set_error}
use file_harbor.Uploads.Cancel.{
  CancelPoint, finish_completed, finish_cancelled, cancel_finish, cancel_known, cancel_failed,
  cancel_reconciled, cancel_fetched, cancel_requested, cancel_fetch, cancel_begin, cancel_item,
  cancel, contains_text, cancel_conflict,
}
use file_harbor.Uploads.Frame.{Frame, Frame-refl, Frame-trans, update-Frame, abort_part-Frame}

finish-Frame : {q r : Queue} (id : Text) → Frame q r → Frame q (cancel_finish r id).0
unfolding cancel_finish
finish-Frame id f = record { active = f.active; items = f.items; ids = f.ids; hashed = f.hashed }

pub cancel_known-Frame :
    (q : Queue) (ref : ℕ) (id : Text) (status : UploadStatus) (state : UploadState)
    → Frame q (cancel_known q ref id status state).0
unfolding cancel_known
cancel_known-Frame q ref id status UploadState.completed =
    finish-Frame id (update-Frame q ref (finish_completed status) (λ item. refl))
cancel_known-Frame q ref id status UploadState.cancelled =
    finish-Frame id (update-Frame q ref (finish_cancelled status) (λ item. refl))
cancel_known-Frame q ref id status active = Frame-refl q
cancel_known-Frame q ref id status finalizing = Frame-refl q

pub cancel_failed-Frame :
    (q : Queue) (ref : ℕ) (id : Text) (e : Failure) → Frame q (cancel_failed q ref id e).0
unfolding cancel_failed
cancel_failed-Frame q ref id e =
    let code = cancel_error_code e in
    if_elim (λ (r : Queue × CancelPoint). Frame q r.0)
      (code === codes "upload_cancelled" || code === codes "upload_not_found")
      (λ _. finish-Frame id (update-Frame q ref (set_phase UploadPhase.cancelled) (λ item. refl)))
      (λ _.
        if_elim (λ (r : Queue × CancelPoint). Frame q r.0) (code === codes "upload_conflict")
          (λ _. Frame-refl q)
          (λ _. finish-Frame id (update-Frame q ref (set_error failed code) (λ item. refl))))

failed-Frame :
    (q : Queue) (ref : ℕ) (id code : Text)
    → Frame q (cancel_finish (update q ref (set_error failed code)) id).0
failed-Frame q ref id code =
    finish-Frame id (update-Frame q ref (set_error failed code) (λ item. refl))

cancel_conflict-Frame :
    (q : Queue) (ref : ℕ) (id : Text) (status : UploadStatus) (state : UploadState)
    → Frame q (cancel_conflict q ref id status state).0
unfolding cancel_conflict
cancel_conflict-Frame q ref id status UploadState.completed =
    finish-Frame id (update-Frame q ref (finish_completed status) (λ item. refl))
cancel_conflict-Frame q ref id status _ = failed-Frame q ref id (codes "upload_conflict")

pub cancel_reconciled-Frame :
    (q : Queue) (ref : ℕ) (id : Text) (r : Result UploadStatus)
    → Frame q (cancel_reconciled q ref id r).0
cancel_reconciled-Frame q ref id (err e) =
    unfold cancel_reconciled in failed-Frame q ref id (codes "upload_conflict")
cancel_reconciled-Frame q ref id (ok status) =
    unfold cancel_reconciled in cancel_conflict-Frame q ref id status status.state

pub cancel_fetched-Frame :
    (q : Queue) (ref : ℕ) (id : Text) (r : Result UploadStatus)
    → Frame q (cancel_fetched q ref id r).0
cancel_fetched-Frame q ref id (ok status) =
    unfold cancel_fetched in cancel_known-Frame q ref id status status.state
cancel_fetched-Frame q ref id (err e) = unfold cancel_fetched in cancel_failed-Frame q ref id e

pub cancel_requested-Frame :
    (q : Queue) (ref : ℕ) (id : Text) (status : UploadStatus) (r : Result (Unit {0}))
    → Frame q (cancel_requested q ref id status r).0
cancel_requested-Frame q ref id status (ok _) =
    unfold cancel_requested in
    finish-Frame id (update-Frame q ref (finish_cancelled status) (λ item. refl))
cancel_requested-Frame q ref id status (err e) =
    unfold cancel_requested in cancel_failed-Frame q ref id e

cancel_fetch-Frame : (q : Queue) (id : Text) → Frame q (cancel_fetch q id).0
unfolding cancel_fetch
cancel_fetch-Frame q id = elim (Option-cases (OrderedMap.get id q.resolving)) [
  | inl e ↦ rw (e, cancel_fetch) (Frame-refl q)
  | inr (p, e) ↦ rw (e, cancel_fetch) (Frame-refl q)
]

cancel_begin-Frame :
    (q : Queue) (ref : ℕ) (id : Text) (status : Option UploadStatus)
    → Frame q (cancel_begin q ref id status).0
unfolding cancel_begin
cancel_begin-Frame q ref id none = cancel_fetch-Frame q id
cancel_begin-Frame q ref id (some status) =
    if_elim (λ (r : Queue × CancelPoint). Frame q r.0) (is_active status.state)
      (λ _. cancel_fetch-Frame q id) (λ _. cancel_known-Frame q ref id status status.state)

pub cancel_item-Frame :
    (q : Queue) (ref : ℕ) (item : QueueItem) (id : Text) → Frame q (cancel_item q ref item id).0
unfolding cancel_item
cancel_item-Frame q ref item id =
    if_elim (λ (r : Queue × CancelPoint). Frame q r.0)
      (is_terminal item.phase || contains_text id q.cancelling) (λ _. Frame-refl q)
      (λ _.
        let marked : Queue = record q { cancelling = q.cancelling ++ id ∷ [] } in
        let f : Frame q marked = record {
          active = refl;
          items = refl;
          ids = λ i. refl;
          hashed = λ k. k;
        } in
        let g = abort_part-Frame marked id in
        let h = update-Frame (abort_part marked id) ref (clear_error paused) (λ x. refl) in
        Frame-trans (Frame-trans f (Frame-trans g h)) (cancel_begin-Frame _ ref id item.status))

pub cancel-Frame : (q : Queue) (id : Text) → Frame q (cancel q id).0
unfolding cancel
cancel-Frame q id = elim (Option-cases (OrderedMap.get id q.items)) [
  | inl e ↦ rw (e, cancel) (Frame-refl q)
  | inr (ref, e) ↦ elim (Option-cases (get_elem? q.heap ref)) [
    | inl d ↦ rw (e, d, cancel) (Frame-refl q)
    | inr (item, d) ↦ rw (e, d, cancel) (cancel_item-Frame q ref item id)
  ]
]
