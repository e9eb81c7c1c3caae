-- ===== src/Uploads/Cancel/Outcomes.antt =====
-- How a call of `cancel` ends.
use file_harbor.Base.{
  ℕ, ◌≡◌, refl, ◌⊎◌, inl, inr, Bool, true, false, ◌||◌, List, some, Text, codes, get_elem?, set,
  arith, Bool-cases, if_elim, get_elem?-set_self, lt-length_of_get_elem?, truthy, ◌===◌, filter,
  not, [], ◌∷◌,
}
use file_harbor.Base.OrderedMap
use file_harbor.Uploads.Model.{
  Failure, Result, ok, err, UploadStatus, UploadState, active, finalizing, QueueItem, UploadPhase,
  failed, cancel_error_code,
}
use file_harbor.Uploads.Queue.{Queue, assign, persist, update, set_phase, set_error, notify}
use file_harbor.Uploads.Cancel.{
  CancelPoint, requesting_cancel, reconciling_conflict, contains_text, cancel_done, cancel_finish,
  finish_completed, finish_cancelled, cancel_known, cancel_failed, cancel_conflict,
  cancel_reconciled, cancel_fetched, cancel_requested,
}

persist-heap : (q : Queue) (item : QueueItem) → (persist q item).heap ≡ q.heap
unfolding persist
persist-heap q item =
    if_elim (λ (r : Queue). r.heap ≡ q.heap) (OrderedMap.has item.id q.items) (λ _. refl)
      (λ _. refl)

assign-heap :
    (q : Queue) (ref : ℕ) (item : QueueItem) → (assign q ref item).heap ≡ set q.heap ref item
unfolding assign
assign-heap q ref item = elim (Bool-cases (truthy item.sha256)) [
  | inl h ↦
      rw (h, assign) (unfold notify in persist-heap (record q { heap = set q.heap ref item }) item)
  | inr h ↦ rw (h, assign) (unfold notify in refl)
]

-- `update` writes the patched item, if the item's id is in the map.
pub update-get :
    (q : Queue) (ref : ℕ) (patch : QueueItem → QueueItem) (item : QueueItem)
    → get_elem? q.heap ref ≡ some item
    → OrderedMap.has item.id q.items ≡ true
    → get_elem? (update q ref patch).heap ref ≡ some (patch item)
unfolding update
update-get q ref patch item found there =
    rw (found, update, there, assign-heap q ref (patch item))
      (get_elem?-set_self q.heap ref (patch item) (lt-length_of_get_elem? q.heap ref found))

-- Completed, cancelled or failed.
abbrev pub has_ended : UploadPhase → Bool
has_ended UploadPhase.completed = true
has_ended UploadPhase.cancelled = true
has_ended failed = true
has_ended _ = false

-- The call is over: its item is in one of the three phases, and the id may be cancelled again.
pub record EndsItem (ref : ℕ) (id : Text) (r : Queue × CancelPoint) : Type 0 where
  pub over : r.1 ≡ cancel_done
  pub ended : (x : QueueItem) × (get_elem? (r.0).heap ref ≡ some x) × (has_ended x.phase ≡ true)
  pub free : contains_text id (r.0).cancelling ≡ false

-- The call goes on to one of its two other requests, with the queue as it was.
abbrev WaitsWith : Queue → Queue × CancelPoint → Type 0
WaitsWith q r =
    ((st : UploadStatus) × (r ≡ (q, requesting_cancel st))) ⊎ (r ≡ (q, reconciling_conflict))

-- Where a call goes with what its three requests answer.
pub record AfterAwaits (q : Queue) (ref : ℕ) (id : Text) (status : UploadStatus)
    (fetched reconciled : Result UploadStatus) (requested : Result (Unit {0})) : Type 0 where
  pub fetch :
      EndsItem ref id (cancel_fetched q ref id fetched)
      ⊎ WaitsWith q (cancel_fetched q ref id fetched)
  pub request :
      EndsItem ref id (cancel_requested q ref id status requested)
      ⊎ (cancel_requested q ref id status requested ≡ (q, reconciling_conflict))
  pub conflict : EndsItem ref id (cancel_reconciled q ref id reconciled)

contains_text-filter :
    (id : Text) (xs : List Text) → contains_text id (filter (λ j. not (j === id)) xs) ≡ false
contains_text-filter id [] = refl
contains_text-filter id (x ∷ xs) = ground (arith, contains_text-filter id xs)

module _ (q : Queue) (ref : ℕ) (id : Text) (item : QueueItem)
    (found : get_elem? q.heap ref ≡ some item) (there : OrderedMap.has item.id q.items ≡ true) where
  finish-EndsItem :
      (patch : QueueItem → QueueItem)
      → has_ended (patch item).phase ≡ true
      → EndsItem ref id (cancel_finish (update q ref patch) id)
  unfolding cancel_finish
  finish-EndsItem patch h = record {
    over = refl;
    ended = (patch item, update-get q ref patch item found there, h);
    free = contains_text-filter id (update q ref patch).cancelling;
  }

  cancel_known-EndsItem :
      (status : UploadStatus) (state : UploadState)
      → EndsItem ref id (cancel_known q ref id status state)
        ⊎ (cancel_known q ref id status state ≡ (q, requesting_cancel status))
  unfolding cancel_known
  cancel_known-EndsItem status UploadState.completed =
      inl (finish-EndsItem (finish_completed status) refl)
  cancel_known-EndsItem status UploadState.cancelled =
      inl (finish-EndsItem (finish_cancelled status) refl)
  cancel_known-EndsItem status active = inr refl
  cancel_known-EndsItem status finalizing = inr refl

  cancel_failed-EndsItem :
      (e : Failure)
      → EndsItem ref id (cancel_failed q ref id e)
        ⊎ (cancel_failed q ref id e ≡ (q, reconciling_conflict))
  unfolding cancel_failed
  cancel_failed-EndsItem e =
      let code = cancel_error_code e in
      if_elim ends_or_waits (code === codes "upload_cancelled" || code === codes "upload_not_found")
        (λ _. inl (finish-EndsItem (set_phase UploadPhase.cancelled) refl))
        (λ _.
          if_elim ends_or_waits (code === codes "upload_conflict") (λ _. inr refl)
            (λ _. inl (finish-EndsItem (set_error failed code) refl)))
    where
      ends_or_waits : Queue × CancelPoint → Type 0
      ends_or_waits r = EndsItem ref id r ⊎ (r ≡ (q, reconciling_conflict))

  cancel_conflict-EndsItem :
      (status : UploadStatus) (state : UploadState)
      → EndsItem ref id (cancel_conflict q ref id status state)
  unfolding cancel_conflict
  cancel_conflict-EndsItem status UploadState.completed =
      finish-EndsItem (finish_completed status) refl
  cancel_conflict-EndsItem status _ =
      finish-EndsItem (set_error failed (codes "upload_conflict")) refl

  after_fetch :
      (r : Result UploadStatus)
      → EndsItem ref id (cancel_fetched q ref id r) ⊎ WaitsWith q (cancel_fetched q ref id r)
  unfolding cancel_fetched
  after_fetch (ok st) = elim (cancel_known-EndsItem st st.state) [
    | inl e ↦ inl e
    | inr w ↦ inr (inl (st, w))
  ]
  after_fetch (err e) = elim (cancel_failed-EndsItem e) [ inl f ↦ inl f | inr w ↦ inr (inr w) ]

  after_request :
      (status : UploadStatus) (r : Result (Unit {0}))
      → EndsItem ref id (cancel_requested q ref id status r)
        ⊎ (cancel_requested q ref id status r ≡ (q, reconciling_conflict))
  unfolding cancel_requested
  after_request status (ok _) = inl (finish-EndsItem (finish_cancelled status) refl)
  after_request status (err e) = cancel_failed-EndsItem e

  after_conflict : (r : Result UploadStatus) → EndsItem ref id (cancel_reconciled q ref id r)
  unfolding cancel_reconciled
  after_conflict (ok st) = cancel_conflict-EndsItem st st.state
  after_conflict (err e) = finish-EndsItem (set_error failed (codes "upload_conflict")) refl

  -- Where a call of `cancel` goes from each of its awaits, with its item's id in the map. After a
  -- status it is over, asks to cancel, or fetches the status of a conflict; after the answer to
  -- the request it is over or fetches that status; after that status it is over in every case.
  -- Where it is over, its item is completed, cancelled or failed and its id is no longer being
  -- cancelled; where it goes on, the queue is as it was.
  pub cancel-EndsItem :
      (status : UploadStatus) (fetched reconciled : Result UploadStatus)
      (requested : Result (Unit {0}))
      → AfterAwaits q ref id status fetched reconciled requested
  cancel-EndsItem status fetched reconciled requested = record {
    fetch = after_fetch fetched;
    request = after_request status requested;
    conflict = after_conflict reconciled;
  }
