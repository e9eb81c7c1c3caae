-- ===== src/Uploads/Frame.antt =====
-- What every piece of asynchronous work leaves alone: the number of places taken, the map of
-- items, the ids of all item objects. And the database only receives hashed uploads.
pub mod Cancels
pub mod Runs
use file_harbor.Base.{
  ℕ, zero, suc, ◌+◌, ◌≡◌, refl, sym, ◌∙◌, ap, ◌⊎◌, inl, inr, Bool, true, false, ◌&&◌, ◌||◌, not,
  List, [], ◌∷◌, ◌++◌, Option, none, some, Text, truthy, length, get_elem?, set, if◌then◌else◌,
  ◌==◌, arith, Bool-cases, Option-cases, All, All-append, length-set, get_elem?-set_self,
  get_elem?-set_ne, lt-length_of_get_elem?, ◌≢◌, ◌===◌,
}
use file_harbor.Base.OrderedMap
use file_harbor.Uploads.Model.{StoredUpload, QueueItem}
use file_harbor.Uploads.Queue.{
  Queue, StorageRequest, put_upload, delete_upload, notify, persist, assign, update, abort_part,
}

-- The id of the object at a position of the heap.
abbrev pub id_of : List QueueItem → ℕ → Option Text
id_of [] i = none
id_of (item ∷ heap) zero = some item.id
id_of (item ∷ heap) (suc i) = id_of heap i

abbrev pub id_at : Queue → ℕ → Option Text
id_at q ref = id_of q.heap ref

pub id_of-get_elem? :
    (heap : List QueueItem) (ref : ℕ) {item : QueueItem}
    → get_elem? heap ref ≡ some item
    → id_of heap ref ≡ some item.id
id_of-get_elem? [] ref e = cc
id_of-get_elem? (x ∷ heap) zero e = ground arith
id_of-get_elem? (x ∷ heap) (suc ref) e = id_of-get_elem? heap ref e

id_of-set :
    (heap : List QueueItem) (ref i : ℕ) (new : QueueItem)
    → id_of heap ref ≡ some new.id
    → id_of (set heap ref new) i ≡ id_of heap i
id_of-set [] ref i new e = refl
id_of-set (x ∷ heap) zero zero new e = sym e
id_of-set (x ∷ heap) zero (suc i) new e = refl
id_of-set (x ∷ heap) (suc ref) zero new e = refl
id_of-set (x ∷ heap) (suc ref) (suc i) new e = id_of-set heap ref i new e

-- A request that stores an upload stores its digest.
abbrev pub IsHashed : StorageRequest → Type 0
IsHashed (put_upload s) = truthy s.sha256 ≡ true
IsHashed (delete_upload id) = Unit

pub record Frame (q r : Queue) : Type 0 where
  pub active : r.active ≡ q.active
  pub items : r.items ≡ q.items
  pub ids : (ref : ℕ) → id_at r ref ≡ id_at q ref
  pub hashed : All IsHashed q.storage → All IsHashed r.storage

pub Frame-refl : (q : Queue) → Frame q q
Frame-refl q = record { active = refl; items = refl; ids = λ ref. refl; hashed = λ h. h }

pub Frame-trans : {p q r : Queue} → Frame p q → Frame q r → Frame p r
Frame-trans f g = record {
  active = g.active ∙ f.active;
  items = g.items ∙ f.items;
  ids = λ ref. g.ids ref ∙ f.ids ref;
  hashed = λ h. g.hashed (f.hashed h);
}

-- A patch that keeps the id.
abbrev pub KeepsId : (QueueItem → QueueItem) → Type 0
KeepsId patch = (item : QueueItem) → (patch item).id ≡ item.id

persist-Frame :
    (q : Queue) (item : QueueItem) → truthy item.sha256 ≡ true → Frame q (persist q item)
unfolding persist
persist-Frame q item h = elim (Bool-cases (OrderedMap.has item.id q.items)) [
  | inl there ↦ rw there (record {
    active = refl;
    items = refl;
    ids = λ ref. refl;
    hashed = λ k. All-append IsHashed q.storage (put_upload item.stored ∷ []) k (h, tt);
  })
  | inr gone ↦ rw gone (Frame-refl q)
]

pub write-Frame :
    (q : Queue) (ref : ℕ) (new : QueueItem)
    → id_at q ref ≡ some new.id
    → Frame q (record q { heap = set q.heap ref new })
write-Frame q ref new e = record {
  active = refl;
  items = refl;
  ids = λ i. id_of-set q.heap ref i new e;
  hashed = λ k. k;
}

notify-Frame : (q : Queue) → Frame q (notify q)
unfolding notify
notify-Frame q = record { active = refl; items = refl; ids = λ i. refl; hashed = λ k. k }

assign-Frame :
    (q : Queue) (ref : ℕ) (new : QueueItem) → id_at q ref ≡ some new.id → Frame q (assign q ref new)
unfolding assign
assign-Frame q ref new e =
    let q' : Queue = record q { heap = set q.heap ref new } in
    Frame-trans (write-Frame q ref new e) (elim (Bool-cases (truthy new.sha256)) [
      | inl hashed ↦ rw hashed (Frame-trans (persist-Frame q' new hashed) (notify-Frame _))
      | inr not_yet ↦ rw not_yet (notify-Frame q')
    ])

pub update-Frame :
    (q : Queue) (ref : ℕ) (patch : QueueItem → QueueItem)
    → KeepsId patch
    → Frame q (update q ref patch)
unfolding update
update-Frame q ref patch keeps = elim (Option-cases (get_elem? q.heap ref)) [
  | inl dangling ↦ rw (dangling, update) (Frame-refl q)
  | inr (item, found) ↦
      rw (found, update)
        (elim (Bool-cases (OrderedMap.has item.id q.items)) [
          | inl there ↦ rw there (
              assign-Frame q ref (patch item)
                (id_of-get_elem? q.heap ref found ∙ ap some (sym (keeps item))))
          | inr gone ↦ rw gone (Frame-refl q)
        ])
]

pub abort_part-Frame : (q : Queue) (id : Text) → Frame q (abort_part q id)
unfolding abort_part
abort_part-Frame q id = elim (Option-cases (OrderedMap.get id q.active_parts)) [
  | inl e ↦ rw (e, abort_part) (Frame-refl q)
  | inr (c, e) ↦
      rw (e, abort_part) (record { active = refl; items = refl; ids = λ i. refl; hashed = λ k. k })
]
