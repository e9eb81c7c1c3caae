-- ===== src/Uploads/System/Valid/Restores.antt =====
-- `restoreDirectoryFiles` keeps the data sound and the count of workers exact.
use file_harbor.Base.{
  ℕ, ◌+◌, ◌≤◌, ◌≡◌, refl, Bool, List, [], ◌∷◌, Option, none, some, Text, length, filter, get_elem?,
  arith, Option-cases, inl, inr, if_elim, ◌===◌,
}
use file_harbor.Uploads.Model.{SourceFile, QueueItem, hashing, is_stopped, reselect}
use file_harbor.Base.{codes}
use file_harbor.Uploads.Queue.{Queue, max_workers, notify, clear_error, set_error, snapshot}
use file_harbor.Uploads.Operations.{
  Started, pump, insert_item, insert_items, new_items, Addition, add_directory_files, lookup,
  same_source, attach_begin, attach_file, attach_hashed,
}
use file_harbor.Uploads.Restoring.{
  RestoreLoop, RestorePoint, Restoring, Decision, go_on, attach_to, decide, follow, is_match,
  attach_point, restore_files,
}
use file_harbor.Uploads.System.{restorer, restore_outcome}
use file_harbor.Uploads.System.Sound.{Sound, Frame-Sound, pump-Pumped, insert_items-Sound}
use file_harbor.Uploads.System.Valid.Tasks.{count_workers-started_tasks, StepKeeps}
use file_harbor.Uploads.Frame.{Frame, Frame-refl, update-Frame}

-- What a call from a queue leaves: sound data, and a place for each worker that it started.
pub record Keeps (q : Queue) (r : Queue × List Started) : Type 0 where
  pub sound : Sound q → Sound r.0
  pub counted : (r.0).active ≡ q.active + length r.1
  pub bounded : q.active ≤ max_workers → (r.0).active ≤ max_workers

pub Frame-Keeps : (q r : Queue) → Frame q r → Keeps q (r, [])
Frame-Keeps q r f = record {
  sound = Frame-Sound f;
  counted = omega (arith, f.active);
  bounded = λ h. omega (arith, f.active);
}

pump-Keeps : (q r : Queue) → (Sound q → Sound r) → r.active ≡ q.active → Keeps q (pump r)
pump-Keeps q r s a =
    let p = pump-Pumped r in
    record {
      sound = λ h. p.sound (s h);
      counted = omega (arith, a, p.counted);
      bounded = λ h. omega (arith, a, p.counted, p.fits);
    }

pub insert_items-active :
    (q : Queue) (items : List QueueItem) → (insert_items q items).active ≡ q.active
unfolding insert_items
insert_items-active q [] = refl
insert_items-active q (item ∷ more) = insert_items-active (insert_item q item) more

pub notify-Sound : (q : Queue) → Sound q → Sound (notify q)
unfolding notify
notify-Sound q s = record { keyed = s.keyed; hashed = s.hashed }

pub add_directory_files-Keeps :
    (q : Queue) (files : List Addition) (destination : Text)
    → Keeps q (add_directory_files q files destination)
unfolding add_directory_files
add_directory_files-Keeps q files destination =
    let items = new_items q.scope destination files in
    pump-Keeps q (notify (insert_items q items))
      (λ s. notify-Sound (insert_items q items) (insert_items-Sound q items s))
      (unfold notify in insert_items-active q items)

attach_begin-Frame :
    (q : Queue) (id : Text) (file : SourceFile) → Frame q (attach_begin q id file).0
unfolding attach_begin
attach_begin-Frame q id file = elim (Option-cases (lookup q id)) [
  | inl e ↦ rw (e, attach_begin) (Frame-refl q)
  | inr (at, e) ↦
      rw (e, attach_begin)
        (if_elim (λ (r : Queue × Option ℕ). Frame q r.0) (same_source at.1 file)
          (λ _. update-Frame q at.0 (clear_error hashing) (λ item. refl)) (λ _. Frame-refl q))
]

attach_point-Keeps :
    (q : Queue) (file : SourceFile) (loop : RestoreLoop) (r : Queue × Option ℕ)
    → Frame q r.0
    → Keeps q (attach_point file loop r).0
attach_point-Keeps q file loop (r, none) f = Frame-Keeps q r f
attach_point-Keeps q file loop (r, some ref) f = Frame-Keeps q r f

follow-Keeps :
    (q : Queue) (d : Decision) (next : List Addition → Bool → Restoring) (attach : Text → Restoring)
    → ((added : List Addition) (missed : Bool) → Keeps q (next added missed).0)
    → ((id : Text) → Keeps q (attach id).0)
    → Keeps q (follow d next attach).0
follow-Keeps q (go_on added missed) next attach k l = k added missed
follow-Keeps q (attach_to id) next attach k l = l id

pub restore_files-Keeps :
    (q : Queue) (destination : Text) (additions rest : List Addition) (mismatched : Bool)
    → Keeps q (restore_files q destination additions rest mismatched).0
unfolding restore_files
restore_files-Keeps q destination additions [] mismatched =
    add_directory_files-Keeps q additions destination
restore_files-Keeps q destination additions (a ∷ rest) mismatched =
    follow-Keeps q (decide (filter (is_match destination a) (snapshot q)) a additions mismatched)
      (λ added missed. restore_files q destination added rest missed)
      (λ id. attach_point a.file (loop_of additions) (attach_begin q id a.file))
      (λ added missed. restore_files-Keeps q destination added rest missed)
      (λ id.
        attach_point-Keeps q a.file (loop_of additions) (attach_begin q id a.file)
          (attach_begin-Frame q id a.file))
  where
    loop_of : List Addition → RestoreLoop
    loop_of added = record {
      rest = rest;
      additions = added;
      destination = destination;
      mismatched = mismatched;
    }

pub attach_hashed-Keeps :
    (q : Queue) (ref : ℕ) (file : SourceFile) (d : Text) → Keeps q (attach_hashed q ref file d).0
unfolding attach_hashed
attach_hashed-Keeps q ref file d = elim (Option-cases (get_elem? q.heap ref)) [
  | inl e ↦ rw (e, attach_hashed) (Frame-Keeps q q (Frame-refl q))
  | inr (item, e) ↦
      rw (e, attach_hashed)
        (if_elim Good (is_stopped item.phase) (λ _. Frame-Keeps q q (Frame-refl q))
          (λ _.
            if_elim Good (d === item.sha256)
              (λ _.
                let f = update-Frame q ref (attach_file file) (λ x. refl) in
                pump-Keeps q _ (Frame-Sound f) f.active)
              (λ _.
                Frame-Keeps q _
                  (update-Frame q ref (set_error reselect (codes "source_changed")) (λ x. refl)))))
]
  where
    Good : (Queue × List Started) × Bool → Type 0
    Good r = Keeps q r.0

pub restore-StepKeeps :
    (q : Queue) (point : RestorePoint) (r : Restoring)
    → Keeps q r.0
    → StepKeeps q (restorer point) (restore_outcome r)
unfolding restore_outcome
restore-StepKeeps q point ((r, started), next) k = record {
  sound = k.sound;
  counted = λ h. omega (arith, k.counted, count_workers-started_tasks r started);
  bounded = k.bounded;
}
