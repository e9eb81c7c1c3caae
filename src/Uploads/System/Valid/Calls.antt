-- ===== src/Uploads/System/Valid/Calls.antt =====
-- Calls of the public methods, and replies, keep the invariant.
use file_harbor.Base.{
  ℕ, ◌≤◌, ◌≡◌, refl, List, [], ◌∷◌, ◌++◌, Option, some, Text, get_elem?, set, arith, Option-cases,
  inl, inr, if_elim, is_some, false, ◌&&◌,
}
use file_harbor.Base.OrderedMap
use file_harbor.Uploads.Model.{
  SourceFile, StoredUpload, QueueItem, is_terminal, paused, waiting, hashing,
}
use file_harbor.Uploads.Queue.{Queue, max_workers, notify, set_phase, clear_error, abort_part}
use file_harbor.Uploads.Operations.{
  Started, pump, new_items, restored_items, restore, Addition, add_directory_files, lookup, pause,
  resume, can_resume, same_source, attach_begin, remove_now,
}
use file_harbor.Uploads.System.{
  World, Task, Outcome, Reply, deleting, Event, call_add, call_restore, call_restore_directory,
  call_attach, call_pause, call_resume, call_cancel, call_remove, reply, react, start, run_events,
  task_step, spawn, spawn_started, spawn_cancel, spawn_remove, spawn_attach, spawn_restore,
  restorer, started_tasks,
}
use file_harbor.Uploads.System.Sound.{
  Sound, Frame-Sound, pump-Pumped, insert_items-Sound, remove_now-Sound,
}
use file_harbor.Uploads.System.Valid.Tasks.{
  count_workers, count_workers-append, count_workers-set, weight-le, count_workers-started_tasks,
  StepKeeps, task_weight,
}
use file_harbor.Uploads.System.Valid.Steps.{task_step-StepKeeps}
use file_harbor.Uploads.Restoring.{Restoring}
use file_harbor.Uploads.System.Valid.Restores.{
  Keeps, insert_items-active, notify-Sound, restore_files-Keeps,
}
use file_harbor.Uploads.Frame.{Frame, Frame-refl, Frame-trans, update-Frame, abort_part-Frame}
use file_harbor.Uploads.Frame.Cancels.{cancel-Frame}

-- The data is sound, the places taken are those of the workers that have not ended, and they are
-- at most two.
pub record IsValid (w : World) : Type 0 where
  pub sound : Sound w.queue
  pub counted : (w.queue).active ≡ count_workers w.tasks
  pub bounded : (w.queue).active ≤ max_workers

pub start-IsValid : (scope : Text) → IsValid (start scope)
start-IsValid scope = record {
  sound = record { keyed = λ id ref e. unfold OrderedMap.get in cc; hashed = tt };
  counted = refl;
  bounded = omega arith;
}

-- A call that keeps the frame and starts tasks that are no workers.
spawn-IsValid :
    (w : World) (q : Queue) (new : List Task)
    → IsValid w
    → Frame w.queue q
    → count_workers new ≡ 0
    → IsValid (spawn w q new)
unfolding spawn
spawn-IsValid w q new v f n = record {
  sound = Frame-Sound f v.sound;
  counted = omega (arith, f.active, v.counted, count_workers-append w.tasks new);
  bounded = omega (arith, f.active, v.bounded);
}

queue-IsValid :
    {w : World} {q : Queue} → IsValid w → Frame w.queue q → IsValid (record w { queue = q })
queue-IsValid v f = record {
  sound = Frame-Sound f v.sound;
  counted = omega (arith, f.active, v.counted);
  bounded = omega (arith, f.active, v.bounded);
}

-- A call that ends in `pump`, from a state in which as many places are taken as before.
pump-IsValid :
    {w : World} (q : Queue)
    → IsValid w
    → Sound q
    → q.active ≡ (w.queue).active
    → IsValid (spawn_started w (pump q))
unfolding spawn_started spawn
pump-IsValid {w} q v s a =
    let p = pump-Pumped q in
    record {
      sound = p.sound s;
      counted = omega (
        arith,
        a,
        v.counted,
        p.counted,
        count_workers-append w.tasks (started_tasks (pump q).0 (pump q).1),
        count_workers-started_tasks (pump q).0 (pump q).1,
      );
      bounded = omega (arith, a, v.bounded, p.counted, p.fits);
    }

add-IsValid :
    (w : World) (files : List Addition) (destination : Text)
    → IsValid w
    → IsValid (spawn_started w (add_directory_files w.queue files destination))
unfolding add_directory_files
add-IsValid w files destination v =
    let items = new_items (w.queue).scope destination files in
    pump-IsValid _ v (notify-Sound _ (insert_items-Sound w.queue items v.sound))
      (unfold notify in insert_items-active w.queue items)

restore-IsValid :
    (w : World) (stored : List StoredUpload)
    → IsValid w
    → IsValid (record w { queue = restore w.queue stored })
restore-IsValid w stored v =
    let items = restored_items stored in
    let same = insert_items-active w.queue items in
    record {
      sound = unfold restore in notify-Sound _ (insert_items-Sound w.queue items v.sound);
      counted = unfold restore in omega (arith, same, v.counted);
      bounded = unfold restore in omega (arith, same, v.bounded);
    }

restore_directory-IsValid :
    (w : World) (r : Restoring) → IsValid w → Keeps w.queue r.0 → IsValid (spawn_restore w r)
unfolding spawn_restore spawn
restore_directory-IsValid w ((q, started), point) v k = record {
  sound = k.sound v.sound;
  counted = omega (
    arith,
    k.counted,
    v.counted,
    count_workers-append w.tasks (restorer point ∷ started_tasks q started),
    count_workers-started_tasks q started,
  );
  bounded = k.bounded v.bounded;
}

pause-Frame : (q : Queue) (id : Text) → Frame q (pause q id)
unfolding pause
pause-Frame q id = elim (Option-cases (lookup q id)) [
  | inl e ↦ rw (e, pause) (Frame-refl q)
  | inr (at, e) ↦
      rw (e, pause)
        (if_elim (Frame q) (is_terminal (at.1).phase) (λ _. Frame-refl q)
          (λ _.
            Frame-trans (abort_part-Frame q id)
              (update-Frame (abort_part q id) at.0 (set_phase paused) (λ item. refl))))
]

nothing_started : (w : World) → IsValid w → IsValid (spawn_started w (w.queue, []))
unfolding spawn_started started_tasks
nothing_started w v = spawn-IsValid w w.queue [] v (Frame-refl w.queue) refl

resume-IsValid : (w : World) (id : Text) → IsValid w → IsValid (spawn_started w (resume w.queue id))
unfolding resume
resume-IsValid w id v = elim (Option-cases (lookup w.queue id)) [
  | inl e ↦ rw (e, resume) (nothing_started w v)
  | inr (at, e) ↦
      rw (e, resume)
        (let f = update-Frame w.queue at.0 (clear_error waiting) (λ item. refl) in
          if_elim (λ (r : Queue × List Started). IsValid (spawn_started w r))
            (is_some (at.1).file && can_resume (at.1).phase)
            (λ _. pump-IsValid _ v (Frame-Sound f v.sound) f.active) (λ _. nothing_started w v))
]

attach-IsValid :
    (w : World) (id : Text) (file : SourceFile)
    → IsValid w
    → IsValid (spawn_attach w file (attach_begin w.queue id file))
unfolding attach_begin spawn_attach
attach-IsValid w id file v = elim (Option-cases (lookup w.queue id)) [
  | inl e ↦ rw (e, attach_begin) (queue-IsValid v (Frame-refl w.queue))
  | inr (at, e) ↦
      rw (e, attach_begin)
        (if_elim (λ (r : Queue × Option ℕ). IsValid (spawn_attach w file r)) (same_source at.1 file)
          (λ _.
            spawn-IsValid w _ _ v (update-Frame w.queue at.0 (clear_error hashing) (λ item. refl))
              refl)
          (λ _. queue-IsValid v (Frame-refl w.queue)))
]

remove-IsValid :
    (w : World) (id : Text) (ref : ℕ) (item : QueueItem)
    → IsValid w
    → IsValid (spawn_remove w id ref item)
unfolding spawn_remove spawn
remove-IsValid w id ref item v =
    if_elim IsValid (is_terminal item.phase)
      (λ _.
        let same : (remove_now w.queue id).active ≡ (w.queue).active =
          unfold remove_now in (abort_part-Frame w.queue id).active in
        record {
          sound = remove_now-Sound w.queue id v.sound;
          counted = omega (arith, same, v.counted, count_workers-append w.tasks (deleting ∷ []));
          bounded = omega (arith, same, v.bounded);
        })
      (λ _. spawn-IsValid w _ _ v (cancel-Frame w.queue id) refl)

step-IsValid :
    (w : World) (i : ℕ) (t : Task) (o : Outcome)
    → IsValid w
    → get_elem? w.tasks i ≡ some t
    → StepKeeps w.queue t o
    → IsValid (record { queue = o.queue; tasks = set w.tasks i o.task ++ o.new })
step-IsValid w i t o v e k =
    let weight : task_weight t ≤ (w.queue).active =
      omega (arith, v.counted, weight-le w.tasks i t e) in
    record {
      sound = k.sound v.sound;
      counted = omega (
        arith,
        v.counted,
        k.counted weight,
        count_workers-append (set w.tasks i o.task) o.new,
        count_workers-set w.tasks i t o.task e,
      );
      bounded = k.bounded v.bounded;
    }

reply-IsValid : (w : World) (i : ℕ) (r : Reply) → IsValid w → IsValid (react w (reply i r))
unfolding react
reply-IsValid w i r v = elim (Option-cases (get_elem? w.tasks i)) [
  | inl e ↦ rw (e, react) v
  | inr (t, e) ↦ elim (Option-cases (task_step w.queue t r)) [
    | inl d ↦ rw (e, d, react) v
    | inr (o, d) ↦
        rw (e, d, react) (step-IsValid w i t o v e (rw d at (task_step-StepKeeps w.queue t r)))
  ]
]

-- Every event keeps the invariant.
pub react-IsValid : (w : World) (e : Event) → IsValid w → IsValid (react w e)
unfolding react
react-IsValid w (call_add files destination) v = add-IsValid w files destination v
react-IsValid w (call_restore stored) v = restore-IsValid w stored v
react-IsValid w (call_restore_directory files destination) v =
    restore_directory-IsValid w _ v (restore_files-Keeps w.queue destination [] files false)
react-IsValid w (call_attach id file) v = attach-IsValid w id file v
react-IsValid w (call_pause id) v = queue-IsValid v (pause-Frame w.queue id)
react-IsValid w (call_resume id) v = resume-IsValid w id v
react-IsValid w (call_cancel id) v = elim (Option-cases (lookup w.queue id)) [
  | inl e ↦ rw (e, react) v
  | inr (at, e) ↦
      rw (e, react) (unfold spawn_cancel in spawn-IsValid w _ _ v (cancel-Frame w.queue id) refl)
]
react-IsValid w (call_remove id) v = elim (Option-cases (lookup w.queue id)) [
  | inl e ↦ rw (e, react) v
  | inr (at, e) ↦ rw (e, react) (remove-IsValid w id at.0 at.1 v)
]
react-IsValid w (reply i r) v = reply-IsValid w i r v

run_events-from : (w : World) (es : List Event) → IsValid w → IsValid (run_events w es)
run_events-from w [] v = v
run_events-from w (e ∷ es) v = run_events-from (react w e) es (react-IsValid w e v)

-- After any sequence of calls and replies from the empty queue, the map leads each id to an item
-- with that id, the database has only received uploads with their digest, `active` is the number
-- of workers that have not ended, and it is at most two.
pub run_events-IsValid : (scope : Text) (es : List Event) → IsValid (run_events (start scope) es)
run_events-IsValid scope es = run_events-from (start scope) es (start-IsValid scope)
