-- ===== src/Uploads/System/Sound.antt =====
-- What holds of the queue's data between any two steps, whatever its tasks do: the map leads each
-- id to an item object with that id, and the database has only received hashed uploads.
use file_harbor.Base.{
  ℕ, zero, suc, ◌+◌, ◌-◌, ◌≤◌, ◌≡◌, refl, ap, ◌∙◌, List, [], ◌∷◌, ◌++◌, none, some, Text, length,
  arith, Option-cases, Bool-cases, All, All-append, if◌then◌else◌, ◌===◌, ===_iff, inl, inr,
}
use file_harbor.Base.OrderedMap
use file_harbor.Uploads.Model.{QueueItem}
use file_harbor.Uploads.Queue.{Queue, delete_upload, abort_part, max_workers}
use file_harbor.Uploads.Run.{run_start}
use file_harbor.Uploads.Operations.{
  Started, pump_from, pump, next_waiting, insert_item, insert_items, remove_now,
}
use file_harbor.Uploads.Frame.{Frame, id_of, id_at, IsHashed, abort_part-Frame}
use file_harbor.Uploads.Frame.Runs.{run_start-Frame}

pub record Sound (q : Queue) : Type 0 where
  pub keyed : (id : Text) (ref : ℕ) → OrderedMap.get id q.items ≡ some ref → id_at q ref ≡ some id
  pub hashed : All IsHashed q.storage

pub Frame-Sound : {q r : Queue} → Frame q r → Sound q → Sound r
Frame-Sound {q} {r} f s = record {
  keyed =
      λ id ref e. f.ids ref ∙ s.keyed id ref (subst_items (λ m. OrderedMap.get id m ≡ some ref) e);
  hashed = f.hashed s.hashed;
}
  where
    subst_items : (P : List (Text × ℕ) → Type 0) → P r.items → P q.items
    subst_items P h = rw f.items at h

pub Sound-active : {q : Queue} (n : ℕ) → Sound q → Sound (record q { active = n })
Sound-active n s = record { keyed = s.keyed; hashed = s.hashed }

id_of-append :
    (heap more : List QueueItem) (ref : ℕ) {id : Text}
    → id_of heap ref ≡ some id
    → id_of (heap ++ more) ref ≡ some id
id_of-append [] more ref e = cc
id_of-append (x ∷ heap) more zero e = e
id_of-append (x ∷ heap) more (suc ref) e = id_of-append heap more ref e

id_of-length :
    (heap : List QueueItem) (item : QueueItem)
    → id_of (heap ++ item ∷ []) (length heap) ≡ some item.id
id_of-length [] item = refl
id_of-length (x ∷ heap) item = id_of-length heap item

pub insert_item-Sound : (q : Queue) (item : QueueItem) → Sound q → Sound (insert_item q item)
unfolding insert_item
insert_item-Sound q item s = record {
  keyed =
      λ id ref e. keyed id ref (rw (OrderedMap.get-put item.id id (length q.heap) q.items) at e);
  hashed = s.hashed;
}
  where
    keyed :
        (id : Text) (ref : ℕ)
        → (if item.id === id then some (length q.heap) else OrderedMap.get id q.items) ≡ some ref
        → id_of (q.heap ++ item ∷ []) ref ≡ some id
    keyed id ref e = elim (Bool-cases (item.id === id)) [
      | inl same ↦
          let here : some (length q.heap) ≡ some ref = rw same at e in
          let at : length q.heap ≡ ref = ground arith in
          rw (← at, id_of-length q.heap item) (ap some ((===_iff item.id id).0 same))
      | inr other ↦ id_of-append q.heap (item ∷ []) ref (s.keyed id ref (rw other at e))
    ]

pub insert_items-Sound :
    (q : Queue) (items : List QueueItem) → Sound q → Sound (insert_items q items)
unfolding insert_items
insert_items-Sound q [] s = s
insert_items-Sound q (item ∷ more) s =
    insert_items-Sound (insert_item q item) more (insert_item-Sound q item s)

pub remove_now-Sound : (q : Queue) (id : Text) → Sound q → Sound (remove_now q id)
unfolding remove_now
remove_now-Sound q id s = record {
  keyed = λ j ref e.
      kept.keyed j ref (found j ref (rw (OrderedMap.get-delete id j (abort_part q id).items) at e));
  hashed =
      All-append IsHashed (abort_part q id).storage (delete_upload id ∷ []) kept.hashed (tt, tt);
}
  where
    kept : Sound (abort_part q id)
    kept = Frame-Sound (abort_part-Frame q id) s

    found :
        (j : Text) (ref : ℕ)
        → (if id === j then none else OrderedMap.get j (abort_part q id).items) ≡ some ref
        → OrderedMap.get j (abort_part q id).items ≡ some ref
    found j ref e = ground arith

-- What `pump` promises: it starts at most as many workers as there are places, and counts each.
pub record Pumped (q : Queue) (free : ℕ) (r : Queue × List Started) : Type 0 where
  pub sound : Sound q → Sound r.0
  pub counted : (r.0).active ≡ q.active + length r.1
  pub fits : length r.1 ≤ free

pub pump_from-Pumped : (free : ℕ) (q : Queue) → Pumped q free (pump_from free q)
unfolding pump_from
pump_from-Pumped zero q = record { sound = λ s. s; counted = omega arith; fits = omega arith }
pump_from-Pumped (suc free) q = elim (Option-cases (next_waiting q)) [
  | inl e ↦ rw (e, pump_from) (record { sound = λ s. s; counted = omega arith; fits = omega arith })
  | inr (ref, e) ↦
      rw (e, pump_from)
        (let taken : Queue = record q { active = q.active + 1 } in
          let f = run_start-Frame taken ref in
          let more = pump_from-Pumped free (run_start taken ref).0 in
          record {
            sound = λ s. more.sound (Frame-Sound f (Sound-active (q.active + 1) s));
            counted = omega (arith, more.counted, f.active);
            fits = omega (arith, more.fits);
          })
]

pub pump-Pumped : (q : Queue) → Pumped q (max_workers - q.active) (pump q)
unfolding pump
pump-Pumped q = pump_from-Pumped (max_workers - q.active) q
