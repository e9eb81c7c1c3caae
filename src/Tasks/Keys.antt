-- ===== src/Tasks/Keys.antt =====
-- Which key a repeated request carries.
use file_harbor.Base.{
  ◌≡◌, refl, inl, inr, Bool, true, false, not, Option, none, some, Text, truthy, Bool-cases,
  ===_refl, if◌then◌else◌,
}
use file_harbor.Base.OrderedMap
use file_harbor.Base.OrderedMap.{get-put, get-delete}
use file_harbor.Base.Results.{Result, ok, err}
use file_harbor.Tasks.{Tasks, key_or, submit_begin, is_hidden, submit_end}

-- A failure that leaves it open whether the server has the request.
abbrev pub keeps_key {ℓ} : {A : Type ℓ} → Result A → Bool
keeps_key (ok a) = false
keeps_key (err e) = not (is_hidden e)

key_or-truthy :
    (o : Option Text) (fresh : Text) → truthy fresh ≡ true → truthy (key_or o fresh) ≡ true
key_or-truthy none fresh h = h
key_or-truthy (some key) fresh h = kept (truthy key) refl
  where
    kept : (b : Bool) → truthy key ≡ b → truthy (if b then key else fresh) ≡ true
    kept true e = e
    kept false e = h

get-put_self : (k v : Text) (m : _) → OrderedMap.get k (OrderedMap.put k v m) ≡ some v
get-put_self k v m = rw (get-put k k v m, ===_refl k) refl

get-delete_self : (k : Text) (m : _) → OrderedMap.get {V = Text} k (OrderedMap.delete k m) ≡ none
get-delete_self k m = rw (get-delete k k m, ===_refl k) refl

-- The same request submitted again after its first submission has ended carries the same key if
-- that failed in any way but with `job_hidden`, and a fresh one after a success or `job_hidden`.
pub submit_again_key {ℓ} :
    {A : Type ℓ} (s : Tasks) (signature fresh next : Text) (r : Result A)
    → truthy fresh ≡ true
    → (submit_begin (submit_end (submit_begin s signature fresh).0 signature r) signature next).1
      ≡ (if keeps_key r then (submit_begin s signature fresh).1 else next)
unfolding submit_begin submit_end
submit_again_key s signature fresh next (ok a) h = rw (get-delete_self signature _) refl
submit_again_key s signature fresh next (err e) h = elim (Bool-cases (is_hidden e)) [
  | inl hidden ↦ rw (hidden, get-delete_self signature _) refl
  | inr other ↦
      let key = key_or (OrderedMap.get signature s.pending) fresh in
      rw
        (
          other,
          get-put_self signature key s.pending,
          key_or-truthy (OrderedMap.get signature s.pending) fresh h,
        )
        refl
]
