-- ===== src/Uploads/Parts/Progress.antt =====
-- What the progress callback adds up.
use file_harbor.Base.{
  ℕ, zero, suc, ◌+◌, ◌-◌, ◌*◌, ◌≤◌, ◌<◌, min, ◌≡◌, refl, ap, ◌∙◌, List, [], ◌∷◌, ◌++◌, arith, ltb,
  filter, All, All-append,
}
use file_harbor.Base.Int.{pos, min_ℤ, pos-+ℤ-pos}
use file_harbor.Uploads.Model.{UploadStatus}
use file_harbor.Uploads.Parts.{part_length, sum_lengths, completed_bytes}

-- The bytes of the parts with the given indexes, where each index lies within the file.
unfoldable pub bytes_of : ℕ → ℕ → List ℕ → ℕ
bytes_of chunk size [] = 0
bytes_of chunk size (p ∷ ps) = min chunk (size - p * chunk) + bytes_of chunk size ps

pub bytes_of-append :
    (chunk size : ℕ) (ps qs : List ℕ)
    → bytes_of chunk size (ps ++ qs) ≡ bytes_of chunk size ps + bytes_of chunk size qs
unfolding bytes_of
bytes_of-append chunk size [] qs = omega arith
bytes_of-append chunk size (p ∷ ps) qs = omega (arith, bytes_of-append chunk size ps qs)

-- A part that is sent before part `index`, and starts within the file.
pub record Earlier (chunk size index p : ℕ) : Type 0 where
  pub before : p < index
  pub within : p * chunk ≤ size

part_length-within :
    (chunk size p : ℕ)
    → p * chunk ≤ size
    → part_length chunk size p ≡ pos (min chunk (size - p * chunk))
unfolding part_length min_ℤ
part_length-within chunk size p h = ground arith

sum_lengths-within :
    (chunk size index total : ℕ) (ps : List ℕ)
    → All (Earlier chunk size index) ps
    → sum_lengths chunk size (pos total) ps ≡ pos (total + bytes_of chunk size ps)
unfolding sum_lengths bytes_of
sum_lengths-within chunk size index total [] h = ap pos (omega arith)
sum_lengths-within chunk size index total (p ∷ ps) (e, h) =
    rw (part_length-within chunk size p e.within, pos-+ℤ-pos)
      (sum_lengths-within chunk size index (total + min chunk (size - p * chunk)) ps h
        ∙ ap pos (omega arith))

filter-Earlier :
    (chunk size index : ℕ) (ps : List ℕ)
    → All (Earlier chunk size index) ps
    → filter (λ p. ltb p index) ps ≡ ps
filter-Earlier chunk size index [] h = refl
filter-Earlier chunk size index (p ∷ ps) (e, h) =
    ground (arith, filter-Earlier chunk size index ps h)

module _ (status : UploadStatus) (size index : ℕ) where
  open status use {chunk_bytes, received_bytes as at_start}

  -- What the callback shows counts the parts that the server had at the start twice: once in the
  -- server's `received_bytes`, and once more by their indexes. Here `initial` are those parts and
  -- `uploaded` the parts sent since, all before part `index` and within the file.
  pub completed_bytes-resumed :
      (initial uploaded : List ℕ)
      → at_start ≡ bytes_of chunk_bytes size initial
      → All (Earlier chunk_bytes size index) (initial ++ uploaded)
      → completed_bytes status size (initial ++ uploaded) index
        ≡ pos (bytes_of chunk_bytes size (initial ++ uploaded) + bytes_of chunk_bytes size initial)
  unfolding completed_bytes
  completed_bytes-resumed initial uploaded start earlier =
      rw
        (
          filter-Earlier chunk_bytes size index (initial ++ uploaded) earlier,
          sum_lengths-within chunk_bytes size index 0 (initial ++ uploaded) earlier,
          start,
          pos-+ℤ-pos,
        )
        (ap pos (omega arith))

-- The indexes below `n`, in order.
unfoldable pub below : ℕ → List ℕ
below zero = []
below (suc n) = below n ++ n ∷ []

All-Earlier-below :
    (chunk size index n : ℕ)
    → n ≤ index
    → n * chunk ≤ size
    → All (Earlier chunk size index) (below n)
unfolding below
All-Earlier-below chunk size index zero h k = tt
All-Earlier-below chunk size index (suc n) h k =
    All-append (Earlier chunk size index) (below n) (n ∷ [])
      (All-Earlier-below chunk size index n (omega arith) (omega arith))
      (record { before = omega arith; within = omega arith }, tt)

bytes_of-below : (chunk size n : ℕ) → n * chunk ≤ size → bytes_of chunk size (below n) ≡ n * chunk
unfolding below
bytes_of-below chunk size zero h = unfold bytes_of in omega arith
bytes_of-below chunk size (suc n) h =
    bytes_of-append chunk size (below n) (n ∷ [])
    ∙ (let last : bytes_of chunk size (n ∷ []) ≡ chunk = last_full in
        omega (arith, bytes_of-below chunk size n))
  where
    last_full : bytes_of chunk size (n ∷ []) ≡ chunk
    last_full = unfold bytes_of in omega arith

-- For an upload of which the server had nothing, the callback shows, while part `index` is sent
-- after all earlier parts, exactly the bytes of those parts.
pub completed_bytes-fresh :
    (status : UploadStatus) (size index : ℕ)
    → status.received_bytes ≡ 0
    → index * status.chunk_bytes ≤ size
    → completed_bytes status size (below index) index ≡ pos (index * status.chunk_bytes)
completed_bytes-fresh status size index none_yet within =
    completed_bytes-resumed status size index [] (below index) (none_yet ∙ unfold bytes_of in refl)
      (All-Earlier-below status.chunk_bytes size index index (omega arith) within)
    ∙ ap pos (
        let e : bytes_of status.chunk_bytes size [] ≡ 0 = unfold bytes_of in refl in
        omega (arith, bytes_of-below status.chunk_bytes size index))
