-- ===== src/Uploads/Parts.antt =====
-- The parts of a reliable upload: which the server has, the bytes of each, and the progress that
-- the queue shows (`receivedIndexes`, the loop of `run` and `onProgress` of
-- web/src/uploads/queue.ts).
pub mod Cover
pub mod Progress
use file_harbor.Base.{
  ℕ, zero, suc, ◌+◌, ◌-◌, ◌*◌, ◌≤◌, ◌<◌, min, ◌≡◌, refl, sym, ap, ◌∙◌, Bool, true, false, ◌&&◌,
  ◌||◌, List, [], ◌∷◌, ◌++◌, arith, length, if◌then◌else◌, ltb, leb, ◌==◌, any, filter, slice, take,
  drop, All, append_assoc,
}
use file_harbor.Base.Int.{ℤ, pos, sub_ℕ, ◌+ℤ◌, min_ℤ, pos-+ℤ-pos}
use file_harbor.Uploads.Model.{UploadRange, UploadStatus, SourceFile, file_size}

-- A `Set` of numbers, in insertion order.
unfoldable pub has_index : List ℕ → ℕ → Bool
has_index xs i = any (λ j. j == i) xs

unfoldable pub add_index : List ℕ → ℕ → List ℕ
unfolding has_index
add_index xs i = if has_index xs i then xs else xs ++ i ∷ []

-- `for (index = start; index <= end; index += 1) indexes.add(index)`, by the rounds left.
unfoldable pub add_range : ℕ → ℕ → List ℕ → List ℕ
add_range zero index indexes = indexes
add_range (suc rounds) index indexes = add_range rounds (index + 1) (add_index indexes index)

add_ranges : List UploadRange → List ℕ → List ℕ
add_ranges [] indexes = indexes
add_ranges (r ∷ rs) indexes = add_ranges rs (add_range (r.end + 1 - r.start) r.start indexes)

unfoldable pub received_indexes : UploadStatus → List ℕ
unfolding add_ranges add_range add_index has_index
received_indexes status = add_ranges status.received []

-- The bytes of part `index`: `file.slice(start, Math.min(file.size, start + chunk_bytes))`.
unfoldable pub part_bytes : UploadStatus → SourceFile → ℕ → List ℕ
part_bytes status file index =
    let start = index * status.chunk_bytes in
    slice start (min (file_size file) (start + status.chunk_bytes)) file.bytes

-- `Math.min(chunk_bytes, file.size - partIndex * chunk_bytes)`
unfoldable pub part_length : ℕ → ℕ → ℕ → ℤ
part_length chunk size index = min_ℤ (pos chunk) (sub_ℕ size (index * chunk))

sum_lengths : ℕ → ℕ → ℤ → List ℕ → ℤ
sum_lengths chunk size total [] = total
sum_lengths chunk size total (p ∷ ps) =
    sum_lengths chunk size (total +ℤ part_length chunk size p) ps

-- `completed` of `onProgress`, while part `index` is sent.
unfoldable pub completed_bytes : UploadStatus → ℕ → List ℕ → ℕ → ℤ
unfolding sum_lengths part_length
completed_bytes status size received index =
    pos status.received_bytes
    +ℤ sum_lengths status.chunk_bytes size (pos 0) (filter (λ p. ltb p index) received)

pub has_index-add_index :
    (xs : List ℕ) (i j : ℕ) → has_index (add_index xs i) j ≡ (i == j) || has_index xs j
unfolding add_index has_index
has_index-add_index [] i j = ground arith
has_index-add_index (x ∷ xs) i j = ground (arith, has_index-add_index xs i j)

has_index-add_range :
    (rounds index : ℕ) (xs : List ℕ) (j : ℕ)
    → has_index (add_range rounds index xs) j
      ≡ has_index xs j || leb index j && ltb j (index + rounds)
unfolding add_range
has_index-add_range zero index xs j = ground arith
has_index-add_range (suc rounds) index xs j = ground (
  arith,
  has_index-add_range rounds (index + 1) (add_index xs index) j,
  has_index-add_index xs index j,
)

abbrev pub in_range : ℕ → UploadRange → Bool
in_range j r = leb r.start j && leb j r.end

has_index-add_ranges :
    (rs : List UploadRange) (xs : List ℕ) (j : ℕ)
    → has_index (add_ranges rs xs) j ≡ has_index xs j || any (in_range j) rs
unfolding add_ranges
has_index-add_ranges [] xs j = ground arith
has_index-add_ranges (r ∷ rs) xs j = ground (
  arith,
  has_index-add_ranges rs (add_range (r.end + 1 - r.start) r.start xs) j,
  has_index-add_range (r.end + 1 - r.start) r.start xs j,
)

-- An index is in the set exactly when one of the server's ranges holds it, both ends included.
pub has_index-received_indexes :
    (status : UploadStatus) (j : ℕ)
    → has_index (received_indexes status) j
      ≡ any (λ r. leb r.start j && leb j r.end) status.received
unfolding received_indexes
has_index-received_indexes status j = has_index-add_ranges status.received [] j
