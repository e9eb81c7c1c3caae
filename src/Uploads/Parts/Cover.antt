-- ===== src/Uploads/Parts/Cover.antt =====
-- The parts of an upload, put together, are the file.
use file_harbor.Base.{
  ℕ, zero, suc, ◌+◌, ◌*◌, ◌≤◌, ◌<◌, ◌≡◌, refl, sym, ap, ◌∙◌, List, [], ◌++◌, arith, take, drop,
  slice-min, take-add, take-length, drop-drop,
}
use file_harbor.Uploads.Model.{UploadStatus, SourceFile, file_size}
use file_harbor.Uploads.Parts.{part_bytes}

-- The file's bytes in part `index`, when a part has `chunk_bytes` bytes and the last one the rest.
abbrev pub piece : UploadStatus → SourceFile → ℕ → List ℕ
piece status file index = take status.chunk_bytes (drop (index * status.chunk_bytes) file.bytes)

-- The bytes of `rounds` parts from part `index` on, put together.
unfoldable pub joined : (ℕ → List ℕ) → ℕ → ℕ → List ℕ
joined part zero index = []
joined part (suc rounds) index = part index ++ joined part rounds (index + 1)

module _ (status : UploadStatus) (file : SourceFile) where
  open status use {chunk_bytes, part_count}
  open file use {bytes}

  pub part_bytes-eq-piece : (index : ℕ) → part_bytes status file index ≡ piece status file index
  unfolding part_bytes
  part_bytes-eq-piece index = slice-min (index * chunk_bytes) chunk_bytes bytes

  joined-eq-take :
      (part : ℕ → List ℕ) (rounds index : ℕ)
      → ((j : ℕ) → j < index + rounds → part j ≡ piece status file j)
      → joined part rounds index ≡ take (rounds * chunk_bytes) (drop (index * chunk_bytes) bytes)
  unfolding joined
  joined-eq-take part zero index h = let e : zero * chunk_bytes ≡ zero = omega arith in rw e refl
  joined-eq-take part (suc rounds) index h =
      let here : suc rounds * chunk_bytes ≡ chunk_bytes + rounds * chunk_bytes = omega arith in
      let next : (index + 1) * chunk_bytes ≡ index * chunk_bytes + chunk_bytes = omega arith in
      let rest = joined-eq-take part rounds (index + 1) (λ j lt. h j (omega arith)) in
      rw (h index (omega arith), rest, here, next)
        (ap
            (λ t.
              take chunk_bytes (drop (index * chunk_bytes) bytes) ++ take (rounds * chunk_bytes) t)
            (sym (drop-drop (index * chunk_bytes) chunk_bytes bytes))
          ∙ sym (take-add chunk_bytes (rounds * chunk_bytes) (drop (index * chunk_bytes) bytes)))

  -- If the parts are enough for the file and each is its piece of the file, then they are, put
  -- together, the bytes of the file.
  pub joined-eq-bytes :
      (part : ℕ → List ℕ)
      → file_size file ≤ part_count * chunk_bytes
      → ((j : ℕ) → j < part_count → part j ≡ piece status file j)
      → joined part part_count 0 ≡ bytes
  joined-eq-bytes part h pieces =
      let e : zero * chunk_bytes ≡ zero = omega arith in
      joined-eq-take part part_count 0 (λ j lt. pieces j (omega arith))
      ∙ rw e (take-length (part_count * chunk_bytes) bytes h)
