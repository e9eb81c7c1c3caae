-- ===== src/Uploads/Hash.antt =====
-- `hashBlob` of web/src/uploads/queue.ts: a digest fed slice by slice. The hash itself is the
-- package @noble/hashes, an interface here.
use file_harbor.Base.{
  ℕ, zero, suc, ◌+◌, ◌<◌, min, ◌≡◌, sym, ap, ◌∙◌, true, false, List, [], ◌++◌, arith, Text, length,
  ltb, Bool-cases, inl, inr, take, drop, slice, take-append-drop, drop-drop, slice-min, drop-length,
}

-- A streaming hash: feeding nothing changes nothing, and feeding twice is feeding the
-- concatenation. `digest` includes the rendering by `bytesToHex`.
pub record StreamingHash : Type 1 where
  pub State : Type 0
  pub create : State
  pub update : State → List ℕ → State
  pub digest : State → Text
  pub update-nil : (s : State) → update s [] ≡ s
  pub update-update : (s : State) (a b : List ℕ) → update (update s a) b ≡ update s (a ++ b)

module _ (sha : StreamingHash) (content : List ℕ) (slice_bytes : ℕ) where
  open sha use {State, create, update, digest, update-nil, update-update}

  -- The loop of `hashBlob`.
  hash_from : ℕ → ℕ → State → State
  hash_from zero start s = s
  hash_from (suc fuel) start s = elim (ltb start (length content)) [
    | true ↦
        hash_from fuel (start + slice_bytes)
          (update s (slice start (min (length content) (start + slice_bytes)) content))
    | false ↦ s
  ]

  -- One round for each byte is more than enough, if a slice has a byte.
  unfoldable pub hash_blob : Text
  unfolding hash_from slice
  hash_blob = digest (hash_from (suc (length content)) 0 create)

  hash_from-eq-update :
      (fuel start : ℕ) (s : State)
      → 0 < slice_bytes
      → length content < fuel + start
      → hash_from fuel start s ≡ update s (drop start content)
  unfolding hash_from
  hash_from-eq-update zero start s p h =
      sym (ap (update s) (drop-length start content (omega arith)) ∙ update-nil s)
  hash_from-eq-update (suc fuel) start s p h = elim (Bool-cases (ltb start (length content))) [
    | inl more ↦
        rw (more, hash_from)
          (hash_from-eq-update fuel (start + slice_bytes) _ p (omega arith)
            ∙ (update-update s _ _
                ∙ ap (update s) (
                    ap (◌++ drop (start + slice_bytes) content)
                      (slice-min start slice_bytes content)
                    ∙ (ap (take slice_bytes (drop start content) ++◌)
                          (sym (drop-drop start slice_bytes content))
                        ∙ take-append-drop slice_bytes (drop start content)))))
    | inr done ↦
        rw (done, hash_from)
          (sym (ap (update s) (drop-length start content (ground arith)) ∙ update-nil s))
  ]

  -- Slicing does not show: for slices of at least one byte, the digest is that of the whole file
  -- fed at once.
  pub hash_blob-eq-digest : 0 < slice_bytes → hash_blob ≡ digest (update create content)
  unfolding hash_blob
  hash_blob-eq-digest p =
      ap digest (hash_from-eq-update (suc (length content)) 0 create p (omega arith))
