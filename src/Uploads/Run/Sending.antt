-- ===== src/Uploads/Run/Sending.antt =====
-- Which part a worker sends next.
use file_harbor.Base.{
  ℕ, zero, suc, ◌+◌, ◌≤◌, ◌<◌, ◌≡◌, refl, ◌⊎◌, inl, inr, true, false, arith, Bool-cases, dec_lt,
}
use file_harbor.Uploads.Parts.{has_index}
use file_harbor.Uploads.Queue.{Queue}
use file_harbor.Uploads.Run.{PartLoop, hashing_part, completing, stopped, next_part}

-- The loop found part `i` missing, and all parts before it received.
pub record SendsPart (loop : PartLoop) (left i : ℕ) : Type 0 where
  pub from : loop.index ≤ i
  pub below : i < loop.index + left
  pub missing : has_index loop.received i ≡ false
  pub earlier : (j : ℕ) → loop.index ≤ j → j < i → has_index loop.received j ≡ true

abbrev pub AllReceived : PartLoop → ℕ → Type 0
AllReceived loop left =
    (j : ℕ) → loop.index ≤ j → j < loop.index + left → has_index loop.received j ≡ true

-- From a state in which the item is not paused and not cancelled, the loop over the `left` parts
-- from its index on goes to the first one that has not been received, if there is one; and it goes
-- on to the completion only if it has all of them.
pub next_part-sends :
    (q : Queue) (ref : ℕ) (left : ℕ) (loop : PartLoop)
    → stopped q ref ≡ false
    → ((i : ℕ) × SendsPart loop left i
        × (next_part q ref loop left ≡ (q, hashing_part (record loop { index = i }))))
      ⊎ (AllReceived loop left × (next_part q ref loop left ≡ (q, completing loop.file 0)))
unfolding next_part
next_part-sends q ref zero loop go = inr (λ j h k. absurd (omega arith), refl)
next_part-sends q ref (suc left) loop go = elim (Bool-cases (has_index loop.received loop.index)) [
  | inr missing ↦ inl (
    loop.index,
    record {
      from = omega arith;
      below = omega arith;
      missing = missing;
      earlier = λ j h k. absurd (omega arith);
    },
    rw (go, missing),
  )
  | inl there ↦
      let later : PartLoop = record loop { index = loop.index + 1 } in
      elim (next_part-sends q ref left later go) [
        | inl (i, s, e) ↦ inl (i, skip_received loop left i there s, rw (go, there) e)
        | inr (a, e) ↦ inr (skip_all loop left there a, rw (go, there) e)
      ]
]
  where
    at_or_after :
        (loop : PartLoop) (j : ℕ)
        → has_index loop.received loop.index ≡ true
        → (loop.index + 1 ≤ j → has_index loop.received j ≡ true)
        → loop.index ≤ j
        → has_index loop.received j ≡ true
    at_or_after loop j there later h = elim (dec_lt loop.index j) [
      | yes lt ↦ later (omega arith)
      | no ge ↦ let same : j ≡ loop.index = omega arith in rw same there
    ]

    skip_received :
        (loop : PartLoop) (left i : ℕ)
        → has_index loop.received loop.index ≡ true
        → SendsPart (record loop { index = loop.index + 1 }) left i
        → SendsPart loop (suc left) i
    skip_received loop left i there s = record {
      from = omega (arith, s.from);
      below = omega (arith, s.below);
      missing = s.missing;
      earlier = λ j h k. at_or_after loop j there (λ g. s.earlier j g k) h;
    }

    skip_all :
        (loop : PartLoop) (left : ℕ)
        → has_index loop.received loop.index ≡ true
        → AllReceived (record loop { index = loop.index + 1 }) left
        → AllReceived loop (suc left)
    skip_all loop left there a j h k = at_or_after loop j there (λ g. a j g (omega arith)) h
