-- ===== src/Uploads/Restoring.antt =====
-- `restoreDirectoryFiles` of web/src/uploads/queue.ts: the files of a picked directory go to the
-- uploads that wait for them, and those that fit none are added.
use file_harbor.Base.{
  ℕ, Bool, true, false, not, ◌&&◌, ◌||◌, List, [], ◌∷◌, ◌++◌, Option, none, some, Text, filter,
  is_some, ◌===◌, if◌then◌else◌,
}
use file_harbor.Uploads.Model.{SourceFile, QueueItem, is_terminal}
use file_harbor.Uploads.Queue.{Queue, snapshot}
use file_harbor.Uploads.Operations.{
  Started, Addition, target_path, add_directory_files, attach_begin, attach_hashed,
}

-- What the loop keeps over its await: the files that are left, `additions`, the destination and
-- `mismatched`.
pub record RestoreLoop : Type 0 where
  pub rest : List Addition
  pub additions : List Addition
  pub destination : Text
  pub mismatched : Bool

-- The digest of a file is awaited, or `attachFile` has returned, or the method has.
pub data RestorePoint : Type 0 where
  hashing_source : ℕ → SourceFile → RestoreLoop → RestorePoint
  attach_returned : Bool → RestoreLoop → RestorePoint
  restored : Bool → RestorePoint

abbrev pub Restoring : Type 0
Restoring = (Queue × List Started) × RestorePoint

abbrev same_path : Option Text → Text → Bool
same_path none path = false
same_path (some p) path = p === path

unfoldable pub is_match : Text → Addition → ℕ × QueueItem → Bool
unfolding target_path
is_match destination a (ref, item) =
    item.path === target_path destination a.relative_path
    && same_path item.relative_path a.relative_path
    && item.name === (a.file).name
    && not (is_terminal item.phase)

abbrev pub attach_point : SourceFile → RestoreLoop → Queue × Option ℕ → Restoring
attach_point file loop (q, none) = ((q, []), attach_returned false loop)
attach_point file loop (q, some ref) = ((q, []), hashing_source ref file loop)

-- What the loop does with a file: it goes on with `additions` and `mismatched`, or attaches the file
-- to an upload.
pub data Decision : Type 0 where
  go_on : List Addition → Bool → Decision
  attach_to : Text → Decision

unfoldable pub decide : List (ℕ × QueueItem) → Addition → List Addition → Bool → Decision
decide [] a additions mismatched = go_on (additions ++ a ∷ []) mismatched
decide ((ref, existing) ∷ []) a additions mismatched =
    if is_some existing.file then go_on additions mismatched else attach_to existing.id
decide (one ∷ other ∷ more) a additions mismatched = go_on additions true

abbrev pub follow {ℓ} : {A : Type ℓ} → Decision → (List Addition → Bool → A) → (Text → A) → A
follow (go_on additions mismatched) next attach = next additions mismatched
follow (attach_to id) next attach = attach id

-- The loop from a file on, up to its next await or its end.
unfoldable pub restore_files : Queue → Text → List Addition → List Addition → Bool → Restoring
unfolding snapshot is_match attach_begin add_directory_files decide
restore_files q destination additions [] mismatched =
    (add_directory_files q additions destination, restored (not mismatched))
restore_files q destination additions (a ∷ rest) mismatched =
    follow (decide (filter (is_match destination a) (snapshot q)) a additions mismatched)
      (λ added missed. restore_files q destination added rest missed)
      (λ id.
        attach_point a.file
          (record {
            rest = rest;
            additions = additions;
            destination = destination;
            mismatched = mismatched;
          })
          (attach_begin q id a.file))

-- After the digest of a file.
unfoldable pub restore_hashed : Queue → ℕ → SourceFile → RestoreLoop → Text → Restoring
unfolding attach_hashed
restore_hashed q ref file loop digest =
    let (pumped, attached) = attach_hashed q ref file digest in
    (pumped, attach_returned attached loop)

-- After `attachFile`.
unfoldable pub restore_attached : Queue → Bool → RestoreLoop → Restoring
unfolding restore_files
restore_attached q attached loop =
    restore_files q loop.destination loop.additions loop.rest (loop.mismatched || not attached)
