-- ===== src/Directories/Pick.antt =====
-- `pickDirectory` of web/src/uploads/directoryEntries.ts. A directory handle is a tree that the
-- browser gives; `check` is called at numbered times, and an oracle says for each of them whether
-- the signal is aborted and what the clock shows.
use file_harbor.Base.{ℕ, ◌+◌, Bool, [], Text, ltb, if◌then◌else◌}
use file_harbor.Base.Results.{Failure, Result, ok, err, and_then}
use file_harbor.Uploads.Model.{SourceFile}
use file_harbor.Directories.{DirectorySelection, batch_limit_exceeded}
use file_harbor.Directories.Drop.{Walk, start_walk, under, enter, push_file, push_directory}

mutual
  pub data Handle : Type 0 where
    file_handle : Text → Result SourceFile → Handle
    directory_handle : Text → Handles → Handle

  -- What `values()` yields: handles one after another, until the end or a failure.
  pub data Handles : Type 0 where
    no_handles : Handles
    handles_failed : Failure → Handles
    a_handle : Handle → Handles → Handles

-- The state of the walk with the number of checks made so far.
pub record PickWalk : Type 0 where
  pub walked : Walk
  pub checks : ℕ

abbrev pub start_pick : PickWalk
start_pick = record { walked = start_walk; checks = 0 }

-- `result.files.push(...)` and `result.directories.push(...)`
unfoldable pub pick_file : PickWalk → Text → SourceFile → PickWalk
unfolding push_file
pick_file w path file = record w { walked = push_file w.walked path file }

unfoldable pub pick_subdirectory : PickWalk → Text → PickWalk
unfolding push_directory
pick_subdirectory w path = record w { walked = push_directory w.walked path }

module _ (aborted : ℕ → Bool) (abort_reason : Failure) (clock : ℕ → ℕ) (deadline : ℕ) where
  -- `signal.throwIfAborted()`, then the deadline.
  unfoldable pub check : PickWalk → Result PickWalk
  check w =
      if aborted w.checks
      then err abort_reason
      else if ltb deadline (clock w.checks)
      then err batch_limit_exceeded
      else ok (record w { checks = w.checks + 1 })

  unfoldable pub enter_checked : PickWalk → Text → Result PickWalk
  unfolding check enter
  enter_checked w path =
      and_then (check w) (λ v. and_then (enter v.walked path) (λ u. ok (record v { walked = u })))

  unfoldable mutual
    unfolding enter_checked under check pick_file pick_subdirectory

    pub walk_handle : Handle → Text → PickWalk → Result PickWalk
    walk_handle (file_handle name file) prefix w =
        and_then (enter_checked w (under prefix name)) (λ v.
          and_then file (λ f. and_then (check v) (λ u. ok (pick_file u (under prefix name) f))))
    walk_handle (directory_handle name handles) prefix w =
        and_then (enter_checked w (under prefix name))
          (λ v. walk_handles handles (under prefix name) (pick_subdirectory v (under prefix name)))

    pub walk_handles : Handles → Text → PickWalk → Result PickWalk
    walk_handles no_handles path w = ok w
    walk_handles (handles_failed e) path w = err e
    walk_handles (a_handle handle handles) path w =
        and_then (walk_handle handle path w) (walk_handles handles path)

  unfoldable pub pick_directory : Handle → Result DirectorySelection
  unfolding walk_handle
  pick_directory root = and_then (walk_handle root [] start_pick) (λ w. ok (w.walked).result)
