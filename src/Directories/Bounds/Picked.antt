-- ===== src/Directories/Bounds/Picked.antt =====
-- The same of `pickDirectory`, whatever the signal and the clock do.
use file_harbor.Base.{ℕ, ◌≡◌, Bool, [], Text, if_elim, ltb}
use file_harbor.Base.Results.{
  Failure, Result, ok, err, and_then, OkSatisfies, and_then-OkSatisfies, of_ok,
}
use file_harbor.Uploads.Model.{SourceFile}
use file_harbor.Directories.{DirectorySelection}
use file_harbor.Directories.Drop.{under, enter}
use file_harbor.Directories.Pick.{
  Handle, file_handle, directory_handle, Handles, no_handles, handles_failed, a_handle, PickWalk,
  start_pick, check, enter_checked, pick_file, pick_subdirectory, walk_handle, walk_handles,
  pick_directory,
}
use file_harbor.Directories.Bounds.{
  IsWalk, IsSelection, Entered, enter-Entered, push_file-IsWalk, push_directory-IsWalk,
  start_walk-IsWalk, final-IsSelection,
}

-- The walk of handles carries what the walk of entries does.
abbrev IsPick : PickWalk → Type 0
IsPick w = IsWalk 0 w.walked

abbrev Picked : Result PickWalk → Type 0
Picked = OkSatisfies IsPick

abbrev EnteredPick : Text → PickWalk → Type 0
EnteredPick path w = Entered path w.walked

module _ (aborted : ℕ → Bool) (abort_reason : Failure) (clock : ℕ → ℕ) (deadline : ℕ) where
  check_keeps :
      (P : PickWalk → Type 0) (w : PickWalk)
      → ((n : ℕ) → P (record w { checks = n }))
      → OkSatisfies P (check aborted abort_reason clock deadline w)
  unfolding check
  check_keeps P w h =
      if_elim (OkSatisfies P) (aborted w.checks) (λ _. tt)
        (λ _. if_elim (OkSatisfies P) (ltb deadline (clock w.checks)) (λ _. tt) (λ _. h _))

  enter_checked-EnteredPick :
      (w : PickWalk) (path : Text)
      → IsPick w
      → OkSatisfies (EnteredPick path) (enter_checked aborted abort_reason clock deadline w path)
  unfolding enter_checked
  enter_checked-EnteredPick w path h =
      and_then-OkSatisfies IsPick (EnteredPick path) (check aborted abort_reason clock deadline w) _
        (check_keeps IsPick w (λ n. h))
        (λ v k.
          and_then-OkSatisfies (Entered path) (EnteredPick path) (enter v.walked path) _
            (enter-Entered v.walked path k) (λ u e. e))

  file-Picked :
      (file : Result SourceFile) (w : PickWalk) (path : Text)
      → EnteredPick path w
      → Picked (
          and_then file (λ f.
            and_then (check aborted abort_reason clock deadline w) (λ u. ok (pick_file u path f))))
  unfolding pick_file
  file-Picked (ok f) w path h =
      and_then-OkSatisfies (EnteredPick path) IsPick (check aborted abort_reason clock deadline w) _
        (check_keeps (EnteredPick path) w (λ n. h)) (λ u k. push_file-IsWalk u.walked path f k)
  file-Picked (err e) w path h = tt

  mutual
    unfolding walk_handle pick_subdirectory

    walk_handle-Picked :
        (handle : Handle) (prefix : Text) (w : PickWalk)
        → IsPick w
        → Picked (walk_handle aborted abort_reason clock deadline handle prefix w)
    walk_handle-Picked (file_handle name file) prefix w h =
        and_then-OkSatisfies (EnteredPick (under prefix name)) IsPick
          (enter_checked aborted abort_reason clock deadline w (under prefix name)) _
          (enter_checked-EnteredPick w (under prefix name) h)
          (λ v k. file-Picked file v (under prefix name) k)
    walk_handle-Picked (directory_handle name handles) prefix w h =
        and_then-OkSatisfies (EnteredPick (under prefix name)) IsPick
          (enter_checked aborted abort_reason clock deadline w (under prefix name)) _
          (enter_checked-EnteredPick w (under prefix name) h)
          (λ v k.
            walk_handles-Picked handles (under prefix name)
              (pick_subdirectory v (under prefix name))
              (push_directory-IsWalk v.walked (under prefix name) k))

    walk_handles-Picked :
        (handles : Handles) (path : Text) (w : PickWalk)
        → IsPick w
        → Picked (walk_handles aborted abort_reason clock deadline handles path w)
    walk_handles-Picked no_handles path w h = h
    walk_handles-Picked (handles_failed e) path w h = tt
    walk_handles-Picked (a_handle handle handles) path w h =
        and_then-OkSatisfies IsPick IsPick
          (walk_handle aborted abort_reason clock deadline handle path w) _
          (walk_handle-Picked handle path w h) (λ v k. walk_handles-Picked handles path v k)

  -- Where `pickDirectory` returns a selection, whenever its signal and its deadline allow that,
  -- `validate` accepts the path of every file and of every directory in it, and it has at most
  -- 10000 files and directories together.
  pub pick_directory-IsSelection :
      (root : Handle) (s : DirectorySelection)
      → pick_directory aborted abort_reason clock deadline root ≡ ok s
      → IsSelection s
  unfolding pick_directory
  pick_directory-IsSelection root s =
      of_ok IsSelection (pick_directory aborted abort_reason clock deadline root) s (
        and_then-OkSatisfies IsPick IsSelection
          (walk_handle aborted abort_reason clock deadline root [] start_pick) _
          (walk_handle-Picked root [] start_pick start_walk-IsWalk)
          (λ w h. final-IsSelection w.walked h))
