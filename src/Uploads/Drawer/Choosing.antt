-- ===== src/Uploads/Drawer/Choosing.antt =====
-- The choice and the drop of directories: `chooseDirectory` and the callbacks of the input and of
-- the drop zone in web/src/components/UploadQueueDrawer.tsx.
use file_harbor.Base.{
  Bool, true, false, not, ◌||◌, List, [], ◌∷◌, Option, none, some, codes, is_some, if◌then◌else◌,
}
use file_harbor.Base.Results.{Result, ok, err}
use file_harbor.Directories.{DirectorySelection, files_with_directories}
use file_harbor.Directories.Drop.{Root}
use file_harbor.Uploads.Model.{SourceFile}
use file_harbor.Uploads.Drawer.{Drawer, QueueCall, handle_files}

-- The drawer with the controller of the choice under way; the Boolean says whether it is aborted.
pub record Choosing : Type 0 where
  pub drawer : Drawer
  pub enumeration : Option Bool

-- What the button does: it clicks the input, nothing, or asks the browser for a directory.
pub data Choice : Type 0 where
  click_input ignore_click pick_now : Choice

unfoldable pub choose_begin : Choosing → Bool → Choosing × Choice
choose_begin c supported =
    if not supported
    then (c, click_input)
    else if is_some c.enumeration
    then (c, ignore_click)
    else (
      record {
        drawer = record c.drawer { preparing = true; attachment_error = none };
        enumeration = some false;
      },
      pick_now,
    )

-- `enumeration.current?.abort()`
unfoldable pub abort_choice : Choosing → Choosing
abort_choice c = elim c.enumeration [
  | none ↦ c
  | some aborted ↦ record c { enumeration = some true }
]

abbrev is_aborted : Option Bool → Bool
is_aborted none = false
is_aborted (some aborted) = aborted

-- The `finally` block.
unfoldable pub choose_end : Choosing → Choosing
choose_end c = record { drawer = record c.drawer { preparing = false }; enumeration = none }

-- After `pickDirectory`: the selection that goes to `addDirectorySelection`, if any. The Boolean
-- says whether what is thrown is the browser's `AbortError`.
unfoldable pub picked :
    Choosing → Result DirectorySelection → Bool → Choosing × Option DirectorySelection
unfolding choose_end
picked c (ok selection) abort_error =
    if is_aborted c.enumeration then (choose_end c, none) else (c, some selection)
picked c (err e) abort_error =
    if is_aborted c.enumeration || abort_error then (choose_end c, none) else (
      choose_end (record c {
        drawer = record c.drawer { attachment_error = some (codes "error.generic") };
      }),
      none,
    )

-- What the drawer goes on with: the selection that is added, or what the queue is asked.
pub data Dropped : Type 0 where
  select_now : DirectorySelection → Dropped
  walk_roots_now : List Root → Dropped
  call_queue : Option QueueCall → Dropped
  nothing_dropped : Dropped

-- The input for directories, without the picker of the browser.
unfoldable pub input_changed : Drawer → List SourceFile → Drawer × Dropped
unfolding files_with_directories
input_changed d files = elim (files_with_directories files) [
  | ok selection ↦ (d, select_now selection)
  | err e ↦ (record d { attachment_error = some (codes "error.invalid_path") }, nothing_dropped)
]

-- A drop: the items of the transfer, or its files if there are none.
unfoldable pub dropped : Drawer → List Root → List SourceFile → Drawer × Dropped
unfolding handle_files
dropped d roots files = if d.preparing then (d, nothing_dropped) else elim roots [
  | [] ↦
      let (e, call) = handle_files (record d { attachment_id = none }) files in (e, call_queue call)
  | root ∷ more ↦
      (record d { attachment_id = none; preparing = true }, walk_roots_now (root ∷ more))
]

-- After `droppedDirectories`.
unfoldable pub walked : Drawer → Result DirectorySelection → Drawer × Dropped
walked d (ok selection) = (d, select_now selection)
walked d (err e) = (
  record d { preparing = false; attachment_error = some (codes "error.invalid_path") },
  nothing_dropped,
)
