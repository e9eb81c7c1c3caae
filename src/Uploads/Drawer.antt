-- ===== src/Uploads/Drawer.antt =====
-- The drawer of the uploads: web/src/components/UploadQueueDrawer.tsx.
pub mod Notified
pub mod Choosing
mod Tests
use file_harbor.Base.{
  ℕ, Bool, true, false, not, ◌&&◌, ◌||◌, List, [], ◌∷◌, ◌++◌, Option, none, some, Text, codes,
  length, ltb, any, truthy, is_some, ◌===◌, ◌==◌, if◌then◌else◌,
}
use file_harbor.Base.Results.{error_key, Failure, api_error, js_error, other_value, Result, ok, err}
use file_harbor.Directories.{DirectoryFile, DirectorySelection}
use file_harbor.Uploads.Model.{
  UploadPhase, waiting, hashing, uploading, paused, completed, failed, cancelled, reselect,
  SourceFile, QueueItem, is_terminal,
}

-- The drawer's state, with the destinations that it has told the view of.
pub record Drawer : Type 0 where
  pub items : List QueueItem
  pub completed_destinations : List Text
  pub was_all_done : Bool
  pub preparing : Bool
  pub attachment_id : Option Text
  pub attachment_error : Option Text
  pub has_persisted : Bool
  pub told : List (List Text)

abbrev pub start : Drawer
start = record {
  items = [];
  completed_destinations = [];
  was_all_done = false;
  preparing = false;
  attachment_id = none;
  attachment_error = none;
  has_persisted = false;
  told = [];
}

abbrev pub has_non_terminal : List QueueItem → Bool
has_non_terminal items = any (λ (item : QueueItem). not (is_terminal item.phase)) items

abbrev pub is_completed : UploadPhase → Bool
is_completed completed = true
is_completed _ = false

-- `Set.add`
abbrev pub add_text : Text → List Text → List Text
add_text s texts = if any (λ u. u === s) texts then texts else texts ++ s ∷ []

abbrev pub add_completed : List QueueItem → List Text → List Text
add_completed [] found = found
add_completed (item ∷ items) found =
    add_completed items (if is_completed item.phase then add_text item.path found else found)

-- The body of the component: a new batch forgets the destinations of the last.
unfoldable pub collect : Drawer → Drawer
collect d =
    let fresh = d.was_all_done && has_non_terminal d.items in
    record d {
      completed_destinations =
          add_completed d.items (if fresh then [] else d.completed_destinations);
      was_all_done = if fresh then false else d.was_all_done;
    }

unfoldable pub all_done : Drawer → Bool
all_done d =
    ltb 0 (length d.items)
    && ltb 0 (length d.completed_destinations)
    && not (has_non_terminal d.items)

-- The effect that calls `onAllComplete`.
unfoldable pub tell : Drawer → Drawer
unfolding all_done
tell d =
    if all_done d && not d.was_all_done
    then record d { told = d.told ++ d.completed_destinations ∷ []; was_all_done = true }
    else d

-- A rendering with the queue's items, and its effect.
unfoldable pub render : Drawer → List QueueItem → Drawer
unfolding collect tell
render d items = tell (collect (record d { items = items }))

-- `labelFor`
unfoldable pub label_for : UploadPhase → Text
label_for waiting = codes "upload.waiting"
label_for hashing = codes "upload.hashing"
label_for uploading = codes "upload.uploading"
label_for paused = codes "upload.paused"
label_for completed = codes "upload.completed"
label_for failed = codes "upload.failed"
label_for cancelled = codes "upload.cancelled"
label_for reselect = codes "upload.resumeHint"

-- The button of a row.
pub data RowAction : Type 0 where
  pause_action resume_action choose_original no_action : RowAction

unfoldable pub row_action : UploadPhase → Option SourceFile → RowAction
row_action uploading file = pause_action
row_action hashing file = pause_action
row_action paused (some file) = resume_action
row_action failed (some file) = resume_action
row_action paused none = choose_original
row_action failed none = choose_original
row_action reselect file = choose_original
row_action phase file = no_action

-- What the drawer asks of the queue.
pub data QueueCall : Type 0 where
  attach_call : Text → SourceFile → QueueCall
  add_call : List SourceFile → QueueCall

unfoldable pub open_file_picker : Drawer → Option Text → Drawer
open_file_picker d id = record d { attachment_id = id; attachment_error = none }

abbrev chosen_call : Option Text → List SourceFile → QueueCall
chosen_call (some id) (file ∷ []) = if truthy id then attach_call id file else add_call (file ∷ [])
chosen_call _ files = add_call files

unfoldable pub handle_files : Drawer → List SourceFile → Drawer × Option QueueCall
handle_files d [] = (d, none)
handle_files d (file ∷ files) =
    (record d { attachment_id = none }, some (chosen_call d.attachment_id (file ∷ files)))

-- After `attachFile`.
unfoldable pub attached : Drawer → Bool → Drawer
attached d true = d
attached d false = record d { attachment_error = some (codes "upload.sourceChanged") }

-- `addDirectorySelection`: what comes before the awaits, whether the server is asked for the
-- directories, and what comes after the requests, with the directory that the view is told of.
unfoldable pub selection_begin : Drawer → DirectorySelection → Drawer × Bool
selection_begin d selection =
    (record d { preparing = true; attachment_error = none }, ltb 0 (length selection.directories))

unfoldable pub selection_end : Drawer → DirectorySelection → Text → Result Bool → Drawer
selection_end d selection target (ok fits) = record d {
  preparing = false;
  attachment_error = if fits then d.attachment_error else some (codes "upload.sourceChanged");
  told = if ltb 0 (length selection.files) then d.told else d.told ++ (target ∷ []) ∷ [];
}
selection_end d selection target (err e) = record d {
  preparing = false;
  attachment_error = some (error_key e);
}
