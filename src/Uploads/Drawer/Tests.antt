-- ===== src/Uploads/Drawer/Tests.antt =====
-- A batch of two uploads, and a directory that is picked again.
use file_harbor.Base.{◌≡◌, refl, true, false, [], ◌∷◌, ◌++◌, none, codes, join_slash, parent_path}
use file_harbor.Base.OrderedMap
use file_harbor.Base.Results.{ok}
use file_harbor.Uploads.Model.{QueueItem, uploading, completed, reselect}
use file_harbor.Uploads.Drawer.{
  start, add_completed, render, collect, tell, all_done, selection_end, row_action, choose_original,
}
use file_harbor.Uploads.Drawer.Choosing.{choose_begin, ignore_click}
use file_harbor.Uploads.Drawer.Notified.{render_all, told_once}
use file_harbor.Uploads.Operations.{new_item, target_path, attach_begin, same_source, lookup}
use file_harbor.Uploads.Queue.{snapshot}
use file_harbor.Uploads.Restoring.{restore_files, is_match, decide, hashing_source}
use file_harbor.Uploads.Tests.{report_item, addition, queue_with}

abbrev sending : QueueItem
sending = record report_item { phase = uploading }

abbrev sent : QueueItem
sent = record report_item { phase = completed }

told_once_example :
    (render_all start ((sending ∷ []) ∷ (sent ∷ []) ∷ (sent ∷ []) ∷ [])).told
    ≡ [] ++ add_completed (sent ∷ []) (render start (sending ∷ [])).completed_destinations ∷ []
told_once_example =
    told_once start (sending ∷ []) (sent ∷ []) ((sent ∷ []) ∷ []) refl refl refl refl

told_of_inbox :
    (render_all start ((sending ∷ []) ∷ (sent ∷ []) ∷ [])).told ≡ (codes "inbox/docs" ∷ []) ∷ []
unfolding render collect tell all_done new_item target_path join_slash parent_path
told_of_inbox = refl

-- A selection without files is told of at once.
empty_directory :
    (selection_end start
      (record { files = []; directories = codes "d" ∷ [] })
      (codes "inbox")
      (ok true)).told
    ≡ (codes "inbox" ∷ []) ∷ []
unfolding selection_end
empty_directory = refl

reselected : row_action reselect none ≡ choose_original
unfolding row_action
reselected = refl

-- A directory that is picked again finds the upload that waits for its file.
matched_again :
    (restore_files
      (queue_with (record report_item { file = none; phase = reselect }))
      (codes "inbox")
      []
      (addition ∷ [])
      false).1
    ≡ hashing_source 0 addition.file
        (record { rest = []; additions = []; destination = codes "inbox"; mismatched = false })
unfolding restore_files is_match decide snapshot attach_begin same_source lookup new_item
    target_path join_slash parent_path OrderedMap.get
matched_again = refl

-- A second press while a directory is chosen does nothing.
pressed_twice :
    (choose_begin (choose_begin (record { drawer = start; enumeration = none }) true).0 true).1
    ≡ ignore_click
unfolding choose_begin
pressed_twice = refl
