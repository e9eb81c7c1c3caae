-- ===== src/Workspace/Page/Commands.antt =====
-- What the file view does on an entry's action, on a form and on the answers: `performEntryAction`,
-- `confirmDelete`, the forms, and the callbacks of the mutations.
use file_harbor.Base.{
  Bool, ◌&&◌, ◌||◌, List, [], ◌∷◌, ◌++◌, Option, none, some, Text, codes, truthy, map, find, take,
  ◌===◌, if◌then◌else◌,
}
use file_harbor.Base.OrderedMap
use file_harbor.Base.Results.{error_key, Result, ok, err}
use file_harbor.Api.Records.{FileEntry, JobKind, JobRequest}
use file_harbor.Routes.{item_url, editor_route, directory_route, directory_path_for_editor}
use file_harbor.Workspace.Actions.{EntryActionName}
use file_harbor.Workspace.Listing.{Platform}
use file_harbor.Workspace.Page.{
  Page, rename, move, copy, PendingDelete, single, batch, checksum_notice, error_notice, entries,
  same_text,
}
use file_harbor.Workspace.Page.Batch.{
  Command, submit_job, mutate, go_to, assign_location, refresh_directory, refresh_trash,
  affected_directories, do_batch,
}

-- A job on one entry.
abbrev entry_job : JobKind → FileEntry → Option Text → Option Text → JobRequest
entry_job kind e destination name = record {
  kind = kind;
  previous = none;
  path = some e.path;
  version = some e.version;
  destination = destination;
  name = name;
  target = none;
  listing_token = none;
  entries = [];
}

abbrev path_value : Text → List (Text × Text)
path_value path = (codes "path", path) ∷ []

-- `mutation.mutate` on an entry of the current directory.
abbrev mutate_entry : Page → Text → FileEntry → Command
mutate_entry p endpoint e = mutate endpoint (path_value e.path) (affected_directories p none)

-- The callbacks of the mutations: on success with a checksum, on failure, and in either case.
unfoldable pub mutation_success : Page → Option Text → List Text → Page × List Command
mutation_success p none affected = (p, map refresh_directory affected)
mutation_success p (some hash) affected = (
  (if truthy hash then record p { notice = some (checksum_notice hash) } else p),
  map refresh_directory affected,
)

abbrev settled_trash : Bool → List Command
settled_trash deletes = if deletes then refresh_trash ∷ [] else []

unfoldable pub mutation_end : Page → Text → List Text → Result (Option Text) → Page × List Command
unfolding mutation_success
mutation_end p endpoint affected (ok hash) =
    let (q, commands) = mutation_success p hash affected in
    (q, commands ++ settled_trash (endpoint === codes "do/rm"))
mutation_end p endpoint affected (err e) = (
  record p { notice = some (error_notice (error_key e)) },
  settled_trash (endpoint === codes "do/rm"),
)

-- `if (result.download_url) ... else ...`
unfoldable pub batch_success : Option Text → List Text → List Command
batch_success none affected = map refresh_directory affected
batch_success (some url) affected =
    if truthy url then assign_location url ∷ [] else map refresh_directory affected

unfoldable pub batch_end : Page → Text → List Text → Result (Option Text) → Page × List Command
unfolding batch_success
batch_end p endpoint affected (ok url) =
    (p, batch_success url affected ++ settled_trash (endpoint === codes "do/batch/delete"))
batch_end p endpoint affected (err e) = (
  record p { notice = some (error_notice (error_key e)) },
  settled_trash (endpoint === codes "do/batch/delete"),
)

-- `state.editorOrigin === '/' || state.editorOrigin.startsWith('/d/')`
abbrev is_directory_route : Text → Bool
is_directory_route route = route === codes "/" || take 3 route === codes "/d/"

module _ (platform : Platform) (has_tasks : Bool) (encode : Text → Text) (base_path : Text) where
  -- `performEntryAction`, after it has closed the menu.
  unfoldable pub on_action : Page → EntryActionName → FileEntry → Page × List Command
  unfolding affected_directories editor_route item_url
  on_action p EntryActionName.extract e = (record p { extract_for = some e }, [])
  on_action p EntryActionName.archive e =
      if has_tasks
      then (p, submit_job (entry_job JobKind.compress e none none) ∷ [])
      else (p, mutate_entry p (codes "do/zip") e ∷ [])
  on_action p EntryActionName.archive_preview e = (record p { archive_preview_for = some e }, [])
  on_action p EntryActionName.properties e = (record p { properties_for = some e }, [])
  on_action p EntryActionName.edit e = (p, go_to (editor_route encode e.path) ∷ [])
  on_action p EntryActionName.download e =
      (p, assign_location (item_url encode base_path (codes "download") e.path) ∷ [])
  on_action p EntryActionName.preview e =
      (p, assign_location (item_url encode base_path (codes "view") e.path) ∷ [])
  on_action p EntryActionName.rename e = (record p { form = some (rename, some e) }, [])
  on_action p EntryActionName.move e = (record p { form = some (move, some e) }, [])
  on_action p EntryActionName.copy e = (record p { form = some (copy, some e) }, [])
  on_action p EntryActionName.trash e = (record p { pending_delete = some (single e) }, [])
  on_action p EntryActionName.checksum e = (p, mutate_entry p (codes "do/md5") e ∷ [])

  unfoldable pub perform_entry_action : Page → EntryActionName → FileEntry → Page × List Command
  unfolding on_action
  perform_entry_action p action e = on_action (record p { menu_entry = none }) action e

  unfoldable pub delete_pending : Page → Option PendingDelete → Page × List Command
  unfolding affected_directories do_batch
  delete_pending p none = (p, [])
  delete_pending p (some (single e)) =
      (record p { pending_delete = none }, mutate_entry p (codes "do/rm") e ∷ [])
  delete_pending p (some (batch es)) = (
    record p { pending_delete = none },
    do_batch platform has_tasks p (codes "do/batch/delete") none,
  )

  unfoldable pub confirm_delete : Page → Page × List Command
  unfolding delete_pending
  confirm_delete p = delete_pending p p.pending_delete

  unfoldable pub close_editor : Option Text → Option Text → Command
  unfolding directory_path_for_editor directory_route
  close_editor none editor_path =
      go_to (directory_route encode (directory_path_for_editor editor_path []))
  close_editor (some origin) editor_path =
      if is_directory_route origin
      then go_to origin
      else go_to (directory_route encode (directory_path_for_editor editor_path []))

  -- `signOut` after its await.
  unfoldable pub sign_out_end {ℓ} : {A : Type ℓ} → Page → Result A → Page × List Command
  unfolding item_url
  sign_out_end p (ok value) = (p, assign_location (item_url encode base_path (codes "d") []) ∷ [])
  sign_out_end p (err e) = (record p { notice = some (error_notice (error_key e)) }, [])

  -- The view's `onSubmit` of a form: a copy is a job, if its entry is still listed.
  unfoldable pub on_submit : Page → Text → List (Text × Text) → List Command
  unfolding affected_directories OrderedMap.get
  on_submit p endpoint values =
      let path = OrderedMap.get (codes "path") values in
      let destination = OrderedMap.get (codes "destination") values in
      if endpoint === codes "do/copy" && has_tasks
      then elim (find (λ (item : FileEntry). same_text (some item.path) path) (entries p)) [
        | none ↦ []
        | some e ↦
            submit_job (entry_job JobKind.copy e destination (OrderedMap.get (codes "name") values))
            ∷ []
      ]
      else mutate endpoint values (affected_directories p destination) ∷ []
