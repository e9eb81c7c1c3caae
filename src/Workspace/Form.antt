-- ===== src/Workspace/Form.antt =====
-- The form of the file view that makes, renames, moves and copies entries: `EntryForm` of
-- web/src/components/Workspace.tsx.
use file_harbor.Base.{
  Bool, true, false, not, ◌&&◌, ◌||◌, List, [], ◌∷◌, ◌++◌, Option, none, some, Text, codes, truthy,
  is_some, ◌===◌, if◌then◌else◌,
}
use file_harbor.Api.Records.{FileEntry}
use file_harbor.Routes.{trim}
use file_harbor.Workspace.Page.{FormAction, newdir, newfile, rename, move, copy}

pub record EntryForm : Type 0 where
  pub action : FormAction
  pub entry : Option FileEntry
  pub current_path : Text
  pub value : Text
  pub destination : Text

-- The fields after the effect of an opened form.
unfoldable pub open_form : FormAction → Option FileEntry → Text → EntryForm
open_form action entry current_path = record {
  action = action;
  entry = entry;
  current_path = current_path;
  value = elim entry [ none ↦ [] | some e ↦ e.name ];
  destination = current_path;
}

-- What the form calls: `onSubmit`, `onBatchSubmit` or neither.
pub data FormCall : Type 0 where
  call_submit : Text → List (Text × Text) → FormCall
  call_batch_submit : Text → Text → FormCall
  no_call : FormCall

-- The template `do/${state.action}`, and the like.
abbrev pub action_text : FormAction → Text
action_text newdir = codes "newdir"
action_text newfile = codes "newfile"
action_text rename = codes "rename"
action_text move = codes "move"
action_text copy = codes "copy"

abbrev pub is_destination_action : FormAction → Bool
is_destination_action move = true
is_destination_action copy = true
is_destination_action _ = false

abbrev pub is_multiple : EntryForm → Bool
is_multiple f = not (is_some f.entry) && is_destination_action f.action

abbrev pub destination_is_source : EntryForm → Bool
destination_is_source f = is_destination_action f.action && f.destination === f.current_path

-- `value && value !== state.entry.name ? { name: value } : {}`
abbrev new_name : Text → FileEntry → List (Text × Text)
new_name value e = if truthy value && not (value === e.name) then (codes "name", value) ∷ [] else []

-- The branches on a form for one entry.
abbrev submit_entry : EntryForm → FormAction → Option FileEntry → FormCall
submit_entry f action none = no_call
submit_entry f rename (some e) =
    call_submit (codes "do/rename") ((codes "path", e.path) ∷ (codes "name", f.value) ∷ [])
submit_entry f action (some e) =
    call_submit (codes "do/" ++ action_text action)
      ((codes "path", e.path) ∷ (codes "destination", f.destination) ∷ new_name f.value e)

abbrev submit_action : EntryForm → FormAction → FormCall
submit_action f newdir =
    call_submit (codes "do/newdir")
      ((codes "path", f.current_path) ∷ (codes "dirname", f.value) ∷ [])
submit_action f newfile =
    call_submit (codes "do/newfile")
      ((codes "path", f.current_path) ∷ (codes "filename", f.value) ∷ [])
submit_action f action =
    if is_multiple f
    then call_batch_submit (codes "do/batch/" ++ action_text action) f.destination
    else submit_entry f action f.entry

unfoldable pub submit : EntryForm → FormCall
submit f = submit_action f f.action

-- `confirmDisabled`
unfoldable pub confirm_disabled : EntryForm → Bool
unfolding trim
confirm_disabled f = (not (is_multiple f) && not (truthy (trim f.value))) || destination_is_source f
