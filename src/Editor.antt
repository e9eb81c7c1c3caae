-- ===== src/Editor.antt =====
-- The editor's dialog: web/src/editor/EditorDialog.tsx, as a state that its handlers and the
-- server's answers change. Messages are the keys that are given to the translation. The blocker of
-- the router is its state: whether it holds back a navigation. An answer belongs to the oldest
-- save under way.
pub mod Saving
mod Tests
use file_harbor.Base.{
  ℕ, suc, Bool, true, false, not, ◌&&◌, ◌||◌, List, [], ◌∷◌, ◌++◌, Option, none, some, Text, codes,
  truthy, get_or_else, ◌===◌, if◌then◌else◌,
}
use file_harbor.Base.Results.{error_key, Failure, api_error, js_error, other_value, Result, ok, err}

pub record Editor : Type 0 where
  pub value : Text
  pub original : Text
  pub version : Text
  pub error : Option Text
  pub conflicted : Bool
  pub saving : Bool
  pub discarding : Bool
  pub blocked : Bool
  pub allow_navigation : Bool
  pub closed : ℕ
  pub proceeded : ℕ

-- `value !== original`
abbrev pub dirty : Editor → Bool
dirty e = not (e.value === e.original)

abbrev pub is_source_changed : Failure → Bool
is_source_changed (api_error status code) = code === codes "source_changed"
is_source_changed (js_error message) = false
is_source_changed other_value = false

pub record Loaded : Type 0 where
  pub content : Option Text
  pub version : Text

-- `load(true)` after its await.
unfoldable pub load_end : Editor → Result Loaded → Editor
load_end e (ok doc) = record e {
  value = get_or_else doc.content [];
  original = get_or_else doc.content [];
  version = doc.version;
  conflicted = false;
}
load_end e (err f) = record e { error = some (error_key f) }

-- Where a save stands, with the text it saves, and whether it closes the dialog afterwards: none
-- for a plain save, else whether a navigation was held back when it began.
pub data Save : Type 0 where
  -- `await api.saveEditorContent(...)`
  sending : Text → Option Bool → Save
  -- `await onSaved?.()`
  refreshing : Option Bool → Save

-- The `catch` and `finally` blocks of `save`.
unfoldable pub save_failed : Editor → Failure → Editor
save_failed e f = record e {
  conflicted = is_source_changed f || e.conflicted;
  error = some (error_key f);
  saving = false;
}

-- The end of `saveAndClose` and of `leaveAfterDiscard`: go on with the navigation, or close.
unfoldable pub leave : Editor → Bool → Editor
leave e held =
    if held
    then record e { discarding = false; blocked = false; proceeded = suc e.proceeded }
    else record e { discarding = false; allow_navigation = true; closed = suc e.closed }

unfoldable pub after_save : Editor → Option Bool → Editor
unfolding leave
after_save e none = e
after_save e (some held) = leave e held

-- `close`
unfoldable pub close : Editor → Editor
close e = if dirty e then record e { discarding = true } else record e { closed = suc e.closed }

-- The blocker: a navigation with unsaved text is held back, and the question is shown.
unfoldable pub navigate : Editor → Editor
navigate e =
    if dirty e && not e.allow_navigation
    then record e { blocked = true; discarding = true }
    else record e { proceeded = suc e.proceeded }

-- The question is answered with no.
unfoldable pub keep_editing : Editor → Editor
keep_editing e = record e { discarding = false; blocked = false }

-- The editor with the saves under way, and the texts that the server has answered or confirmed.
pub record Session : Type 0 where
  pub editor : Editor
  pub saves : List Save
  pub confirmed : List Text

-- `save` up to its await, behind the conditions of the button or of the shortcut.
unfoldable pub save_begin : Session → Bool → Bool → Option Bool → Session
save_begin s writable enabled closing =
    let e = s.editor in
    if enabled && not e.saving && writable && truthy e.version
    then record s {
      editor = record e { saving = true; error = none };
      saves = s.saves ++ sending e.value closing ∷ [];
    }
    else s

unfoldable pub send_end : Session → Result Text → Session
unfolding save_failed
send_end s r = elim s.saves [
  | [] ↦ s
  | save ∷ more ↦ elim save [
    | refreshing closing ↦ s
    | sending text closing ↦ elim r [
      | ok version ↦ record {
        editor = record (s.editor) { original = text; version = version; conflicted = false };
        saves = refreshing closing ∷ more;
        confirmed = text ∷ s.confirmed;
      }
      | err f ↦ record s { editor = save_failed s.editor f; saves = more }
    ]
  ]
]

unfoldable pub refresh_end : Session → Result (Unit {0}) → Session
unfolding save_failed after_save
refresh_end s r = elim s.saves [
  | [] ↦ s
  | save ∷ more ↦ elim save [
    | sending text closing ↦ s
    | refreshing closing ↦ elim r [
      | ok _ ↦ record s {
        editor = after_save (record (s.editor) { saving = false }) closing;
        saves = more;
      }
      | err f ↦ record s { editor = save_failed s.editor f; saves = more }
    ]
  ]
]

unfoldable pub loaded : Session → Result Loaded → Session
unfolding load_end
loaded s (ok doc) = record s {
  editor = load_end s.editor (ok doc);
  confirmed = get_or_else doc.content [] ∷ s.confirmed;
}
loaded s (err f) = record s { editor = load_end s.editor (err f) }

pub data Event : Type 0 where
  types : Text → Event
  press_save press_save_and_close press_reload press_close press_discard press_keep navigates :
      Event
  load_answer : Result Loaded → Event
  save_answer : Result Text → Event
  refresh_answer : Result (Unit {0}) → Event

-- One event; a read-only document takes no text.
unfoldable pub react : Bool → Session → Event → Session
unfolding save_begin send_end refresh_end loaded close navigate keep_editing leave
react writable s (types text) =
    if writable then record s { editor = record (s.editor) { value = text } } else s
react writable s press_save = save_begin s writable (dirty s.editor) none
react writable s press_save_and_close = save_begin s writable true (some (s.editor).blocked)
react writable s press_reload = record s { editor = record (s.editor) { error = none } }
react writable s press_close = record s { editor = close s.editor }
react writable s press_discard = record s { editor = leave s.editor (s.editor).blocked }
react writable s press_keep = record s { editor = keep_editing s.editor }
react writable s navigates = record s { editor = navigate s.editor }
react writable s (load_answer r) = loaded s r
react writable s (save_answer r) = send_end s r
react writable s (refresh_answer r) = refresh_end s r

abbrev pub start : Session
start = record {
  editor = record {
    value = [];
    original = [];
    version = [];
    error = none;
    conflicted = false;
    saving = false;
    discarding = false;
    blocked = false;
    allow_navigation = false;
    closed = 0;
    proceeded = 0;
  };
  saves = [];
  confirmed = [] ∷ [];
}

unfoldable pub run_events : Bool → Session → List Event → Session
unfolding react
run_events writable s [] = s
run_events writable s (e ∷ es) = run_events writable (react writable s e) es
