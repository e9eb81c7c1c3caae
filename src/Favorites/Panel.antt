-- ===== src/Favorites/Panel.antt =====
-- The panel of the favourites and the button of a directory:
-- web/src/components/FavoritesPanel.tsx and web/src/components/FavoriteButton.tsx.
use file_harbor.Base.{
  ℕ, suc, Bool, true, false, not, ◌&&◌, ◌||◌, List, [], ◌∷◌, ◌++◌, Option, none, some, Text, codes,
  truthy, find, split_slash, ◌===◌, if◌then◌else◌,
}
use file_harbor.Base.Results.{Result, ok, err}
use file_harbor.Api.Records.{Favorite}
use file_harbor.Routes.{trim}
use file_harbor.Favorites.{Change, add, rename, remove, error_code}

-- The panel, with the paths that the view was sent to and how often the list was asked for again.
pub record Panel : Type 0 where
  pub opening : Option Text
  pub opening_ref : Bool
  pub open_error : Option (Text × Text)
  pub mounted : Bool
  pub visited : List Text
  pub refetches : ℕ

-- `open` up to its await, and whether the server is asked.
unfoldable pub open_begin : Panel → Favorite → Panel × Bool
open_begin p entry =
    if p.opening_ref
    then (p, false)
    else (record p { opening_ref = true; opening = some entry.id; open_error = none }, true)

-- The `try` and `catch` blocks after the await, with the path that the server answered.
unfoldable pub opened : Panel → Favorite → Result Text → Panel
unfolding error_code
opened p entry (ok path) =
    if not p.mounted
    then p
    else if not (path === entry.path)
    then record p { open_error = some (entry.id, codes "not_found") }
    else record p { visited = p.visited ++ entry.path ∷ [] }
opened p entry (err e) =
    if p.mounted then record p { open_error = some (entry.id, error_code e) } else p

-- `open` after its await, with the `finally` block.
unfoldable pub open_end : Panel → Favorite → Result Text → Panel
unfolding opened
open_end p entry r =
    let q = opened p entry r in
    record q {
      opening_ref = false;
      opening = if q.mounted then none else q.opening;
      refetches = suc q.refetches;
    }

-- `directory.split('/').pop() || t('workspace.root')`
abbrev last_or : Text → List Text → Text
last_or root [] = root
last_or root (part ∷ []) = if truthy part then part else root
last_or root (part ∷ next ∷ parts) = last_or root (next ∷ parts)

-- The change that the button of a directory asks for.
unfoldable pub button_change : List Favorite → Text → Text → Change
unfolding split_slash
button_change entries directory root =
    elim (find (λ (item : Favorite). item.path === directory) entries) [
      | some entry ↦ remove entry
      | none ↦ add directory (last_or root (split_slash directory))
    ]

-- The form that renames a favourite.
pub record Editing : Type 0 where
  pub editing : Option Favorite
  pub edit_label : Text

unfoldable pub rename_pressed : Favorite → Editing
rename_pressed entry = record { editing = some entry; edit_label = entry.label }

-- The change that the form asks for.
unfoldable pub rename_submit : Editing → Option Change
unfolding trim
rename_submit x = elim x.editing [
  | none ↦ none
  | some target ↦ some (rename target (trim x.edit_label))
]

-- After the change: the form is closed if it was made.
unfoldable pub rename_end : Editing → Bool → Bool → Editing
rename_end x success mounted = if success && mounted then record x { editing = none } else x

-- `disabled={busy || !editLabel.trim()}`
unfoldable pub save_disabled : Editing → Bool → Bool
unfolding trim
save_disabled x busy = busy || not (truthy (trim x.edit_label))
