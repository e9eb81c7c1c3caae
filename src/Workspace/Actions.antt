-- ===== src/Workspace/Actions.antt =====
-- The actions on an entry: web/src/components/entryActions.ts. Icons are left out.
use file_harbor.Base.{
  ◌≡◌, refl, inl, inr, Bool, true, false, not, ◌&&◌, List, [], ◌∷◌, filter, any, Bool-cases,
}
use file_harbor.Api.Records.{EntryKind, file, directory, FileEntry}

pub data EntryActionName : Type 0 where
  download preview archive_preview edit properties rename move copy archive extract checksum trash :
      EntryActionName

abbrev is_file : EntryKind → Bool
is_file file = true
is_file directory = false

-- The field `visible` of the table.
unfoldable pub visible : EntryActionName → FileEntry → Bool
visible download e = is_file e.kind
visible archive_preview e = e.is_archive
visible preview e = is_file e.kind && e.previewable
visible edit e = is_file e.kind && e.editable
visible archive e = not (is_file e.kind)
visible extract e = e.is_archive
visible checksum e = is_file e.kind
visible _ e = true

abbrev pub entry_actions : List EntryActionName
entry_actions =
    download ∷ archive_preview ∷ preview ∷ edit ∷ properties ∷ rename ∷ move ∷ copy ∷ archive
    ∷ extract ∷ checksum ∷ trash ∷ []

-- The rest of the filter's callback.
unfoldable pub permitted : Bool → Bool → EntryActionName → Bool
permitted mutable editor_available edit = editor_available
permitted mutable editor_available properties = true
permitted mutable editor_available download = true
permitted mutable editor_available preview = true
permitted mutable editor_available archive_preview = true
permitted mutable editor_available _ = mutable

unfoldable pub entry_menu_actions : FileEntry → Bool → Bool → List EntryActionName
unfolding visible permitted
entry_menu_actions e mutable editor_available =
    filter (λ a. visible a e && permitted mutable editor_available a) entry_actions

-- The actions that change files or start work on the server, `edit` apart.
abbrev changes_files : EntryActionName → Bool
changes_files rename = true
changes_files move = true
changes_files copy = true
changes_files archive = true
changes_files extract = true
changes_files trash = true
changes_files _ = false

any-filter {ℓ} :
    {A : Type ℓ} (q p : A → Bool) (xs : List A)
    → ((x : A) → p x ≡ true → q x ≡ false)
    → any q (filter p xs) ≡ false
any-filter q p [] h = refl
any-filter q p (x ∷ xs) h = elim (Bool-cases (p x)) [
  | inl keep ↦ rw (keep, h x keep) (any-filter q p xs h)
  | inr drop ↦ rw drop (any-filter q p xs h)
]

-- A user who may not change files is offered no action that changes them, on any entry.
read_only_menu :
    (e : FileEntry) (editor_available : Bool)
    → any changes_files (entry_menu_actions e false editor_available) ≡ false
unfolding entry_menu_actions
read_only_menu e editor_available =
    any-filter changes_files (λ a. visible a e && permitted false editor_available a) entry_actions
      harmless
  where
    and_false : (b : Bool) → (b && false) ≡ true → true ≡ false
    and_false true h = cc
    and_false false h = cc

    harmless :
        (a : EntryActionName)
        → (visible a e && permitted false editor_available a) ≡ true
        → changes_files a ≡ false
    harmless rename h = and_false (visible rename e) (unfold permitted in h)
    harmless move h = and_false (visible move e) (unfold permitted in h)
    harmless copy h = and_false (visible copy e) (unfold permitted in h)
    harmless archive h = and_false (visible archive e) (unfold permitted in h)
    harmless extract h = and_false (visible extract e) (unfold permitted in h)
    harmless trash h = and_false (visible trash e) (unfold permitted in h)
    harmless _ h = refl
