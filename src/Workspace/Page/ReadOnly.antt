-- ===== src/Workspace/Page/ReadOnly.antt =====
-- What the file view lets a user do who may not change files.
use file_harbor.Base.{
  ◌≡◌, refl, Bool, true, false, ◌&&◌, List, [], ◌∷◌, none, Text, filter, any, All, Bool-cases, inl,
  inr,
}
use file_harbor.Api.Records.{FileEntry}
use file_harbor.Workspace.Actions.{
  EntryActionName, entry_actions, visible, permitted, entry_menu_actions,
}
use file_harbor.Workspace.Listing.{Platform}
use file_harbor.Workspace.Page.{Page}
use file_harbor.Workspace.Page.Batch.{Command, submit_job, mutate, mutate_batch}
use file_harbor.Workspace.Page.Commands.{on_action, perform_entry_action}

-- The commands that ask the server to change something.
abbrev pub asks_change : Command → Bool
asks_change (submit_job request) = true
asks_change (mutate endpoint values affected) = true
asks_change (mutate_batch endpoint body affected) = true
asks_change _ = false

-- A step asks for no change and opens no dialog that could.
abbrev pub IsHarmless : Page → Page × List Command → Type 0
IsHarmless p (q, commands) =
    (any asks_change commands ≡ false)
    × (q.form ≡ p.form)
    × (q.extract_for ≡ p.extract_for)
    × (q.pending_delete ≡ p.pending_delete)

All-filtered {ℓ κ} :
    {A : Type ℓ} (P : A → Type κ) (q : A → Bool) (xs : List A)
    → ((x : A) → q x ≡ true → P x)
    → All P (filter q xs)
All-filtered P q [] h = tt
All-filtered P q (x ∷ xs) h = elim (Bool-cases (q x)) [
  | inl keep ↦ rw keep (h x keep, All-filtered P q xs h)
  | inr drop ↦ rw drop (All-filtered P q xs h)
]

module _ (platform : Platform) (has_tasks : Bool) (encode : Text → Text) (base_path : Text) where
  -- Whichever action a user without the right to change files chooses from the menu of an entry,
  -- the view asks the server for no change, and the forms, the extraction and the deletion that
  -- could ask for one stay as they are.
  pub read_only-IsHarmless :
      (p : Page) (e : FileEntry) (editor_available : Bool)
      → All
          (λ action.
            IsHarmless p (perform_entry_action platform has_tasks encode base_path p action e))
          (entry_menu_actions e false editor_available)
  unfolding entry_menu_actions
  read_only-IsHarmless p e editor_available =
      All-filtered _ (λ a. visible a e && permitted false editor_available a) entry_actions harmless
    where
      and_false : (b : Bool) → (b && false) ≡ true → true ≡ false
      and_false true h = cc
      and_false false h = cc

      allowed :
          (a : EntryActionName)
          → (visible a e && permitted false editor_available a) ≡ true
          → IsHarmless p
              (on_action platform has_tasks encode base_path (record p { menu_entry = none }) a e)
      allowed EntryActionName.rename h =
          absurd (cc (and_false (visible EntryActionName.rename e) (unfold permitted in h)))
      allowed EntryActionName.move h =
          absurd (cc (and_false (visible EntryActionName.move e) (unfold permitted in h)))
      allowed EntryActionName.copy h =
          absurd (cc (and_false (visible EntryActionName.copy e) (unfold permitted in h)))
      allowed EntryActionName.archive h =
          absurd (cc (and_false (visible EntryActionName.archive e) (unfold permitted in h)))
      allowed EntryActionName.extract h =
          absurd (cc (and_false (visible EntryActionName.extract e) (unfold permitted in h)))
      allowed EntryActionName.trash h =
          absurd (cc (and_false (visible EntryActionName.trash e) (unfold permitted in h)))
      allowed EntryActionName.checksum h =
          absurd (cc (and_false (visible EntryActionName.checksum e) (unfold permitted in h)))
      allowed EntryActionName.archive_preview h = unfold on_action in (refl, refl, refl, refl)
      allowed EntryActionName.properties h = unfold on_action in (refl, refl, refl, refl)
      allowed EntryActionName.edit h = unfold on_action in (refl, refl, refl, refl)
      allowed EntryActionName.download h = unfold on_action in (refl, refl, refl, refl)
      allowed EntryActionName.preview h = unfold on_action in (refl, refl, refl, refl)

      harmless :
          (a : EntryActionName)
          → (visible a e && permitted false editor_available a) ≡ true
          → IsHarmless p (perform_entry_action platform has_tasks encode base_path p a e)
      harmless a h = unfold perform_entry_action in allowed a h
