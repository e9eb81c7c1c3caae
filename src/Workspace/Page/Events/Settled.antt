-- ===== src/Workspace/Page/Events/Settled.antt =====
-- The effects, and what the events leave to them: the refs of the effects hold what the page showed
-- before an event.
use file_harbor.Base.{
  ◌≡◌, refl, ◌⊎◌, inl, inr, Bool, true, false, List, [], Option, none, some, Text, if_elim, ===_iff,
  ◌===◌, Bool-cases, if◌then◌else◌, ap, truthy,
}
use file_harbor.Base.Results.{Result, ok, err}
use file_harbor.Api.Records.{DirectoryListing, FileEntry}
use file_harbor.Workspace.Actions.{EntryActionName}
use file_harbor.Workspace.Listing.{Platform, ListingControls}
use file_harbor.Workspace.Page.{
  Page, token_of, keeps_token, keeps_controls, path_effect, token_effect, controls_effect, settle,
  reset_view, select, select_all, PendingDelete, single, batch,
}
use file_harbor.Workspace.Page.Batch.{Command}
use file_harbor.Workspace.Page.Refresh.{refresh_end}
use file_harbor.Workspace.Page.Commands.{
  on_action, perform_entry_action, delete_pending, confirm_delete, mutation_success, mutation_end,
  batch_end,
}
use file_harbor.Workspace.Page.Events.{select_row, open_menu, choose_action}

abbrev pub Refs : Type 0
Refs = Text × Option Text × Option ListingControls

abbrev pub refs : Page → Refs
refs p = (p.previous_path, p.previous_token, p.previous_controls)

-- What dialogs and notices leave alone.
abbrev pub core : Page → Refs × List Text
core p = (refs p, p.selected)

-- The effects find nothing changed.
abbrev pub IsUnchanged : Page → Type 0
IsUnchanged p =
    (p.previous_path ≡ p.current_path)
    × (keeps_token p.previous_token (token_of p.listing) ≡ true)
    × (keeps_controls p.previous_controls p.controls ≡ true)

abbrev pub Shown : Type 0
Shown = Text × Option DirectoryListing × ListingControls

abbrev pub shown : Page → Shown
shown p = (p.current_path, p.listing, p.controls)

either_nil : (b : Bool) (xs : List Text) → xs ≡ [] → (if b then xs else []) ≡ []
either_nil true xs h = h
either_nil false xs h = refl

path_effect-nil : (p : Page) → p.selected ≡ [] → (path_effect p).selected ≡ []
unfolding path_effect
path_effect-nil p h =
    if_elim (λ (q : Page). q.selected ≡ []) (p.previous_path === p.current_path) (λ _. h)
      (λ _. refl)

later_effects-nil : (p : Page) → p.selected ≡ [] → (controls_effect (token_effect p)).selected ≡ []
unfolding token_effect controls_effect
later_effects-nil p h =
    either_nil (keeps_controls p.previous_controls p.controls) _
      (either_nil (keeps_token p.previous_token (token_of p.listing)) p.selected h)

pub settle-nil : (p : Page) → p.selected ≡ [] → (settle p).selected ≡ []
unfolding settle
settle-nil p h = later_effects-nil (path_effect p) (path_effect-nil p h)

later_effects-clear :
    (p : Page)
    → p.previous_path ≡ p.current_path
    → ((controls_effect (token_effect p)).selected ≡ [])
      ⊎ (IsUnchanged p × (shown (controls_effect (token_effect p)) ≡ shown p))
unfolding token_effect controls_effect
later_effects-clear p stays =
    elim (Bool-cases (keeps_token p.previous_token (token_of p.listing))) [
      | inr other ↦ inl (either_nil (keeps_controls p.previous_controls p.controls) _ (simp other))
      | inl token ↦ elim (Bool-cases (keeps_controls p.previous_controls p.controls)) [
        | inr other ↦ inl (simp other)
        | inl controls ↦ inr ((stays, token, controls), refl)
      ]
    ]

-- Nothing is selected after the effects, unless they find nothing changed.
pub settle-clears :
    (p : Page) → ((settle p).selected ≡ []) ⊎ (IsUnchanged p × (shown (settle p) ≡ shown p))
unfolding settle path_effect
settle-clears p =
    if_elim
      (λ (q : Page).
        ((controls_effect (token_effect q)).selected ≡ [])
        ⊎ (IsUnchanged p × (shown (controls_effect (token_effect q)) ≡ shown p)))
      (p.previous_path === p.current_path)
      (λ same. later_effects-clear p ((===_iff p.previous_path p.current_path).0 same))
      (λ _. inl (later_effects-nil (reset_view p) refl))

abbrev pub IsSettled : Page → Type 0
IsSettled p = refs p ≡ (p.current_path, token_of p.listing, some p.controls)

pub settle-IsSettled : (p : Page) → IsSettled (settle p)
unfolding settle path_effect token_effect controls_effect
settle-IsSettled p =
    if_elim (λ (q : Page). IsSettled (controls_effect (token_effect q)))
      (p.previous_path === p.current_path)
      (λ same.
        ap (λ path. (path, token_of p.listing, some p.controls))
          ((===_iff p.previous_path p.current_path).0 same))
      (λ _. refl)

module _ (platform : Platform) (has_tasks : Bool) (encode : Text → Text) (base_path : Text) where
  pub select_row-refs :
      (p : Page) (o : Option FileEntry) (b : Bool)
      → refs (select_row platform has_tasks encode base_path p o b) ≡ refs p
  unfolding select
  select_row-refs p none b = refl
  select_row-refs p (some e) true = refl
  select_row-refs p (some e) false = refl

  pub select_all-refs : (p : Page) (b : Bool) → refs (select_all platform p b) ≡ refs p
  unfolding select_all
  select_all-refs p true = refl
  select_all-refs p false = refl

  pub choose_action-core :
      (p : Page) (o : Option FileEntry) (a : EntryActionName)
      → core (choose_action platform has_tasks encode base_path p o a) ≡ core p
  unfolding perform_entry_action on_action
  choose_action-core p none a = refl
  choose_action-core p (some e) EntryActionName.archive =
      if_elim (λ (x : Page × List Command). core x.0 ≡ core p) has_tasks (λ _. refl) (λ _. refl)
  choose_action-core p (some e) EntryActionName.extract = refl
  choose_action-core p (some e) EntryActionName.archive_preview = refl
  choose_action-core p (some e) EntryActionName.properties = refl
  choose_action-core p (some e) EntryActionName.edit = refl
  choose_action-core p (some e) EntryActionName.download = refl
  choose_action-core p (some e) EntryActionName.preview = refl
  choose_action-core p (some e) EntryActionName.rename = refl
  choose_action-core p (some e) EntryActionName.move = refl
  choose_action-core p (some e) EntryActionName.copy = refl
  choose_action-core p (some e) EntryActionName.trash = refl
  choose_action-core p (some e) EntryActionName.checksum = refl

  pub open_menu-core :
      (p : Page) (o : Option FileEntry)
      → core (open_menu platform has_tasks encode base_path p o) ≡ core p
  open_menu-core p none = refl
  open_menu-core p (some e) = refl

  delete_pending-core :
      (p : Page) (pending : Option PendingDelete)
      → core (delete_pending platform has_tasks encode base_path p pending).0 ≡ core p
  unfolding delete_pending
  delete_pending-core p none = refl
  delete_pending-core p (some (single e)) = refl
  delete_pending-core p (some (batch es)) = refl

  pub confirm_delete-core :
      (p : Page) → core (confirm_delete platform has_tasks encode base_path p).0 ≡ core p
  unfolding confirm_delete
  confirm_delete-core p = delete_pending-core p p.pending_delete

  pub mutation_end-core :
      (p : Page) (endpoint : Text) (affected : List Text) (r : Result (Option Text))
      → core (mutation_end p endpoint affected r).0 ≡ core p
  unfolding mutation_end mutation_success
  mutation_end-core p endpoint affected (ok none) = refl
  mutation_end-core p endpoint affected (ok (some hash)) =
      if_elim (λ (q : Page). core q ≡ core p) (truthy hash) (λ _. refl) (λ _. refl)
  mutation_end-core p endpoint affected (err e) = refl

  pub batch_end-core :
      (p : Page) (endpoint : Text) (affected : List Text) (r : Result (Option Text))
      → core (batch_end p endpoint affected r).0 ≡ core p
  unfolding batch_end
  batch_end-core p endpoint affected (ok url) = refl
  batch_end-core p endpoint affected (err e) = refl

  pub refresh_end-core :
      (p : Page) (path : Text) (r : Result (Unit {0})) → core (refresh_end p path r) ≡ core p
  unfolding refresh_end
  refresh_end-core p path (ok value) =
      if_elim (λ (q : Page). core q ≡ core p) (p.current_path === path) (λ _. refl) (λ _. refl)
  refresh_end-core p path (err e) =
      if_elim (λ (q : Page). core q ≡ core p) (p.current_path === path) (λ _. refl) (λ _. refl)
