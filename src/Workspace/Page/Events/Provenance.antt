-- ===== src/Workspace/Page/Events/Provenance.antt =====
-- A selection does not outlive the path, the listing and the controls under which it was made.
use file_harbor.Base.{
  ◌≡◌, ◌∙◌, sym, refl, ap, subst, ◌⊎◌, inl, inr, ◌||◌, Bool, true, List, [], ◌∷◌, Option, none,
  some, Text, if_elim, get_elem?, is_some, ===_iff,
}
use file_harbor.Api.Records.{DirectoryListing}
use file_harbor.Workspace.Listing.{Platform}
use file_harbor.Workspace.Page.{
  Page, token_of, keeps_token, keeps_controls, same_controls, settle, update_listing_controls,
  displayed_entries, open_page,
}
use file_harbor.Workspace.Page.Refresh.{refresh_begin}
use file_harbor.Workspace.Page.Events.{
  Event, navigated, listed, fetching_changed, all_selected, row_selected, selection_cleared,
  refresh_pressed, batch_delete_pressed, delete_confirmed, delete_dismissed, form_closed,
  controls_changed, refresh_answered, menu_opened, action_chosen, form_opened, mutation_answered,
  batch_answered, handle, react, run_events,
}
use file_harbor.Workspace.Page.Events.Settled.{
  Refs, refs, IsSettled, settle-nil, settle-clears, settle-IsSettled, select_row-refs,
  select_all-refs, choose_action-core, open_menu-core, confirm_delete-core, mutation_end-core,
  batch_end-core, refresh_end-core,
}

abbrev refs_of : Refs × List Text → Refs
refs_of (r, s) = r

abbrev selected_of : Refs × List Text → List Text
selected_of (r, s) = s

-- Without a listing nothing is selected.
abbrev pub IsUnlistedEmpty : Page → Type 0
IsUnlistedEmpty p = p.listing ≡ none → p.selected ≡ []

-- The two pages show the same path, the same listing and the same controls.
abbrev pub ShowsSame : Page → Page → Type 0
ShowsSame p q =
    (q.current_path ≡ p.current_path)
    × (token_of q.listing ≡ token_of p.listing)
    × (same_controls p.controls q.controls ≡ true)

module _ (platform : Platform) (has_tasks : Bool) (encode : Text → Text) (base_path : Text) where
  handle-refs :
      (p : Page) (e : Event) → refs (handle platform has_tasks encode base_path p e) ≡ refs p
  unfolding handle update_listing_controls refresh_begin
  handle-refs p (navigated path listing) = refl
  handle-refs p (listed listing) = refl
  handle-refs p (fetching_changed fetching) = refl
  handle-refs p (all_selected checked) =
      if_elim (λ (q : Page). refs q ≡ refs p) (is_some p.listing)
        (λ _. select_all-refs platform has_tasks encode base_path p checked) (λ _. refl)
  handle-refs p (row_selected row checked) =
      if_elim (λ (q : Page). refs q ≡ refs p) (is_some p.listing)
        (λ _.
          select_row-refs platform has_tasks encode base_path p
            (get_elem? (displayed_entries platform p) row) checked)
        (λ _. refl)
  handle-refs p selection_cleared = refl
  handle-refs p refresh_pressed =
      if_elim (λ (x : Page × Option Text). refs x.0 ≡ refs p) (p.manual_refresh || p.fetching)
        (λ _. refl) (λ _. refl)
  handle-refs p batch_delete_pressed = refl
  handle-refs p delete_confirmed =
      ap refs_of (confirm_delete-core platform has_tasks encode base_path p)
  handle-refs p delete_dismissed = refl
  handle-refs p form_closed = refl
  handle-refs p (controls_changed controls) = refl
  handle-refs p (refresh_answered path r) =
      ap refs_of (refresh_end-core platform has_tasks encode base_path p path r)
  handle-refs p (menu_opened row) = ap refs_of (
      open_menu-core platform has_tasks encode base_path p
        (get_elem? (displayed_entries platform p) row))
  handle-refs p (action_chosen row action) = ap refs_of (
      choose_action-core platform has_tasks encode base_path p
        (get_elem? (displayed_entries platform p) row) action)
  handle-refs p (form_opened action) = refl
  handle-refs p (mutation_answered endpoint affected r) =
      ap refs_of (mutation_end-core platform has_tasks encode base_path p endpoint affected r)
  handle-refs p (batch_answered endpoint affected r) =
      ap refs_of (batch_end-core platform has_tasks encode base_path p endpoint affected r)

  -- Before there is a listing no event selects.
  handle-nil :
      (p : Page) (e : Event)
      → p.listing ≡ none
      → p.selected ≡ []
      → (handle platform has_tasks encode base_path p e).selected ≡ []
  unfolding handle update_listing_controls refresh_begin
  handle-nil p (navigated path listing) unlisted h = h
  handle-nil p (listed listing) unlisted h = h
  handle-nil p (fetching_changed fetching) unlisted h = h
  handle-nil p (all_selected checked) unlisted h =
      if_elim (λ (q : Page). q.selected ≡ []) (is_some p.listing)
        (λ some_listing. absurd (cc (ap is_some unlisted))) (λ _. h)
  handle-nil p (row_selected row checked) unlisted h =
      if_elim (λ (q : Page). q.selected ≡ []) (is_some p.listing)
        (λ some_listing. absurd (cc (ap is_some unlisted))) (λ _. h)
  handle-nil p selection_cleared unlisted h = refl
  handle-nil p refresh_pressed unlisted h =
      if_elim (λ (x : Page × Option Text). (x.0).selected ≡ []) (p.manual_refresh || p.fetching)
        (λ _. h) (λ _. refl)
  handle-nil p batch_delete_pressed unlisted h = h
  handle-nil p delete_confirmed unlisted h =
      ap selected_of (confirm_delete-core platform has_tasks encode base_path p) ∙ h
  handle-nil p delete_dismissed unlisted h = h
  handle-nil p form_closed unlisted h = h
  handle-nil p (controls_changed controls) unlisted h = refl
  handle-nil p (refresh_answered path r) unlisted h =
      ap selected_of (refresh_end-core platform has_tasks encode base_path p path r) ∙ h
  handle-nil p (menu_opened row) unlisted h =
      ap selected_of (
        open_menu-core platform has_tasks encode base_path p
          (get_elem? (displayed_entries platform p) row))
      ∙ h
  handle-nil p (action_chosen row action) unlisted h =
      ap selected_of (
        choose_action-core platform has_tasks encode base_path p
          (get_elem? (displayed_entries platform p) row) action)
      ∙ h
  handle-nil p (form_opened action) unlisted h = h
  handle-nil p (mutation_answered endpoint affected r) unlisted h =
      ap selected_of (mutation_end-core platform has_tasks encode base_path p endpoint affected r)
      ∙ h
  handle-nil p (batch_answered endpoint affected r) unlisted h =
      ap selected_of (batch_end-core platform has_tasks encode base_path p endpoint affected r) ∙ h

  kept_token :
      (old : Option DirectoryListing) (r : Option Text) (new : Option DirectoryListing)
      → r ≡ token_of old
      → keeps_token r (token_of new) ≡ true
      → (old ≡ none) ⊎ (token_of new ≡ token_of old)
  kept_token none r new is keeps = inl refl
  kept_token (some l) none new is keeps = absurd cc
  kept_token (some l) (some r) none is keeps = absurd cc
  kept_token (some l) (some r) (some k) is keeps =
      inr (sym (ap some ((===_iff r k.listing_token).0 keeps)) ∙ is)

  -- One event on a page whose effects have run.
  react-Provenance :
      (p : Page) (e : Event)
      → IsSettled p
      → IsUnlistedEmpty p
      → ((react platform has_tasks encode base_path p e).selected ≡ [])
        ⊎ ShowsSame p (react platform has_tasks encode base_path p e)
  unfolding react
  react-Provenance p e settled unlisted =
      let h = handle platform has_tasks encode base_path p e in
      let r : refs h ≡ (p.current_path, token_of p.listing, some p.controls) =
        handle-refs p e ∙ settled in
      elim (settle-clears h) [
        | inl clear ↦ inl clear
        | inr ((path, token, controls), same) ↦
            elim (kept_token p.listing h.previous_token h.listing (ap (λ x. x.1) r) token) [
              | inl no_listing ↦
                  inl (settle-nil h (handle-nil p e no_listing (unlisted no_listing)))
              | inr same_token ↦ inr (
                ap (λ x. x.0) same ∙ sym path ∙ ap (λ x. x.0) r,
                ap (λ x. token_of (x.1)) same ∙ same_token,
                ap (λ x. same_controls p.controls x.2) same
                    ∙ subst (λ o. keeps_controls o h.controls ≡ true) (ap (λ x. x.2) r) controls,
              )
            ]
      ]

  no_listing-token_of : (o : Option DirectoryListing) → token_of o ≡ none → o ≡ none
  no_listing-token_of none h = refl
  no_listing-token_of (some listing) h = absurd cc

  abbrev pub IsKept : Page → Type 0
  IsKept p = IsSettled p × IsUnlistedEmpty p

  react-IsKept :
      (p : Page) (e : Event) → IsKept p → IsKept (react platform has_tasks encode base_path p e)
  unfolding react
  react-IsKept p e (settled, unlisted) = (
    settle-IsSettled (handle platform has_tasks encode base_path p e),
    λ no_listing. elim (react-Provenance p e settled unlisted) [
      | inl clear ↦ clear
      | inr (path, token, controls) ↦
          let before : p.listing ≡ none =
            no_listing-token_of p.listing (sym token ∙ ap token_of no_listing) in
          settle-nil (handle platform has_tasks encode base_path p e)
            (handle-nil p e before (unlisted before))
    ],
  )

  pub run_events-IsKept :
      (p : Page) (es : List Event)
      → IsKept p
      → IsKept (run_events platform has_tasks encode base_path p es)
  unfolding run_events
  run_events-IsKept p [] h = h
  run_events-IsKept p (e ∷ es) h =
      run_events-IsKept (react platform has_tasks encode base_path p e) es (react-IsKept p e h)

  pub open_page-IsKept :
      (path : Text) (listing : Option DirectoryListing) → IsKept (settle (open_page path listing))
  open_page-IsKept path listing = (
    settle-IsSettled (open_page path listing),
    λ _. settle-nil (open_page path listing) (unfold open_page in refl),
  )

  -- After any events, one more event leaves nothing selected, unless the path, the token of the
  -- listing and the controls that the page shows are the same after it as before it.
  pub selection_provenance :
      (path : Text) (listing : Option DirectoryListing) (es : List Event) (e : Event)
      → ((react platform has_tasks encode base_path
            (run_events platform has_tasks encode base_path (settle (open_page path listing)) es)
            e).selected
          ≡ [])
        ⊎ ShowsSame
            (run_events platform has_tasks encode base_path (settle (open_page path listing)) es)
            (react platform has_tasks encode base_path
              (run_events platform has_tasks encode base_path (settle (open_page path listing)) es)
              e)
  selection_provenance path listing es e =
      let kept = run_events-IsKept _ es (open_page-IsKept path listing) in
      react-Provenance _ e kept.0 kept.1
