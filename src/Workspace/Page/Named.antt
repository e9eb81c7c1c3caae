-- ===== src/Workspace/Page/Named.antt =====
-- A batch names the entries that are selected.
use file_harbor.Base.{
  ◌∙◌, ===_refl, ◌≡◌, refl, ap, inl, inr, Bool, true, false, List, [], ◌∷◌, Option, none, some,
  Text, filter, map, Bool-cases,
}
use mathlib.Core.List.{Perm}
use mathlib.Core.List.Perm
use file_harbor.Api.Records.{DirectoryListing}
use file_harbor.Workspace.Listing.{Platform, of_kind, matches_query}
use file_harbor.Workspace.Sorted.{filter_and_sort_entries_lem}
use file_harbor.Workspace.Selection.{listing_selection_state}
use file_harbor.Workspace.Page.{
  token_of, keeps_token, contains, entries, selected_for_current_token, selection_state,
  displayed_entries, settle, open_page,
}
use file_harbor.Workspace.Page.Batch.{named, batch_body}
use file_harbor.Workspace.Page.Events.{Event, run_events}
use file_harbor.Workspace.Page.Events.Provenance.{run_events-IsKept, open_page-IsKept}

is_true : (b : Bool) → Dec (b ≡ true)
is_true true = yes refl
is_true false = no (λ e. cc)

decided_filter {ℓ} :
    {A : Type ℓ} (q : A → Bool) (xs : List A)
    → filter q xs ≡ mathlib.Core.List.filter (λ x. is_true (q x)) xs
unfolding is_true
decided_filter q [] = refl
decided_filter q (x ∷ xs) = elim (Bool-cases (q x)) [
  | inl keep ↦ rw keep (ap (x ∷◌) (decided_filter q xs))
  | inr drop ↦ rw drop (decided_filter q xs)
]

filter-Perm {ℓ} :
    {A : Type ℓ} (q : A → Bool) (xs ys : List A) → Perm xs ys → Perm (filter q xs) (filter q ys)
filter-Perm q xs ys h =
    rw (decided_filter q xs, decided_filter q ys) (Perm.filter (λ x. is_true (q x)) h)

module _ (platform : Platform) (has_tasks : Bool) (encode : Text → Text) (base_path : Text) where
  keeps_token-same : (o : Option Text) → keeps_token o o ≡ true
  keeps_token-same none = refl
  keeps_token-same (some s) = ===_refl s

  -- After any events, a batch names, in some order and each as often as it is listed, exactly the
  -- entries of the listing that match the controls and whose paths are selected, by name and
  -- version, and it carries the token of this listing.
  pub batch_names_selected :
      (path : Text) (listing : Option DirectoryListing) (es : List Event)
      (destination : Option Text)
      → (let p =
            run_events platform has_tasks encode base_path (settle (open_page path listing)) es in
          ((batch_body platform has_tasks p destination).listing_token ≡ token_of p.listing)
          × Perm (batch_body platform has_tasks p destination).entries (
              map named (
                filter
                  (λ e. contains p.selected e.path)
                  (filter
                    (matches_query platform
                      (platform.lower_case (platform.trim (p.controls).query)))
                    (filter (of_kind platform (p.controls).kind) (entries p))))))
  unfolding batch_body selection_state listing_selection_state selected_for_current_token
      displayed_entries
  batch_names_selected path listing es destination =
      let p = run_events platform has_tasks encode base_path (settle (open_page path listing)) es in
      let kept =
        run_events-IsKept platform has_tasks encode base_path _ es
          (open_page-IsKept platform has_tasks encode base_path path listing) in
      let current : keeps_token p.previous_token (token_of p.listing) ≡ true =
        ap (λ r. keeps_token r.1 (token_of p.listing)) kept.0
        ∙ keeps_token-same (token_of p.listing) in
      (
        refl,
        rw current (
            Perm.map named (
              filter-Perm (λ e. contains p.selected e.path) _ _
                (filter_and_sort_entries_lem platform (entries p) p.controls).0)),
      )
