-- ===== src/RecycleBin/Paging.antt =====
-- The pages of the bin are shown one after the other.
use file_harbor.Base.{
  ◌≡◌, refl, ◌∙◌, sym, subst, ap, true, List, [], ◌∷◌, ◌++◌, Option, none, some, Text, append_assoc,
  append-nil,
}
use file_harbor.Api.Records.{TrashEntry, TrashPage}
use file_harbor.RecycleBin.{
  Bin, has_cursor, or_cursor, data_effect, open_effect, displayed_entries, displayed_next_cursor,
  Event, panel_opened, more_pressed, page_loaded, react, run_events,
}

-- Each page but the last names the cursor of the next.
abbrev pub Linked : TrashPage → List TrashPage → Type 0
Linked page [] = Unit
Linked page (next ∷ pages) = (has_cursor page.next_cursor ≡ true) × Linked next pages

abbrev pub entries_of : List TrashPage → List TrashEntry
entries_of [] = []
entries_of (page ∷ pages) = page.entries ++ entries_of pages

-- The user asks for each further page, and it arrives.
abbrev pub loading_of : List TrashPage → List Event
loading_of [] = []
loading_of (page ∷ pages) = more_pressed none ∷ page_loaded page ∷ loading_of pages

-- The panel shows these entries, and the button asks for this cursor.
abbrev IsReady : Bin → Option Text → List TrashEntry → Type 0
IsReady b next shown = (b.open_ ≡ true) × (b.entries ≡ shown) × (displayed_next_cursor b ≡ next)

-- It shows a further page.
abbrev IsLater : Bin → List TrashEntry → Type 0
IsLater b shown = (b.open_ ≡ true) × (b.entries ≡ shown) × (has_cursor b.cursor ≡ true)

displayed_entries-later :
    (b : Bin) (shown : List TrashEntry) → IsLater b shown → displayed_entries b ≡ shown
unfolding displayed_entries
displayed_entries-later b shown (on, is, later) = simp (later, is)

more_pressed-IsLater :
    (b : Bin) (next : Option Text) (shown : List TrashEntry)
    → IsReady b next shown
    → has_cursor next ≡ true
    → IsLater (react b (more_pressed none)) shown
unfolding react data_effect
more_pressed-IsLater b next shown (on, is, asks) there = (on, is, ap has_cursor asks ∙ there)

page_loaded-IsLater :
    (b : Bin) (shown : List TrashEntry) (page : TrashPage)
    → IsLater b shown
    → IsLater (react b (page_loaded page)) (shown ++ page.entries)
unfolding react data_effect
page_loaded-IsLater b shown page (on, is, later) = (simp on, simp (on, later, is), simp (on, later))

page_loaded-next :
    (b : Bin) (shown : List TrashEntry) (page : TrashPage)
    → IsLater b shown
    → displayed_next_cursor (react b (page_loaded page)) ≡ page.next_cursor
unfolding react data_effect displayed_next_cursor
page_loaded-next b shown page (on, is, later) = simp (on, later)

run_events-IsLater :
    (b : Bin) (shown : List TrashEntry) (page next : TrashPage) (pages : List TrashPage)
    → IsReady b page.next_cursor shown
    → Linked page (next ∷ pages)
    → IsLater (run_events b (loading_of (next ∷ pages))) (shown ++ entries_of (next ∷ pages))
unfolding run_events
run_events-IsLater b shown page next [] ready (there, linked) =
    subst (λ xs. IsLater (react (react b (more_pressed none)) (page_loaded next)) (shown ++ xs))
      (sym (append-nil next.entries))
      (page_loaded-IsLater (react b (more_pressed none)) shown next
        (more_pressed-IsLater b page.next_cursor shown ready there))
run_events-IsLater b shown page next (p ∷ pages) ready (there, linked) =
    let asked = react b (more_pressed none) in
    let later : IsLater asked shown = more_pressed-IsLater b page.next_cursor shown ready there in
    let now = page_loaded-IsLater asked shown next later in
    subst (λ xs. IsLater (run_events (react asked (page_loaded next)) (loading_of (p ∷ pages))) xs)
      (append_assoc shown next.entries (entries_of (p ∷ pages)))
      (run_events-IsLater (react asked (page_loaded next)) (shown ++ next.entries) next p pages
        (now.0, now.1, page_loaded-next asked shown next later) linked)

first_page-IsReady :
    (b : Bin) (first : TrashPage)
    → IsReady (react b (panel_opened (some first))) first.next_cursor first.entries
unfolding react data_effect open_effect displayed_next_cursor
first_page-IsReady b first = (refl, refl, same_cursor first.next_cursor)
  where
    same_cursor : (o : Option Text) → or_cursor o o ≡ o
    same_cursor none = refl
    same_cursor (some cursor) = refl

-- If the first page is in the cache, each page but the last names the next and there is a second
-- page, then after the further pages are asked for and arrive the panel shows the entries of all
-- pages in order; if the last page then arrives once more with other entries, as it does after a
-- restoration or a purge, these follow all that was shown, so that an entry that is gone stays.
pub pages_appended :
    (b : Bin) (first next : TrashPage) (pages : List TrashPage) (again : TrashPage)
    → Linked first (next ∷ pages)
    → (displayed_entries (run_events b (panel_opened (some first) ∷ loading_of (next ∷ pages)))
        ≡ entries_of (first ∷ next ∷ pages))
      × (displayed_entries (
            react
              (run_events b (panel_opened (some first) ∷ loading_of (next ∷ pages)))
              (page_loaded again))
          ≡ entries_of (first ∷ next ∷ pages) ++ again.entries)
unfolding run_events
pages_appended b first next pages again linked =
    let opened = react b (panel_opened (some first)) in
    let loaded = run_events opened (loading_of (next ∷ pages)) in
    let shown = entries_of (first ∷ next ∷ pages) in
    let all_shown : IsLater loaded shown =
      run_events-IsLater opened first.entries first next pages (first_page-IsReady b first)
        linked in
    (
      displayed_entries-later loaded shown all_shown,
      displayed_entries-later (react loaded (page_loaded again)) (shown ++ again.entries)
          (page_loaded-IsLater loaded shown again all_shown),
    )
