-- ===== src/Search/Tests.antt =====
-- A search that is overtaken by another.
use file_harbor.Base.{◌≡◌, refl, List, [], ◌∷◌, none, some, true, false, codes, arith}
use file_harbor.Base.OrderedMap
use file_harbor.Base.Results.{ok, err, js_error}
use file_harbor.Search.{
  SearchResult, Event, submit, answer, search_begin, search_end, start, run_events,
}
use file_harbor.Search.Parameters.{search_parameters, add_fields}
use file_harbor.Search.Latest.{older_answer_ignored}

abbrev nothing_found : SearchResult
nothing_found = record { entries = []; visited = 7; skipped = 0; incomplete = false; reason = none }

abbrev overtaken : List Event
overtaken = submit ∷ submit ∷ []

older_answer_ignored_example :
    search_end (run_events start overtaken) 0 (ok nothing_found) ≡ run_events start overtaken
older_answer_ignored_example =
    older_answer_ignored overtaken 0 (ok nothing_found)
      (unfold run_events search_begin in omega arith)

last_shown :
    (run_events start (submit ∷ submit ∷ answer 1 (ok nothing_found) ∷ [])).result
    ≡ some nothing_found
unfolding run_events
last_shown = refl

-- An empty field is left out, and a date that is none throws.
parameters_of_form :
    (search_parameters
        (λ s. none)
        (codes "d")
        true
        ((codes "name", codes "a") ∷ (codes "extension", []) ∷ [])
      ≡ ok (
          (codes "path", codes "d")
          ∷ (codes "recursive", codes "true")
          ∷ (codes "name", codes "a")
          ∷ []))
    × (search_parameters (λ s. none) (codes "d") true ((codes "modified_after", codes "x") ∷ [])
        ≡ err (js_error (codes "RangeError")))
unfolding search_parameters add_fields OrderedMap.get
parameters_of_form = (refl, refl)
