-- ===== src/Editor/Tests.antt =====
-- A short session of the editor.
use file_harbor.Base.{◌≡◌, refl, true, List, [], ◌∷◌, some, codes}
use file_harbor.Base.Results.{ok, err, api_error}
use file_harbor.Editor.{
  dirty, Event, types, press_save, press_close, load_answer, save_answer, refresh_answer, start,
  run_events,
}
use file_harbor.Editor.Saving.{is_confirmed, IsSafe, run_events-IsSafe, clean_confirmed}

-- While the first text is sent, more is typed.
abbrev typing : List Event
typing =
    load_answer (ok (record { content = some (codes "a"); version = codes "1" }))
    ∷ types (codes "ab")
    ∷ press_save
    ∷ types (codes "abc")
    ∷ save_answer (ok (codes "2"))
    ∷ refresh_answer (ok tt)
    ∷ []

still_dirty : dirty (run_events true start typing).editor ≡ true
unfolding run_events
still_dirty = refl

run_events-IsSafe_example : IsSafe (run_events true start typing)
run_events-IsSafe_example = run_events-IsSafe true typing

abbrev undone : List Event
undone = load_answer (err (api_error 404 (codes "not_found"))) ∷ press_close ∷ []

clean_confirmed_example :
    is_confirmed
      ((run_events true start undone).editor).value
      (run_events true start undone).confirmed
    ≡ true
clean_confirmed_example = clean_confirmed true undone (unfold run_events in refl)
