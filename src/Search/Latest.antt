-- ===== src/Search/Latest.antt =====
-- Only the last search is shown.
use file_harbor.Base.{
  ℕ, ◌+◌, ◌<◌, ◌≡◌, refl, Bool, true, false, not, ◌&&◌, List, [], ◌∷◌, Option, none, some, length,
  arith, if_elim, get_elem?, get_or_else, length-append,
}
use file_harbor.Base.Results.{Result}
use file_harbor.Search.{
  SearchResult, Search, cancel, search_begin, is_current, search_end, Event, submit, press_cancel,
  answer, react, start, run_events,
}

-- The active controller, if there is one, is the last one made, and the panel is busy just then.
abbrev pub LastActive : Option ℕ → ℕ → Bool → Type 0
LastActive none made busy = busy ≡ false
LastActive (some c) made busy = (c + 1 ≡ made) × (busy ≡ true)

abbrev pub IsLatest : Search → Type 0
IsLatest s = LastActive s.active (length s.controllers) s.busy

search_begin-IsLatest : (s : Search) → IsLatest (search_begin s)
unfolding search_begin
search_begin-IsLatest s = (omega (arith, length-append _ (false ∷ [])), refl)

search_end-IsLatest :
    (s : Search) (c : ℕ) (r : Result SearchResult) → IsLatest s → IsLatest (search_end s c r)
unfolding search_end
search_end-IsLatest s c r h =
    if_elim IsLatest (is_current s.active c) (λ _. refl)
      (λ other.
        if_elim IsLatest
          (is_current s.active c && not (get_or_else (get_elem? s.controllers c) false))
          (λ both. absurd (ground (arith))) (λ _. h))

react-IsLatest : (s : Search) (e : Event) → IsLatest s → IsLatest (react s e)
unfolding react
react-IsLatest s submit h = search_begin-IsLatest s
react-IsLatest s press_cancel h = unfold cancel in refl
react-IsLatest s (answer c r) h = search_end-IsLatest s c r h

run_events-IsLatest : (s : Search) (es : List Event) → IsLatest s → IsLatest (run_events s es)
unfolding run_events
run_events-IsLatest s [] h = h
run_events-IsLatest s (e ∷ es) h = run_events-IsLatest (react s e) es (react-IsLatest s e h)

not_current :
    (o : Option ℕ) (c made : ℕ) (busy : Bool)
    → LastActive o made busy
    → c + 1 < made
    → is_current o c ≡ false
not_current none c made busy h older = refl
not_current (some d) c made busy (last, on) older = ground arith

-- After any events, an answer to a search that is not the last one submitted changes nothing:
-- neither the result nor the error nor the sign that a search is under way.
pub older_answer_ignored :
    (es : List Event) (c : ℕ) (r : Result SearchResult)
    → c + 1 < length (run_events start es).controllers
    → search_end (run_events start es) c r ≡ run_events start es
unfolding search_end
older_answer_ignored es c r older =
    let s = run_events start es in
    rw
      (not_current s.active c (length s.controllers) s.busy (run_events-IsLatest start es refl)
        older)
      refl
