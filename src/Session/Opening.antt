-- ===== src/Session/Opening.antt =====
-- What the page shows once `getSession` is answered, whatever the answer.
use file_harbor.Base.{
  ◌≡◌, refl, Bool, true, false, ◌&&◌, List, [], ◌∷◌, none, if_elim, all, if◌then◌else◌, inl, inr,
  Bool-cases, subst,
}
use file_harbor.Base.Results.{Result, ok, err}
use file_harbor.Api.Records.{SessionBootstrapResponse, BrowserSession}
use file_harbor.Api.Transport.{Answer, receive}
use file_harbor.Session.{
  Provider, open_provider, View, login_redirect, children_view, view, shows_children,
  unauthenticated, noted, loaded_session, set_session, is_expired, take_session, session_answer,
  after_logout, Event, session_answered, session_set, logout_answered, request_answered, unmounted,
  react, run_events,
}

-- The provider waits for its first answer.
abbrev pub IsOpening : Provider → Type 0
IsOpening p =
    (p.login_page ≡ false)
    × (p.loading ≡ true)
    × (p.awaited ≡ true)
    × (p.active ≡ true)
    × (p.session ≡ none)

abbrev pub is_other : Event → Bool
is_other (session_answered a) = false
is_other unmounted = false
is_other _ = true

noted-IsOpening : (p : Provider) (b : Bool) → IsOpening p → IsOpening (noted p b)
unfolding unauthenticated
noted-IsOpening p false h = h
noted-IsOpening p true (other_page, loads, waits, active, empty_yet) =
    if_elim IsOpening p.handler (λ _. (other_page, loads, waits, active, refl))
      (λ _. (other_page, loads, waits, active, empty_yet))

after_logout-IsOpening {ℓ} :
    {A : Type ℓ} (p : Provider) (r : Result A) → IsOpening p → IsOpening (after_logout p r)
after_logout-IsOpening p (ok value) (other_page, loads, waits, active, empty_yet) =
    (other_page, loads, waits, active, refl)
after_logout-IsOpening p (err e) h = h

opening_view : (p : Provider) → IsOpening p → shows_children (view p) ≡ false
unfolding view
opening_view p (other_page, loads, waits, active, empty_yet) = simp (other_page, loads)

react-IsOpening :
    (p : Provider) (e : Event) → is_other e ≡ true → IsOpening p → IsOpening (react p e)
unfolding react
react-IsOpening p (session_answered a) other h = absurd cc
react-IsOpening p (session_set next) other h =
    if_elim IsOpening (shows_children (view p)) (λ shown. absurd (cc (opening_view p h))) (λ _. h)
react-IsOpening p (logout_answered a) other h =
    after_logout-IsOpening (noted p (receive a).0) (receive a).1 (noted-IsOpening p (receive a).0 h)
react-IsOpening p (request_answered a) other h = noted-IsOpening p (receive a).0 h
react-IsOpening p unmounted other h = absurd cc

run_events-IsOpening :
    (p : Provider) (es : List Event)
    → all is_other es ≡ true
    → IsOpening p
    → IsOpening (run_events p es)
unfolding run_events
run_events-IsOpening p [] others h = h
run_events-IsOpening p (e ∷ es) others h = elim (Bool-cases (is_other e)) [
  | inl other ↦
      run_events-IsOpening (react p e) es (subst (λ x. (x && all is_other es) ≡ true) other others)
        (react-IsOpening p e other h)
  | inr same ↦ absurd (cc (subst (λ x. (x && all is_other es) ≡ true) same others))
]

-- The view for what the request gave.
abbrev pub opened_view : Result BrowserSession → View
opened_view (ok session) = children_view
opened_view (err e) = login_redirect

take_session-view :
    (p : Provider) (r : Result BrowserSession)
    → p.login_page ≡ false
    → p.active ≡ true
    → p.session ≡ none
    → view (
        let q = take_session p r in
        record q { loading = if q.active then false else q.loading; awaited = false })
      ≡ opened_view r
unfolding view take_session set_session
take_session-view p (ok session) other_page active empty_yet = simp (active, other_page)
take_session-view p (err e) other_page active empty_yet = elim (Bool-cases (is_expired e)) [
  | inl expired ↦ simp (active, expired, other_page, empty_yet)
  | inr failed ↦ simp (active, failed, other_page)
]

-- On a page other than the login page, after any events but the answer of `getSession` and the
-- end of the page, this answer ends the loading: the children are shown if it holds a session, and
-- the way to the login otherwise, whether the server refuses, fails, sends no value, or is not
-- reached.
pub answer_decides_view :
    (es : List Event) (a : Answer SessionBootstrapResponse)
    → all is_other es ≡ true
    → view (react (run_events (open_provider false) es) (session_answered a))
      ≡ opened_view (loaded_session (receive a).1)
unfolding react session_answer
answer_decides_view es a others =
    let p = run_events (open_provider false) es in
    let opening : IsOpening p =
      run_events-IsOpening (open_provider false) es others
        (unfold open_provider in (refl, refl, refl, refl, refl)) in
    let later : IsOpening (noted p (receive a).0) = noted-IsOpening p (receive a).0 opening in
    if_elim (λ (q : Provider). view q ≡ opened_view (loaded_session (receive a).1)) p.awaited
      (λ _.
        take_session-view (noted p (receive a).0) (loaded_session (receive a).1) later.0 later.3
          later.4)
      (λ off. absurd (cc (opening.2)))
