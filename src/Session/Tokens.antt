-- ===== src/Session/Tokens.antt =====
-- The token of the client is that of the session that is shown, and none is kept without one.
use file_harbor.Base.{
  ◌≡◌, ◌∙◌, ap, refl, inl, inr, Bool, true, false, not, ◌&&◌, List, [], ◌∷◌, none, some, Text,
  truthy, if_elim, Bool-cases,
}
use file_harbor.Base.Results.{Result, ok, err}
use file_harbor.Api.Records.{SessionBootstrapResponse, BrowserSession}
use file_harbor.Api.Transport.{Answer, receive}
use file_harbor.Api.Requests.{ApiCall, request_of}
use file_harbor.Api.Guarded.{carries, is_get, is_log_in, csrf_sent}
use file_harbor.Session.{
  Provider, open_provider, view, shows_children, unauthenticated, noted, loaded_session, token_of,
  set_session, is_expired, take_session, session_answer, after_logout, Event, session_answered,
  session_set, logout_answered, request_answered, unmounted, react, run_events,
}

-- The page waits for `getSession`, so there is no session and no child.
abbrev pub IsWaiting : Provider → Type 0
IsWaiting p = (p.session ≡ none) × (p.login_page ≡ false) × (p.loading ≡ true)

abbrev pub HasToken : Provider → Type 0
HasToken p = p.csrf_token ≡ token_of p.session

abbrev pub IsConsistent : Provider → Type 0
IsConsistent p = HasToken p × (p.awaited ≡ true → IsWaiting p)

unauthenticated-IsConsistent : (p : Provider) → IsConsistent p → IsConsistent (unauthenticated p)
unfolding unauthenticated
unauthenticated-IsConsistent p (token, waits) =
    if_elim IsConsistent p.handler (λ _. (refl, λ on. (refl, (waits on).1, (waits on).2)))
      (λ _. (token, waits))

noted-IsConsistent : (p : Provider) (b : Bool) → IsConsistent p → IsConsistent (noted p b)
noted-IsConsistent p b h = if_elim IsConsistent b (λ _. unauthenticated-IsConsistent p h) (λ _. h)

noted-awaited : (p : Provider) (b : Bool) → (noted p b).awaited ≡ p.awaited
unfolding unauthenticated
noted-awaited p false = refl
noted-awaited p true =
    if_elim (λ (q : Provider). q.awaited ≡ p.awaited) p.handler (λ _. refl) (λ _. refl)

take_session-HasToken :
    (p : Provider) (r : Result BrowserSession)
    → HasToken p
    → p.session ≡ none
    → HasToken (take_session p r)
unfolding take_session set_session
take_session-HasToken p (ok next) h empty = if_elim HasToken p.active (λ _. refl) (λ _. h)
take_session-HasToken p (err e) h empty =
    if_elim HasToken (p.active && not (is_expired e)) (λ _. h ∙ ap token_of empty) (λ _. h)

session_answer-IsConsistent :
    (p : Provider) (a : Answer SessionBootstrapResponse)
    → IsConsistent p
    → p.awaited ≡ true
    → IsConsistent (session_answer p a)
unfolding session_answer
session_answer-IsConsistent p a h on =
    let (expired, r) = receive a in
    let q = noted p expired in
    let kept = noted-IsConsistent p expired h in
    (
      take_session-HasToken q (loaded_session r) kept.0 (kept.1 (noted-awaited p expired ∙ on)).0,
      λ later. absurd cc,
    )

waiting_view : (p : Provider) → IsWaiting p → shows_children (view p) ≡ false
unfolding view
waiting_view p (none_yet, other_page, loads) = simp (other_page, loads)

children-awaited :
    (p : Provider) → IsConsistent p → shows_children (view p) ≡ true → p.awaited ≡ false
children-awaited p (token, waits) shown = elim (Bool-cases p.awaited) [
  | inl on ↦ absurd (cc (waiting_view p (waits on)))
  | inr off ↦ off
]

after_logout-IsConsistent {ℓ} :
    {A : Type ℓ} (p : Provider) (r : Result A) → IsConsistent p → IsConsistent (after_logout p r)
after_logout-IsConsistent p (ok value) (token, waits) =
    (refl, λ on. (refl, (waits on).1, (waits on).2))
after_logout-IsConsistent p (err e) h = h

react-IsConsistent : (p : Provider) (e : Event) → IsConsistent p → IsConsistent (react p e)
unfolding react set_session
react-IsConsistent p (session_answered a) h =
    if_elim IsConsistent p.awaited (session_answer-IsConsistent p a h) (λ _. h)
react-IsConsistent p (session_set next) h =
    if_elim IsConsistent (shows_children (view p))
      (λ shown. (refl, λ on. absurd (cc (children-awaited p h shown)))) (λ _. h)
react-IsConsistent p (logout_answered a) h =
    after_logout-IsConsistent (noted p (receive a).0) (receive a).1
      (noted-IsConsistent p (receive a).0 h)
react-IsConsistent p (request_answered a) h = noted-IsConsistent p (receive a).0 h
react-IsConsistent p unmounted h = h

pub run_events-IsConsistent :
    (p : Provider) (es : List Event) → IsConsistent p → IsConsistent (run_events p es)
unfolding run_events
run_events-IsConsistent p [] h = h
run_events-IsConsistent p (e ∷ es) h =
    run_events-IsConsistent (react p e) es (react-IsConsistent p e h)

open_provider-IsConsistent : (login_page : Bool) → IsConsistent (open_provider login_page)
unfolding open_provider
open_provider-IsConsistent true = (refl, λ on. absurd cc)
open_provider-IsConsistent false = (refl, λ on. (refl, refl, refl))

-- After any events, on the login page or another, a request carries the token of the session that
-- the provider then has, if this is not empty, exactly if its method is not GET and it is not the
-- login.
pub session_token_sent :
    (encode : Text → Text) (query : List (Text × Text) → Text) (login_page : Bool) (es : List Event)
    (session : BrowserSession) (call : ApiCall)
    → (run_events (open_provider login_page) es).session ≡ some session
    → truthy session.csrf_token ≡ true
    → carries session.csrf_token
        (request_of encode query (run_events (open_provider login_page) es).csrf_token call).headers
      ≡ (not (is_get (request_of encode query session.csrf_token call).method)
          && not (is_log_in call))
session_token_sent encode query login_page es session call is full =
    let kept =
      run_events-IsConsistent (open_provider login_page) es
        (open_provider-IsConsistent login_page) in
    rw (kept.0, is) (csrf_sent encode query session.csrf_token call full)
