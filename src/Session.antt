-- ===== src/Session.antt =====
-- The session of the browser: web/src/session/SessionProvider.tsx, with the token and the handler
-- that web/src/api/client.ts keeps for it. The answers are those of `fetch`, taken by `request`.
pub mod Tokens
pub mod Opening
mod Tests
use file_harbor.Base.{
  ℕ, suc, Bool, true, false, not, ◌&&◌, List, [], ◌∷◌, Option, none, some, Text, codes, is_some,
  ◌==◌, if◌then◌else◌,
}
use file_harbor.Base.Results.{Failure, api_error, js_error, other_value, Result, ok, err}
use file_harbor.Api.Records.{SessionBootstrapResponse, Language, BrowserSession, normalize_session}
use file_harbor.Api.Transport.{Answer, receive}

-- The provider's state, with the token and the handler of the client, the language of the page,
-- whether the answer of `getSession` is awaited, and how often the page was left for the login.
pub record Provider : Type 0 where
  pub login_page : Bool
  pub session : Option BrowserSession
  pub loading : Bool
  pub csrf_token : Text
  pub handler : Bool
  pub active : Bool
  pub awaited : Bool
  pub language : Option Language
  pub left : ℕ

-- The state after the effects of the first rendering.
unfoldable pub open_provider : Bool → Provider
open_provider login_page = record {
  login_page = login_page;
  session = none;
  loading = not login_page;
  csrf_token = [];
  handler = true;
  active = not login_page;
  awaited = not login_page;
  language = none;
  left = 0;
}

pub data View : Type 0 where
  loading_view login_redirect children_view : View

unfoldable pub view : Provider → View
view p =
    if not p.login_page && p.loading
    then loading_view
    else if not p.login_page && not (is_some p.session)
    then login_redirect
    else children_view

abbrev shows_children : View → Bool
shows_children children_view = true
shows_children _ = false

-- The handler of the provider, which the client calls if it is set.
unfoldable pub unauthenticated : Provider → Provider
unauthenticated p =
    if p.handler
    then record p {
      csrf_token = [];
      session = none;
      left = if p.login_page then p.left else suc p.left;
    }
    else p

-- What `request` does to the provider when it takes an answer.
abbrev noted : Provider → Bool → Provider
noted p expired = if expired then unauthenticated p else p

-- `request('api/session').then(normalizeSession)`: without a value its fields cannot be read.
abbrev loaded_session : Result (Option SessionBootstrapResponse) → Result BrowserSession
loaded_session (ok (some response)) = ok (normalize_session response)
loaded_session (ok none) = err (js_error (codes "TypeError"))
loaded_session (err e) = err e

abbrev token_of : Option BrowserSession → Text
token_of none = []
token_of (some next) = next.csrf_token

abbrev language_or : Option Language → Option BrowserSession → Option Language
language_or old none = old
language_or old (some next) = some next.language

-- `setSession` of the context.
unfoldable pub set_session : Provider → Option BrowserSession → Provider
set_session p next = record p {
  csrf_token = token_of next;
  session = next;
  language = language_or p.language next;
}

-- `error instanceof ApiError && error.status === 401`
abbrev is_expired : Failure → Bool
is_expired (api_error status code) = status == 401
is_expired (js_error message) = false
is_expired other_value = false

-- The callbacks of `then` and `catch`.
unfoldable pub take_session : Provider → Result BrowserSession → Provider
unfolding set_session
take_session p (ok loaded) = if p.active then set_session p (some loaded) else p
take_session p (err e) = if p.active && not (is_expired e) then record p { session = none } else p

-- The answer of `getSession`, with the callback of `finally`.
unfoldable pub session_answer : Provider → Answer SessionBootstrapResponse → Provider
unfolding receive unauthenticated take_session
session_answer p a =
    let (expired, r) = receive a in
    let q = take_session (noted p expired) (loaded_session r) in
    record q { loading = if q.active then false else q.loading; awaited = false }

-- `logout` after its await.
abbrev after_logout {ℓ} : {A : Type ℓ} → Provider → Result A → Provider
after_logout p (ok value) = record p { csrf_token = []; session = none }
after_logout p (err e) = p

pub data Event : Type 1 where
  session_answered : Answer SessionBootstrapResponse → Event
  session_set : Option BrowserSession → Event
  logout_answered request_answered : {A : Type 0} → Answer A → Event
  unmounted : Event

-- `setSession` is called by the children, so only while they are shown.
unfoldable pub react : Provider → Event → Provider
unfolding session_answer unauthenticated receive set_session view
react p (session_answered a) = if p.awaited then session_answer p a else p
react p (session_set next) = if shows_children (view p) then set_session p next else p
react p (logout_answered a) = let (expired, r) = receive a in after_logout (noted p expired) r
react p (request_answered a) = let (expired, r) = receive a in noted p expired
react p unmounted = record p { handler = false; active = false }

unfoldable pub run_events : Provider → List Event → Provider
unfolding react
run_events p [] = p
run_events p (e ∷ es) = run_events (react p e) es
