-- ===== src/Session/Tests.antt =====
-- A session that is opened, and one that expires.
use file_harbor.Base.{◌≡◌, refl, true, false, not, ◌&&◌, List, [], ◌∷◌, none, codes}
use file_harbor.Base.Results.{ok, err, other_value}
use file_harbor.Api.Records.{SessionBootstrapResponse, BrowserSession, en, normalize_session}
use file_harbor.Api.Transport.{answered, receive}
use file_harbor.Api.Requests.{add_favorite, request_of}
use file_harbor.Api.Guarded.{carries, is_get, is_log_in}
use file_harbor.Session.{
  open_provider, view, react, loaded_session, login_redirect, Event, session_answered,
  request_answered, run_events,
}
use file_harbor.Session.Opening.{opened_view, answer_decides_view}
use file_harbor.Session.Tokens.{session_token_sent}

abbrev response : SessionBootstrapResponse
response = record {
  username = codes "ann";
  csrf_token = codes "t";
  expires_at = [];
  base_path = codes "/";
  locale = codes "en";
  capabilities = record { browse = true; upload = true; mutate = true; editor_save = true };
}

abbrev session : BrowserSession
session = record {
  username = codes "ann";
  csrf_token = codes "t";
  expires_at = [];
  base_path = codes "/";
  language = en;
  capabilities = record { browse = true; upload = true; mutate = true; editor_save = true };
}

abbrev opened : List Event
opened = session_answered (answered 200 none (ok response)) ∷ []

session_token_sent_example :
    carries
      (codes "t")
      (request_of
        (λ s. s)
        (λ _. [])
        (run_events (open_provider false) opened).csrf_token
        add_favorite).headers
    ≡ (not (is_get (request_of (λ s. s) (λ _. []) (codes "t") add_favorite).method)
        && not (is_log_in add_favorite))
session_token_sent_example =
    session_token_sent (λ s. s) (λ _. []) false opened session add_favorite
      (unfold run_events open_provider normalize_session in refl) refl

-- An answer that the session has expired shows the way to the login, once.
abbrev expired : List Event
expired =
    session_answered (answered 200 none (ok response))
    ∷ request_answered {A = Unit} (answered 401 none (ok tt))
    ∷ []

sent_away :
    (view (run_events (open_provider false) expired) ≡ login_redirect)
    × ((run_events (open_provider false) expired).left ≡ 1)
unfolding run_events open_provider view
sent_away = (refl, refl)

answer_decides_view_example :
    view (
      react
        (run_events
          (open_provider false)
          (request_answered {A = Unit} (answered 401 none (ok tt)) ∷ []))
        (session_answered (answered 503 none (err other_value))))
    ≡ opened_view (loaded_session (receive (answered 503 none (err other_value))).1)
answer_decides_view_example =
    answer_decides_view (request_answered {A = Unit} (answered 401 none (ok tt)) ∷ [])
      (answered 503 none (err other_value)) refl
