-- ===== src/Api/Tests.antt =====
-- Requests and part uploads on small inputs.
use file_harbor.Base.{ℕ, true, false, not, ◌&&◌, ◌≡◌, refl, [], ◌∷◌, none, some, codes}
use file_harbor.Base.Results.{Result, ok, err, api_error}
use file_harbor.Api.Requests.{add_favorite, upload_part, request_of}
use file_harbor.Api.Guarded.{carries, is_get, is_log_in, csrf_sent}
use file_harbor.Base.Decimal.{decimal}
use file_harbor.Api.Transport.{answered, receive, http_code}
use file_harbor.Api.PartRequest.{
  PartRequest, signal_abort, xhr_load, unparsable, open_request, handle, handle_all,
}
use file_harbor.Api.Settling.{unparsable_hangs, first_event_decides}

csrf_sent_example :
    carries (codes "t") (request_of (λ s. s) (λ _. []) (codes "t") add_favorite).headers ≡ (
      not (is_get (request_of (λ s. s) (λ _. []) (codes "t") add_favorite).method)
      && not (is_log_in add_favorite))
csrf_sent_example = csrf_sent (λ s. s) (λ _. []) (codes "t") add_favorite refl

part_path :
    (request_of (λ s. s) (λ _. []) [] (upload_part (codes "u") (codes "k") 12 (codes "h"))).path
    ≡ codes "api/uploads/u/parts/12"
unfolding request_of decimal
part_path = refl

-- The session's end is reported, with the status as the code of a body that is not JSON.
expired :
    receive {A = ℕ} (answered 401 none (ok 5)) ≡ (true, err (api_error 401 (codes "http_401")))
unfolding receive http_code decimal
expired = refl

abbrev sent_request : PartRequest
sent_request = record { settled = false; listening = true; sent = true; aborts = 0; outcome = none }

opened : open_request false ≡ sent_request
unfolding open_request
opened = refl

-- A proxy answers with an HTML page.
unparsable_hangs_example :
    (handle_all sent_request (xhr_load 502 unparsable ∷ signal_abort ∷ [])).outcome ≡ none
unparsable_hangs_example = unparsable_hangs sent_request 502 (signal_abort ∷ []) refl refl

first_event_decides_example :
    ((o : Result (Unit {0})) × ((handle sent_request signal_abort).outcome ≡ some o))
    × (handle_all sent_request (signal_abort ∷ xhr_load 204 unparsable ∷ [])
        ≡ handle sent_request signal_abort)
first_event_decides_example =
    first_event_decides sent_request signal_abort (xhr_load 204 unparsable ∷ []) refl refl refl
