-- ===== src/Api/PartRequest.antt =====
-- `xhrUploadPart` of web/src/api/client.ts: one upload of a part by an XMLHttpRequest, as a state
-- that its events change. A failure inside a callback that `finish` calls is an exception.
use file_harbor.Base.{
  ℕ, suc, Bool, true, false, ◌&&◌, List, [], ◌∷◌, Option, none, some, Text, codes, leb, ltb,
  if◌then◌else◌,
}
use file_harbor.Base.Results.{Failure, api_error, Result, ok, err}
use file_harbor.Api.Transport.{http_code}

pub record PartRequest : Type 0 where
  pub settled : Bool
  pub listening : Bool
  pub sent : Bool
  pub aborts : ℕ
  pub outcome : Option (Result (Unit {0}))

-- The body of a failed response: JSON with a code, or not JSON.
pub data ErrorBody : Type 0 where
  json_code : Text → ErrorBody
  unparsable : ErrorBody

pub data PartEvent : Type 0 where
  signal_abort : PartEvent
  xhr_error : ℕ → PartEvent
  xhr_abort : PartEvent
  xhr_load : ℕ → ErrorBody → PartEvent

abbrev pub aborted_error : Failure
aborted_error = api_error 0 (codes "aborted")

-- What a callback does to the promise: it resolves, it rejects, or it throws before it does.
pub data Callback : Type 0 where
  resolves : Callback
  rejects : Failure → Callback
  throws : Callback

abbrev pub outcome_of : Callback → Option (Result (Unit {0}))
outcome_of resolves = some (ok tt)
outcome_of (rejects e) = some (err e)
outcome_of throws = none

abbrev pub has_thrown : Callback → Bool
has_thrown throws = true
has_thrown _ = false

-- `finish(callback)`, and whether it throws: the flag is set before the callback runs.
unfoldable pub finish : PartRequest → Callback → PartRequest × Bool
finish r callback = if r.settled then (r, false) else (
  record r { settled = true; listening = false; outcome = outcome_of callback },
  has_thrown callback,
)

unfoldable pub abort : PartRequest → PartRequest
unfolding finish
abort r = (finish (record r { aborts = suc r.aborts }) (rejects aborted_error)).0

-- The body of the promise up to `xhr.send`.
unfoldable pub open_request : Bool → PartRequest
unfolding abort
open_request already_aborted =
    let r : PartRequest = record {
      settled = false;
      listening = false;
      sent = false;
      aborts = 0;
      outcome = none;
    } in
    if already_aborted then abort r else record r { listening = true; sent = true }

abbrev pub reject_with : ℕ → ErrorBody → Callback
reject_with status (json_code code) = rejects (api_error status code)
reject_with status unparsable = throws

-- `try { finish(...) } catch { finish(...) }`
unfoldable pub finish_or_catch : PartRequest → ℕ → ErrorBody → PartRequest
unfolding finish
finish_or_catch r status body =
    let (r', thrown) = finish r (reject_with status body) in
    if thrown then (finish r' (rejects (api_error status (http_code status)))).0 else r'

unfoldable pub load : PartRequest → ℕ → ErrorBody → PartRequest
unfolding finish_or_catch
load r status body =
    if leb 200 status && ltb status 300
    then (finish r resolves).0
    else finish_or_catch r status body

unfoldable pub handle : PartRequest → PartEvent → PartRequest
unfolding load
handle r signal_abort = if r.listening then abort r else r
handle r (xhr_error status) = (finish r (rejects (api_error status (codes "network_error")))).0
handle r xhr_abort = (finish r (rejects aborted_error)).0
handle r (xhr_load status body) = load r status body

unfoldable pub handle_all : PartRequest → List PartEvent → PartRequest
unfolding handle
handle_all r [] = r
handle_all r (e ∷ es) = handle_all (handle r e) es
