-- ===== src/Api/Transport.antt =====
-- `request` of web/src/api/client.ts: what a caller gets of what `fetch` answers, and when the
-- handler of an expired session is called.
use file_harbor.Base.{
  ℕ, Bool, false, ◌&&◌, ◌++◌, Option, none, some, Text, codes, leb, ltb, ◌==◌, if◌then◌else◌,
}
use file_harbor.Base.Decimal.{decimal}
use file_harbor.Base.Results.{Failure, api_error, Result, ok, err}

-- `fetch` rejects, or answers with a status, the `code` that its body has if it is JSON with one,
-- and the value of the body.
pub data Answer {ℓ} (A : Type ℓ) : Type ℓ where
  rejected : Failure → Answer A
  answered : ℕ → Option Text → Result A → Answer A

-- `response.ok`
abbrev pub is_ok_status : ℕ → Bool
is_ok_status status = leb 200 status && ltb status 300

-- `http_${status}`
unfoldable pub http_code : ℕ → Text
http_code status = codes "http_" ++ decimal status

abbrev pub error_code : ℕ → Option Text → Text
error_code status none = http_code status
error_code status (some code) = code

abbrev pub with_value {ℓ} : {A : Type ℓ} → Result A → Result (Option A)
with_value (ok a) = ok (some a)
with_value (err e) = err e

-- The result, and whether the handler is called.
unfoldable pub receive {ℓ} : {A : Type ℓ} → Answer A → Bool × Result (Option A)
unfolding http_code
receive (rejected e) = (false, err e)
receive (answered status code value) =
    if is_ok_status status
    then (false, (if status == 204 then ok none else with_value value))
    else (status == 401, err (api_error status (error_code status code)))
