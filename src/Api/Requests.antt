-- ===== src/Api/Requests.antt =====
-- The requests of `api` in web/src/api/client.ts, and of `xhrUploadPart`: method, path and headers
-- of each. The bodies are the arguments, in JSON or as a form, and are left out; so are the abort
-- signals. `encodeURIComponent` and the serialisation of query parameters are parameters.
use file_harbor.Base.{
  ℕ, List, [], ◌∷◌, ◌++◌, Option, none, some, Text, codes, truthy, if◌then◌else◌,
}
use file_harbor.Base.Decimal.{decimal}

abbrev pub Header : Type 0
Header = Text × Text

pub data Method : Type 0 where
  get_method post_method put_method patch_method delete_method : Method

pub record HttpRequest : Type 0 where
  pub method : Method
  pub path : Text
  pub headers : List Header

-- The functions of `api`, with the arguments that go into method, path or headers.
pub data ApiCall : Type 0 where
  get_jobs : ApiCall
  remove_job : Text → ApiCall
  create_job : Option Text → ApiCall
  cancel_job : Text → ApiCall
  start_size_scan : ApiCall
  get_size_scan : Text → ApiCall
  cancel_size_scan : Text → ApiCall
  prepare_upload_directories : ApiCall
  get_favorites : ApiCall
  add_favorite : ApiCall
  rename_favorite : Text → ApiCall
  remove_favorite : Text → ApiCall
  search_files : List (Text × Text) → ApiCall
  preview_archive : Text → Text → ApiCall
  log_in : ApiCall
  get_session : ApiCall
  log_out : ApiCall
  get_listing : Text → ApiCall
  get_directories : Text → ApiCall
  get_properties : Text → ApiCall
  get_trash : Option Text → ApiCall
  restore_trash : Text → ApiCall
  purge_trash : Text → ApiCall
  empty_trash : ApiCall
  get_editor_content : Text → ApiCall
  save_editor_content : ApiCall
  mutate_form : Text → ApiCall
  batch_json : Text → ApiCall
  create_upload : Text → Text → ApiCall
  get_upload : Text → Text → ApiCall
  complete_upload : Text → Text → ApiCall
  cancel_upload : Text → Text → ApiCall
  upload_part : Text → Text → ℕ → Text → ApiCall

abbrev pub csrf_name : Text
csrf_name = codes "X-CSRF-Token"

abbrev json_headers : List Header
json_headers = (codes "Accept", codes "application/json") ∷ []

abbrev json_content : List Header
json_content = (codes "Content-Type", codes "application/json") ∷ []

abbrev upload_token : Text → List Header
upload_token token = (codes "X-Upload-Token", token) ∷ []

unfoldable pub csrf_headers : Text → List Header
csrf_headers csrf_token = if truthy csrf_token then (csrf_name, csrf_token) ∷ [] else []

-- `{ ...jsonHeaders, ...csrfHeaders(), 'Content-Type': 'application/json' }`
unfoldable pub json_mutation : Text → List Header
unfolding csrf_headers
json_mutation csrf_token = json_headers ++ csrf_headers csrf_token ++ json_content

-- `if (prefix) ... : 'api/jobs'`: a request that repeats a job names it in the path.
abbrev job_path : (Text → Text) → Option Text → Text
job_path encode none = codes "api/jobs"
job_path encode (some previous) =
    if truthy previous
    then codes "api/jobs/" ++ encode previous ++ codes "/retry"
    else codes "api/jobs"

abbrev trash_path : (Text → Text) → Option Text → Text
trash_path encode none = codes "api/trash"
trash_path encode (some cursor) =
    if truthy cursor then codes "api/trash?cursor=" ++ encode cursor else codes "api/trash"

module _ (encode : Text → Text) (query : List (Text × Text) → Text) where
  abbrev upload_path : Text → Text
  upload_path id = codes "api/uploads/" ++ encode id

  abbrev request_to : Method → Text → List Header → HttpRequest
  request_to m path headers = record { method = m; path = path; headers = headers }

  unfoldable pub request_of : Text → ApiCall → HttpRequest
  unfolding csrf_headers json_mutation
  request_of t get_jobs = request_to get_method (codes "api/jobs") []
  request_of t (remove_job id) =
      request_to delete_method (codes "api/jobs/" ++ encode id) (csrf_headers t)
  request_of t (create_job previous) =
      request_to post_method (job_path encode previous) (json_mutation t)
  request_of t (cancel_job id) =
      request_to post_method (codes "api/jobs/" ++ encode id ++ codes "/cancel") (csrf_headers t)
  request_of t start_size_scan = request_to post_method (codes "api/size-scans") (json_mutation t)
  request_of t (get_size_scan id) =
      request_to get_method (codes "api/size-scans/" ++ encode id) json_headers
  request_of t (cancel_size_scan id) =
      request_to delete_method (codes "api/size-scans/" ++ encode id)
        (json_headers ++ csrf_headers t)
  request_of t prepare_upload_directories =
      request_to post_method (codes "api/uploads/directories") (json_mutation t)
  request_of t get_favorites = request_to get_method (codes "api/favorites") json_headers
  request_of t add_favorite = request_to post_method (codes "api/favorites") (json_mutation t)
  request_of t (rename_favorite id) =
      request_to patch_method (codes "api/favorites/" ++ encode id) (json_mutation t)
  request_of t (remove_favorite id) =
      request_to delete_method (codes "api/favorites/" ++ encode id) (json_mutation t)
  request_of t (search_files parameters) =
      request_to get_method (codes "api/search?" ++ query parameters) json_headers
  request_of t (preview_archive path version) =
      request_to get_method
        (codes "api/archive/preview?"
          ++ query ((codes "path", path) ∷ (codes "version", version) ∷ []))
        json_headers
  request_of t log_in =
      request_to post_method (codes "api/session/login") (json_headers ++ json_content)
  request_of t get_session = request_to get_method (codes "api/session") json_headers
  request_of t log_out =
      request_to post_method (codes "api/session/logout") (json_headers ++ csrf_headers t)
  request_of t (get_listing path) =
      request_to get_method (codes "api/listing?path=" ++ encode path) json_headers
  request_of t (get_directories path) =
      request_to get_method (codes "api/directories?path=" ++ encode path) json_headers
  request_of t (get_properties path) =
      request_to get_method (codes "api/properties?basic=true&path=" ++ encode path) json_headers
  request_of t (get_trash cursor) = request_to get_method (trash_path encode cursor) json_headers
  request_of t (restore_trash id) =
      request_to post_method (codes "api/trash/" ++ encode id ++ codes "/restore")
        (csrf_headers t ++ json_headers)
  request_of t (purge_trash id) =
      request_to post_method (codes "api/trash/" ++ encode id ++ codes "/purge")
        (csrf_headers t ++ json_content ++ json_headers)
  request_of t empty_trash =
      request_to post_method (codes "api/trash/empty")
        (csrf_headers t ++ json_content ++ json_headers)
  request_of t (get_editor_content path) =
      request_to get_method (codes "api/editor/content?path=" ++ encode path) json_headers
  request_of t save_editor_content =
      request_to put_method (codes "api/editor/content") (json_mutation t)
  request_of t (mutate_form endpoint) = request_to post_method endpoint (
      csrf_headers t
      ++ (codes "Content-Type", codes "application/x-www-form-urlencoded") ∷ json_headers)
  request_of t (batch_json endpoint) =
      request_to post_method endpoint (csrf_headers t ++ json_content ++ json_headers)
  request_of t (create_upload id token) = request_to post_method (codes "api/uploads") (
      csrf_headers t
      ++ json_content
      ++ (codes "X-Upload-ID", id) ∷ upload_token token
      ++ json_headers)
  request_of t (get_upload id token) =
      request_to get_method (upload_path id) (upload_token token ++ json_headers)
  request_of t (complete_upload id token) =
      request_to post_method (upload_path id ++ codes "/complete")
        (csrf_headers t ++ upload_token token ++ json_headers)
  request_of t (cancel_upload id token) =
      request_to delete_method (upload_path id)
        (csrf_headers t ++ upload_token token ++ json_headers)
  request_of t (upload_part id token index sha256) =
      request_to put_method (upload_path id ++ codes "/parts/" ++ decimal index) (
        (codes "Content-Type", codes "application/octet-stream")
        ∷ (codes "X-Upload-ID", id)
        ∷ (codes "X-Upload-Token", token)
        ∷ (codes "X-Upload-Part-SHA256", sha256)
        ∷ csrf_headers t)
