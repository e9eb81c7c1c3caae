-- ===== src/Api/Guarded.antt =====
-- Which requests carry the token that the server checks against forged requests.
use file_harbor.Base.{
  Bool, true, false, not, ◌&&◌, ◌≡◌, refl, List, Text, truthy, any, ◌===◌, ===_refl,
}
use file_harbor.Api.Requests.{
  Header, Method, get_method, ApiCall, csrf_name, request_of, get_jobs, remove_job, create_job,
  cancel_job, start_size_scan, get_size_scan, cancel_size_scan, prepare_upload_directories,
  get_favorites, add_favorite, rename_favorite, remove_favorite, search_files, preview_archive,
  log_in, get_session, log_out, get_listing, get_directories, get_properties, get_trash,
  restore_trash, purge_trash, empty_trash, get_editor_content, save_editor_content, mutate_form,
  batch_json, create_upload, get_upload, complete_upload, cancel_upload, upload_part,
}

abbrev pub is_get : Method → Bool
is_get get_method = true
is_get _ = false

abbrev pub is_log_in : ApiCall → Bool
is_log_in log_in = true
is_log_in _ = false

-- The header with this token is among the headers.
abbrev pub carries : Text → List Header → Bool
carries t headers = any (λ (name, value). name === csrf_name && value === t) headers

-- With a token that is not empty, the requests that carry it are exactly those whose method is not
-- GET, but for the login, which has no session yet.
pub csrf_sent :
    (encode : Text → Text) (query : List (Text × Text) → Text) (t : Text) (call : ApiCall)
    → truthy t ≡ true
    → carries t (request_of encode query t call).headers
      ≡ (not (is_get (request_of encode query t call).method) && not (is_log_in call))
unfolding request_of
csrf_sent encode query t get_jobs h = refl
csrf_sent encode query t (remove_job id) h = rw (h, ===_refl t) refl
csrf_sent encode query t (create_job previous) h = rw (h, ===_refl t) refl
csrf_sent encode query t (cancel_job id) h = rw (h, ===_refl t) refl
csrf_sent encode query t start_size_scan h = rw (h, ===_refl t) refl
csrf_sent encode query t (get_size_scan id) h = refl
csrf_sent encode query t (cancel_size_scan id) h = rw (h, ===_refl t) refl
csrf_sent encode query t prepare_upload_directories h = rw (h, ===_refl t) refl
csrf_sent encode query t get_favorites h = refl
csrf_sent encode query t add_favorite h = rw (h, ===_refl t) refl
csrf_sent encode query t (rename_favorite id) h = rw (h, ===_refl t) refl
csrf_sent encode query t (remove_favorite id) h = rw (h, ===_refl t) refl
csrf_sent encode query t (search_files parameters) h = refl
csrf_sent encode query t (preview_archive path version) h = refl
csrf_sent encode query t log_in h = refl
csrf_sent encode query t get_session h = refl
csrf_sent encode query t log_out h = rw (h, ===_refl t) refl
csrf_sent encode query t (get_listing path) h = refl
csrf_sent encode query t (get_directories path) h = refl
csrf_sent encode query t (get_properties path) h = refl
csrf_sent encode query t (get_trash cursor) h = refl
csrf_sent encode query t (restore_trash id) h = rw (h, ===_refl t) refl
csrf_sent encode query t (purge_trash id) h = rw (h, ===_refl t) refl
csrf_sent encode query t empty_trash h = rw (h, ===_refl t) refl
csrf_sent encode query t (get_editor_content path) h = refl
csrf_sent encode query t save_editor_content h = rw (h, ===_refl t) refl
csrf_sent encode query t (mutate_form endpoint) h = rw (h, ===_refl t) refl
csrf_sent encode query t (batch_json endpoint) h = rw (h, ===_refl t) refl
csrf_sent encode query t (create_upload id token) h = rw (h, ===_refl t) refl
csrf_sent encode query t (get_upload id token) h = refl
csrf_sent encode query t (complete_upload id token) h = rw (h, ===_refl t) refl
csrf_sent encode query t (cancel_upload id token) h = rw (h, ===_refl t) refl
csrf_sent encode query t (upload_part id token index sha256) h = rw (h, ===_refl t) refl
