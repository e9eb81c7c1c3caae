-- ===== src/Tasks/Tests.antt =====
-- Submissions and retries of small jobs.
use file_harbor.Base.{ℕ, ◌≡◌, refl, false, [], ◌∷◌, none, some, codes, if◌then◌else◌}
use file_harbor.Base.OrderedMap
use file_harbor.Base.Results.{Result, ok, err, api_error}
use file_harbor.Api.Records.{file, FileEntry, DirectoryListing, FileJob, JobRequest, copy}
use file_harbor.Tasks.{Tasks, submit_begin, submit_end, retry_request}
use file_harbor.Tasks.Keys.{keeps_key, submit_again_key}
use file_harbor.Tasks.Retrying.{NamesAll, retry_request-NamesAll}

abbrev no_tasks : Tasks
no_tasks = record {
  pending = [];
  open_ = false;
  seen = [];
  job_refreshes = 0;
  listing_refreshes = 0;
}

abbrev lost : Result ℕ
lost = err (api_error 0 (codes "network_error"))

submit_again_key_example :
    (submit_begin
      (submit_end (submit_begin no_tasks (codes "{}") (codes "k1")).0 (codes "{}") lost)
      (codes "{}")
      (codes "k2")).1
    ≡ (if keeps_key lost then (submit_begin no_tasks (codes "{}") (codes "k1")).1 else codes "k2")
submit_again_key_example =
    submit_again_key no_tasks (codes "{}") (codes "k1") (codes "k2") lost refl

same_key :
    (submit_begin
      (submit_end (submit_begin no_tasks (codes "{}") (codes "k1")).0 (codes "{}") lost)
      (codes "{}")
      (codes "k2")).1
    ≡ codes "k1"
unfolding submit_begin submit_end OrderedMap.put OrderedMap.get
same_key = refl

abbrev job : FileJob
job = record {
  id = codes "j";
  kind = copy;
  state = codes "failed";
  phase = [];
  sources = record { path = codes "a/b"; version = codes "old" } ∷ [];
  destination = codes "c";
  name = none;
  target = record { mode = codes "keep"; directory = none; name = none };
  bytes = 0;
  items = 0;
  published = [];
  intent = none;
  code = none;
  cancel_requested = false;
}

abbrev entry : FileEntry
entry = record {
  name = codes "b";
  path = codes "a/b";
  kind = file;
  size_bytes = 1;
  modified_at = [];
  mode = [];
  extension = none;
  is_archive = false;
  previewable = false;
  editable = false;
  version = codes "new";
}

abbrev listing : DirectoryListing
listing = record {
  path = codes "a";
  parent_path = some [];
  listing_token = codes "l";
  entries = entry ∷ [];
  truncated = false;
  disk = none;
}

abbrev again : JobRequest
again = record {
  kind = copy;
  previous = some (codes "j");
  path = none;
  version = none;
  destination = some (codes "c");
  name = none;
  target = some job.target;
  listing_token = some (codes "l");
  entries = record { name = codes "b"; version = codes "new" } ∷ [];
}

retried : retry_request job listing ≡ ok again
unfolding retry_request
retried = refl

retry_request-NamesAll_example :
    (again.previous ≡ some job.id)
    × (again.listing_token ≡ some listing.listing_token)
    × NamesAll listing.entries job.sources again.entries
retry_request-NamesAll_example = retry_request-NamesAll job listing again retried
