-- ===== src/Uploads/Model.antt =====
-- The records of web/src/uploads/storage.ts, web/src/uploads/queue.ts and of the upload routes of
-- web/src/api/client.ts.
use file_harbor.Base.{ℕ, Option, Bool, true, false, List, Text, codes, length, ◌||◌, ◌==◌, leb}
use file_harbor.Base.Int.{ℤ}
pub use file_harbor.Base.Results.{Failure, api_error, js_error, other_value, Result, ok, err}

pub record UploadRange : Type 0 where
  pub start : ℕ
  pub end : ℕ

pub data UploadState : Type 0 where
  active finalizing completed cancelled : UploadState

pub record UploadStatus : Type 0 where
  pub id : Text
  pub path : Text
  pub name : Text
  pub size : ℕ
  pub chunk_bytes : ℕ
  pub part_count : ℕ
  pub received : List UploadRange
  pub received_bytes : ℕ
  pub state : UploadState
  pub expires_at : Text
  pub final_sha256 : Option Text
  pub final_path : Option Text

-- A browser `File`: its metadata and its bytes.
pub record SourceFile : Type 0 where
  pub name : Text
  pub last_modified : ℕ
  pub webkit_relative_path : Text
  pub bytes : List ℕ

abbrev pub file_size : SourceFile → ℕ
file_size f = length f.bytes

pub record StoredUpload : Type 0 where
  pub version : ℕ
  pub id : Text
  pub token : Text
  pub scope : Text
  pub path : Text
  pub name : Text
  pub relative_path : Option Text
  pub size : ℕ
  pub last_modified : ℕ
  pub sha256 : Text
  pub created_at : ℕ

pub data UploadPhase : Type 0 where
  reselect waiting hashing uploading paused completed failed cancelled : UploadPhase

-- `progress` is a quotient of two integers; the pair is kept.
pub record Ratio : Type 0 where
  pub numerator : ℤ
  pub denominator : ℕ

abbrev pub ratio : ℤ → ℕ → Ratio
ratio n d = record { numerator = n; denominator = d }

pub record QueueItem : Type 0 where
  pub stored : StoredUpload
  pub open stored use *
  pub file : Option SourceFile
  pub phase : UploadPhase
  pub progress : Ratio
  pub received_bytes : ℤ
  pub error : Option Text
  pub status : Option UploadStatus

-- `['completed', 'cancelled'].includes(phase)`
abbrev pub is_terminal : UploadPhase → Bool
is_terminal UploadPhase.completed = true
is_terminal UploadPhase.cancelled = true
is_terminal _ = false

-- `phase === 'paused' || phase === 'cancelled'`
abbrev pub is_stopped : UploadPhase → Bool
is_stopped paused = true
is_stopped UploadPhase.cancelled = true
is_stopped _ = false

abbrev pub is_waiting : UploadPhase → Bool
is_waiting waiting = true
is_waiting _ = false

abbrev pub is_active : UploadState → Bool
is_active active = true
is_active _ = false

-- `ReliableUploadQueue.retryable`
unfoldable pub retryable : Failure → Bool
retryable (api_error status code) = status == 0 || status == 408 || leb 500 status
retryable (js_error message) = true
retryable other_value = true

-- The code of a failed upload, as `run` and as `cancel` compute it.
unfoldable pub run_error_code : Failure → Text
run_error_code (api_error status code) = code
run_error_code (js_error message) = message
run_error_code other_value = codes "upload_failed"

unfoldable pub cancel_error_code : Failure → Text
cancel_error_code (api_error status code) = code
cancel_error_code (js_error message) = codes "upload_failed"
cancel_error_code other_value = codes "upload_failed"
