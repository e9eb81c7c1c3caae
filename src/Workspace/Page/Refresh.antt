-- ===== src/Workspace/Page/Refresh.antt =====
-- The refresh of a listing that a button starts: `handleManualRefresh`.
use file_harbor.Base.{true, false, ◌||◌, [], Option, none, some, Text, codes, ◌===◌, if◌then◌else◌}
use file_harbor.Base.Results.{error_key_or, Result, ok, err}
use file_harbor.Workspace.Page.{Page, refreshed_notice}

-- What comes before the await, and the path that is refreshed, if any.
unfoldable pub refresh_begin : Page → Page × Option Text
refresh_begin p = if p.manual_refresh || p.fetching then (p, none) else (
  record p { manual_refresh = true; refresh_error = none; selected = [] },
  some p.current_path,
)

abbrev refreshed {ℓ} : {A : Type ℓ} → Page → Result A → Page
refreshed p (ok value) = record p { notice = some refreshed_notice }
refreshed p (err e) = record p {
  refresh_error = some (error_key_or (codes "workspace.refreshFailed") e);
}

-- What comes after the await, with the `finally` block; each part compares the paths.
unfoldable pub refresh_end {ℓ} : {A : Type ℓ} → Page → Text → Result A → Page
refresh_end p path r =
    if p.current_path === path then record (refreshed p r) { manual_refresh = false } else p
