-- ===== src/Api/Records.antt =====
-- The records of web/src/api/client.ts and the functions that turn the server's answers into them.
-- An optional field that is missing and one that is undefined are the same here.
use file_harbor.Base.{ℕ, Bool, List, Option, none, some, Text, codes, truthy, ◌===◌, if◌then◌else◌}

pub record SessionCapabilities : Type 0 where
  pub browse : Bool
  pub upload : Bool
  pub mutate : Bool
  pub editor_save : Bool

pub record SessionBootstrapResponse : Type 0 where
  pub username : Text
  pub csrf_token : Text
  pub expires_at : Text
  pub base_path : Text
  pub locale : Text
  pub capabilities : SessionCapabilities

pub data Language : Type 0 where
  en zh : Language

pub record BrowserSession : Type 0 where
  pub username : Text
  pub csrf_token : Text
  pub expires_at : Text
  pub base_path : Text
  pub language : Language
  pub capabilities : SessionCapabilities

unfoldable pub normalize_session : SessionBootstrapResponse → BrowserSession
normalize_session response = record {
  username = response.username;
  csrf_token = response.csrf_token;
  expires_at = response.expires_at;
  base_path = response.base_path;
  language = if response.locale === codes "zh-CN" then zh else en;
  capabilities = response.capabilities;
}

pub data EntryKind : Type 0 where
  file directory : EntryKind

pub record FileEntry : Type 0 where
  pub name : Text
  pub path : Text
  pub kind : EntryKind
  pub size_bytes : ℕ
  pub modified_at : Text
  pub mode : Text
  pub extension : Option Text
  pub is_archive : Bool
  pub previewable : Bool
  pub editable : Bool
  pub version : Text

pub record DiskUsage : Type 0 where
  pub total_bytes : ℕ
  pub free_bytes : ℕ
  pub used_percent : ℕ

pub record DirectoryListing : Type 0 where
  pub path : Text
  pub parent_path : Option Text
  pub listing_token : Text
  pub entries : List FileEntry
  pub truncated : Bool
  pub disk : Option DiskUsage

-- The server's answer; its entries and its disk have the same fields under other names.
pub record ListedDirectory : Type 0 where
  pub path : Text
  pub parent_path : Option Text
  pub listing_token : Text
  pub entries : List FileEntry
  pub truncated : Bool

pub record ListingResponse : Type 0 where
  pub directory : ListedDirectory
  pub disk : Option DiskUsage

unfoldable pub normalize_listing : ListingResponse → DirectoryListing
normalize_listing response = record {
  path = (response.directory).path;
  parent_path = (response.directory).parent_path;
  listing_token = (response.directory).listing_token;
  truncated = (response.directory).truncated;
  entries = (response.directory).entries;
  disk = response.disk;
}

pub record TrashEntry : Type 0 where
  pub id : Text
  pub name : Text
  pub original_path : Text
  pub kind : EntryKind
  pub size_bytes : ℕ
  pub deleted_at : Text

pub record TrashPage : Type 0 where
  pub entries : List TrashEntry
  pub next_cursor : Option Text

-- `response.next_cursor || undefined`
abbrev pub non_empty : Option Text → Option Text
non_empty none = none
non_empty (some cursor) = if truthy cursor then some cursor else none

-- The wire record of a trash page has the same fields under other names.
unfoldable pub normalize_trash : List TrashEntry → Option Text → TrashPage
normalize_trash entries cursor = record { entries = entries; next_cursor = non_empty cursor }

pub record Favorite : Type 0 where
  pub id : Text
  pub path : Text
  pub label : Text
  pub revision : ℕ
  pub created_at : Text
  pub availability : Option Text

pub data JobKind : Type 0 where
  copy compress extract : JobKind

pub record JobTarget : Type 0 where
  pub mode : Text
  pub directory : Option Text
  pub name : Option Text

pub record JobSource : Type 0 where
  pub path : Text
  pub version : Text

pub record FileJob : Type 0 where
  pub id : Text
  pub kind : JobKind
  pub state : Text
  pub phase : Text
  pub sources : List JobSource
  pub destination : Text
  pub name : Option Text
  pub target : JobTarget
  pub bytes : ℕ
  pub items : ℕ
  pub published : List Text
  pub intent : Option Text
  pub code : Option Text
  pub cancel_requested : Bool

-- An entry that a job names: its name and the version that was listed.
pub record NamedVersion : Type 0 where
  pub name : Text
  pub version : Text

pub record JobRequest : Type 0 where
  pub kind : JobKind
  pub previous : Option Text
  pub path : Option Text
  pub version : Option Text
  pub destination : Option Text
  pub name : Option Text
  pub target : Option JobTarget
  pub listing_token : Option Text
  pub entries : List NamedVersion
