-- ===== src/Lib.antt =====
-- Verification of the browser client of FileHarbor (web/src): the TypeScript program that lists,
-- uploads and changes the files of a server over its HTTP routes.
--
-- The parts, how they interact, and the modules that model them:
--
-- Base: texts as lists of UTF-16 code units, lists measured by native numbers, the operations on
-- paths that the client writes as `split('/')` and `join('/')`, insertion-ordered maps for `Map`,
-- and the results of promises (`Failure` is what a promise rejects with, `Result` what it gives).
--
-- Uploads (web/src/uploads/queue.ts, storage.ts): the class `ReliableUploadQueue`. Items are
-- shared objects: `Queue.heap` holds them and the map holds references, so that a worker goes on
-- with the item it started with after the map has lost or replaced it. The asynchronous methods
-- are cut at their awaits: a point (`RunPoint`, `CancelPoint`) says where a call waits and what
-- it keeps, and one function leads from each point, with the reply, to the next. Uploads.Model
-- has the records; Hash `hashBlob`; Parts `receivedIndexes`, the slices of a file and the
-- progress; Retry the method `retry`; Queue the fields, `notify`, `persist`, `update` and
-- `snapshot`; Cancel `cancel`; Run `run`, `resolveStatus` and `uploadPart`; Operations `pump`,
-- `restore`, `addDirectoryFiles`, `pause`, `resume`, `attachFile` and `remove`; Restoring
-- `restoreDirectoryFiles`; System puts them together: a world is the queue with the tasks under
-- way, and an event is a call of a public method or a reply to one task, so that any interleaving
-- is a list of events. System.Accepted follows one worker through its replies, with the parts that
-- the server has accepted from it. Frame and System.Sound and System.Valid carry the invariant. Drawer is
-- web/src/components/UploadQueueDrawer.tsx: what it collects of the items at each rendering, and
-- when it tells the view that a batch is done; below it Choosing is `chooseDirectory` and the
-- drop.
--
-- Directories (web/src/uploads/directoryEntries.ts): `validate`, `filesWithDirectories`, and the
-- two walks: Drop of dropped entries, Pick of a picked directory, over trees of what the browser
-- answers.
--
-- Api (web/src/api/client.ts): Records the records, `normalizeSession`, `normalizeListing` and
-- `normalizeTrash`; Requests method, path and headers of each function of `api` and of
-- `xhrUploadPart`; Transport `request`; PartRequest the events of `xhrUploadPart`.
--
-- Session (web/src/session/SessionProvider.tsx): the provider as a state machine over the answers
-- that `request` takes, with the CSRF token and the handler of expired sessions that client.ts
-- keeps for it. Login (web/src/components/loginMemory.ts, LoginPage.tsx): the remembered login
-- and the page; Browser is the local storage that it and Appearance use.
--
-- Workspace (web/src/components): Listing and Selection are workspaceListing.ts, Actions is
-- entryActions.ts. Page is the state of Workspace.tsx with its effects; below it Refresh is
-- `handleManualRefresh`, Batch `batchBody`, `affectedDirectories` and `doBatch`, Commands
-- `performEntryAction`, `confirmDelete`, `closeEditor`, `signOut`, the submission of a form and
-- the callbacks of the mutations, and Events puts them together: an event changes the state and
-- the effects follow it. What the view calls is a list of commands. Form is `EntryForm`, Folder
-- is FolderDestinationPicker.tsx and DirectorySize.tsx. Routes is web/src/runtime.ts with
-- `decodeRouteSplat` and `directoryPathForEditor` of web/src/components/Workspace.tsx.
--
-- RecycleBin is web/src/components/RecycleBinPanel.tsx. Archives is the tree of
-- ArchivePreviewPanel.tsx, with Extract for ExtractArchiveDialog.tsx. Tasks is
-- web/src/tasks/TaskProvider.tsx, with Panel for TaskPanel.tsx. Favorites is
-- web/src/components/useFavorites.ts, with Panel for FavoritesPanel.tsx and FavoriteButton.tsx.
-- Search is web/src/components/SearchPanel.tsx, with Parameters for its form, and Editor is
-- web/src/editor/EditorDialog.tsx, both as runs of events. Appearance is web/src/theme.ts and
-- web/src/appearance/ThemePreferencesProvider.tsx; Translations is web/src/i18n/index.tsx.
--
-- Uploads takes the requests of Api as replies to its tasks and the files of Directories as
-- additions; Session takes the answers of Api.Transport and its token goes into the requests of
-- Api.Requests; Workspace.Page shows the lists of Workspace.Listing and offers the menus of
-- Workspace.Actions; Tasks, Favorites, RecycleBin and Workspace work on the records of Api; Tests
-- modules run the definitions on small inputs.
--
-- Bounds and fuel: the loop of `pump` runs over the places that are free, at most two, since each
-- round takes one or returns; the loop of `retry` over its three attempts; the loop of `run` over
-- the parts that are left; `hashBlob` over at most one slice for each byte and one more, which is
-- enough for slices of at least one byte; a number has at most as many digits as its value and
-- one more. The walks of directories recur on the trees. Numbers are unbounded: sizes stay below
-- 2^53 in the code.
--
-- Left out or simplified: the hash of the `@noble/hashes` library is a parameter with the law
-- that feeding it in pieces does not matter; random ids, tokens, the clock and
-- `encodeURIComponent` are arguments; listeners are a counter of notifications and the browser's
-- database a list of requests; the steps a promise takes to hand on its value count as one; the
-- progress of an item is kept as a pair of numerator and denominator; dates are what the platform
-- makes of them. The decrement of `active` stops at zero, unlike that of the code. JSON, the
-- collator and the case mapping are interfaces with laws. The query cache of the client is what
-- it answers for a key; an answer equal to the last is no change. The effects of the file view
-- run one after the other on the state that the last one left, which is where the renderings that
-- they cause end. The random part of a restored selection is an argument as for added files.
--
-- Not modelled: the bodies of requests, the database functions of storage.ts, the entry that the
-- editor's route stands for, the options that web/src/tokens.ts passes to MUI, formatBytes.ts,
-- whose numbers are fractions, the texts of the messages, and the drawing of the components,
-- since they are data, or need the browser; nor the server, which is another program.
mod Base
pub mod Api
pub mod Appearance
pub mod Archives
pub mod Browser
pub mod Directories
pub mod Editor
pub mod Favorites
pub mod Login
pub mod Session
pub mod RecycleBin
pub mod Routes
pub mod Search
pub mod Tasks
pub mod Translations
pub mod Uploads
pub mod Workspace
