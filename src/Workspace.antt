-- ===== src/Workspace.antt =====
-- The file view: web/src/components.
pub mod Listing
pub mod Sorted
pub mod Selection
pub mod Actions
pub mod Page
pub mod Form
pub mod Folder
mod Tests
