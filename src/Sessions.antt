-- ===== src/Sessions.antt =====
-- apps/frontend/src/features/sessions: the unified list of sessions, one child for each module.
pub mod Rows
pub mod Merge
pub mod Pagination
pub mod Paging
pub mod RelativeTime
pub mod FilterState
pub mod Filters
pub mod Projects
