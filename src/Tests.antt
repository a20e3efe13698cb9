-- ===== src/Tests.antt =====
-- Concrete rows, messages and texts, and the theorems at them.
mod Data
mod Api
mod Sessions
mod Parsers
mod Feed
mod Hooks
mod Hints
mod Browser
mod Paging
mod ParsedHook
